-- ===== src/Fsm/Moves.antt =====
-- The states that a volume can come to by given events of the diagram and by reconciliation.
use block_storage_api.Prelude.{◌≡◌, some}
use block_storage_api.Storage.{State}
use block_storage_api.Fsm.{Event}
use block_storage_api.Fsm.Graph.{edge}

-- Where `POST /reconcile` can take a volume from the error state (README, "Error recovery").
pub data IsTarget : State → Type 0 where
  to_pending : IsTarget State.pending
  to_available : IsTarget State.available
  to_attached : IsTarget State.attached

-- From `s`, by the events that `may` fire; a reconciliation is the event `reconcile`.
pub data Moves (may : Event → Type 0) (s : State) : State → Type 0 where
  stay : Moves may s s
  step : {t u : State} (e : Event) → may e → Moves may s t → edge t e ≡ some u → Moves may s u
  realign :
      {t u : State}
      → may Event.reconcile
      → Moves may s t
      → t ≡ State.error
      → IsTarget u
      → Moves may s u

pub Moves-trans :
    {may : Event → Type 0} {s t u : State} → Moves may s t → Moves may t u → Moves may s u
Moves-trans m stay = m
Moves-trans m (step e a n h) = step e a (Moves-trans m n) h
Moves-trans m (realign a n h g) = realign a (Moves-trans m n) h g
