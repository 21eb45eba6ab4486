-- ===== src/Fsm.antt =====
-- volume/fsm.go: the transition table that the program hands to looplab/fsm, and its two readings.
pub mod Graph
pub mod Moves
use block_storage_api.Prelude.{
  ℕ, ◌≡◌, ◌≢◌, List, [], ◌∷◌, Bool, true, false, Option, none, some, ite, ℤ, pos,
}
use block_storage_api.Errors.{Error, Result, ok, err, wrap}
use block_storage_api.Storage.{State, State-discrete}

-- The event strings: those of the state machine, and the two that the audit trail and the event
-- stream write beside them.
pub data Event : Type 0 where
  create ready attach attached detach detached delete deleted error retry fail : Event
  reconcile current : Event

pub Event-discrete : Discrete Event
Event-discrete = hlevel

-- `fsm.EventDesc`
pub record EventDesc : Type 0 where
  pub name : Event
  pub src : List State
  pub dst : State

abbrev has_source : State → List State → Bool
has_source s [] = false
has_source s (x ∷ xs) = ite (State-discrete x s) true (has_source s xs)

-- The destinations that a table names for an event in a state.
unfoldable pub targets : List EventDesc → State → Event → List State
unfolding State-discrete Event-discrete
targets [] s e = []
targets (d ∷ ds) s e =
    let rest = targets ds s e in
    ite (Event-discrete d.name e) (elim (has_source s d.src) [ true ↦ d.dst ∷ rest | false ↦ rest ])
      rest

-- What the program relies on of looplab/fsm, a machine being of type `M`: on an event with one
-- destination, other than the current state, `Can` holds and `Event` moves there; on an event
-- that the table does not name for the current state, `Can` fails and `Event` returns an error.
pub record FsmLibrary (M : Type 0) : Type 0 where
  pub new_fsm : State → List EventDesc → M
  pub can : M → Event → Bool
  pub event : M → Event → Option Error × M
  pub current : M → State
  pub can_declared :
      (s t : State) (e : Event) (ds : List EventDesc)
      → targets ds s e ≡ t ∷ []
      → can (new_fsm s ds) e ≡ true
  pub can_undeclared :
      (s : State) (e : Event) (ds : List EventDesc)
      → targets ds s e ≡ []
      → can (new_fsm s ds) e ≡ false
  pub event_declared :
      (s t : State) (e : Event) (ds : List EventDesc)
      → targets ds s e ≡ t ∷ []
      → s ≢ t
      → ((event (new_fsm s ds) e).0 ≡ none) × (current (event (new_fsm s ds) e).1 ≡ t)
  pub event_undeclared :
      (s : State) (e : Event) (ds : List EventDesc)
      → targets ds s e ≡ []
      → (x : Error) × ((event (new_fsm s ds) e).0 ≡ some x)

abbrev desc : Event → List State → State → EventDesc
desc e ss t = record { name = e; src = ss; dst = t }

-- The table of `NewVolumeFSM`.
unfoldable pub volume_events : List EventDesc
volume_events =
    desc Event.create (State.pending ∷ []) State.creating
    ∷ desc Event.ready (State.creating ∷ []) State.available
    ∷ desc Event.attach (State.available ∷ []) State.attaching
    ∷ desc Event.attached (State.attaching ∷ []) State.attached
    ∷ desc Event.detach (State.attached ∷ []) State.detaching
    ∷ desc Event.detached (State.detaching ∷ []) State.available
    ∷ desc Event.delete (State.available ∷ []) State.deleting
    ∷ desc Event.deleted (State.deleting ∷ []) State.deleted
    ∷ desc Event.error (State.creating ∷ []) State.creating_failed
    ∷ desc Event.error (State.attaching ∷ []) State.attaching_failed
    ∷ desc Event.error (State.detaching ∷ []) State.detaching_failed
    ∷ desc Event.error (State.deleting ∷ []) State.deleting_failed
    ∷ desc Event.retry (State.creating_failed ∷ []) State.creating
    ∷ desc Event.retry (State.attaching_failed ∷ []) State.attaching
    ∷ desc Event.retry (State.detaching_failed ∷ []) State.detaching
    ∷ desc Event.retry (State.deleting_failed ∷ []) State.deleting
    ∷ desc Event.fail
        (State.creating_failed ∷ State.attaching_failed ∷ State.detaching_failed
          ∷ State.deleting_failed ∷ [])
        State.error
    ∷ []

module _ {M : Type 0} (lib : FsmLibrary M) where
  pub new_volume_fsm : State → M
  new_volume_fsm initial = lib.new_fsm initial volume_events

  unfoldable pub can_transition : State → Event → Bool
  unfolding new_volume_fsm
  can_transition s e = lib.can (new_volume_fsm s) e

  abbrev after_event : Option Error × M → Result State
  after_event (none, f) = ok (lib.current f)
  after_event (some x, f) = err (wrap "fsm" x)

  -- On an error the source also returns the state that it was given, which no caller reads.
  unfoldable pub transition : State → Event → Result State
  unfolding new_volume_fsm
  transition s e = after_event (lib.event (new_volume_fsm s) e)
