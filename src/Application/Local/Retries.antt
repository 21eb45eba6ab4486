-- ===== src/Application/Local/Retries.antt =====
-- What the goroutine of `runWithRetry` comes to over the repository in memory, by how often the
-- backend fails.
pub mod Endings
pub mod Finishes
use block_storage_api.Prelude.{
  ℕ, zero, suc, ◌+◌, ◌*◌, ◌<◌, ◌≤◌, String, ◌≡◌, ◌≢◌, refl, sym, ◌∙◌, ap, Option, none, some, List,
  [], ◌∷◌, ◌++◌, arith, eqb, length, pos_part, Bool, true, false,
}
use block_storage_api.Prelude.Dict.{lookup, insert}
use block_storage_api.Errors.{Error, Outcome, ok, err}
use block_storage_api.Storage.{State, Volume}
use block_storage_api.Fsm.{Event}
use block_storage_api.Fsm.Graph.{edge}
use block_storage_api.Repository.InMemory.{InMemoryRepository, load_volume}
use block_storage_api.Application.World.{
  Application, World, Action, Task, Operation, RetryPolicy, ◌>>=◌,
}
use block_storage_api.Application.Operations.{task_of, success_of, post_success_of}
use block_storage_api.Application.Retry.{
  Flow, stop, again, call, run_operation, load_again, succeed, apply_if_some, give_up, back_off,
  next_wait, fail_attempt, round, attempts, run_with_retry,
}
use block_storage_api.Application.Local.{Setting, local, stamped, fired, apply_event-fired}
use block_storage_api.Application.Local.Methods.{lookup-insert_self}

-- The state in which the goroutine of an operation works, the states to which a failed call and its
-- success lead, and the node that the row is left with.
abbrev pub working : Operation → State
working (Operation.create_volume _ _) = State.creating
working (Operation.delete_volume _) = State.deleting
working (Operation.attach_volume _ _) = State.attaching
working (Operation.detach_volume _) = State.detaching

abbrev pub failed : Operation → State
failed (Operation.create_volume _ _) = State.creating_failed
failed (Operation.delete_volume _) = State.deleting_failed
failed (Operation.attach_volume _ _) = State.attaching_failed
failed (Operation.detach_volume _) = State.detaching_failed

abbrev pub finished : Operation → State
finished (Operation.create_volume _ _) = State.available
finished (Operation.delete_volume _) = State.deleted
finished (Operation.attach_volume _ _) = State.attached
finished (Operation.detach_volume _) = State.available

abbrev pub node_after : Operation → String → String
node_after (Operation.detach_volume _) node_id = ""
node_after _ node_id = node_id

pub error_edge : (o : Operation) → edge (working o) Event.error ≡ some (failed o)
error_edge (Operation.create_volume _ _) = refl
error_edge (Operation.delete_volume _) = refl
error_edge (Operation.attach_volume _ _) = refl
error_edge (Operation.detach_volume _) = refl

pub retry_edge : (o : Operation) → edge (failed o) Event.retry ≡ some (working o)
retry_edge (Operation.create_volume _ _) = refl
retry_edge (Operation.delete_volume _) = refl
retry_edge (Operation.attach_volume _ _) = refl
retry_edge (Operation.detach_volume _) = refl

pub fail_edge : (o : Operation) → edge (failed o) Event.fail ≡ some State.error
fail_edge (Operation.create_volume _ _) = refl
fail_edge (Operation.delete_volume _) = refl
fail_edge (Operation.attach_volume _ _) = refl
fail_edge (Operation.detach_volume _) = refl

pub success_edge : (o : Operation) → edge (working o) (success_of o) ≡ some (finished o)
success_edge (Operation.create_volume _ _) = refl
success_edge (Operation.delete_volume _) = refl
success_edge (Operation.attach_volume _ _) = refl
success_edge (Operation.detach_volume _) = refl

-- `post_success` of an operation changes the node alone.
pub post_success_lem :
    (o : Operation) (v : Volume)
    → post_success_of o v ≡ record v { node_id = node_after o v.node_id }
post_success_lem (Operation.create_volume _ _) v = refl
post_success_lem (Operation.delete_volume _) v = refl
post_success_lem (Operation.attach_volume _ _) v = refl
post_success_lem (Operation.detach_volume _) v = refl

module _ {B M : Type 0} (s : Setting B M) where
  abbrev pub LocalWorld : Type 0
  LocalWorld = World InMemoryRepository B

  -- The world in which a call of the backend has failed, with `b` for its new state.
  abbrev pub called : B → LocalWorld → LocalWorld
  called b w = record w { storage = b; done_after = none }

  abbrev pub waited : ℕ → LocalWorld → LocalWorld
  waited wait w = record w { waits = w.waits ++ wait ∷ []; done_after = none }

  -- A failed attempt that is followed by another: error, back-off, retry.
  abbrev pub retried : Volume → State → State → ℕ → B → LocalWorld → LocalWorld
  retried v failed working wait b w =
      let w₁ = called b w in
      let w₂ = waited wait (fired s v Event.error failed w₁) in
      fired s (stamped s v failed w₁) Event.retry working w₂

  -- The row that it leaves.
  abbrev pub again_row : Volume → State → ℕ → B → LocalWorld → Volume
  again_row v failed wait b w =
      let w₁ = called b w in
      stamped s (stamped s v failed w₁) v.state (waited wait (fired s v Event.error failed w₁))

  pub round-again :
      (t : Task) (v : Volume) (failed : State) (bound attempt wait : ℕ) (e : Error) (b : B)
      (w : LocalWorld)
      → t.name ≡ v.name
      → lookup v.name w.db.volumes ≡ some v
      → edge v.state Event.error ≡ some failed
      → edge failed Event.retry ≡ some v.state
      → w.done_after ≡ none
      → call (local s) t.operation w.storage ≡ (err e, b)
      → eqb attempt bound ≡ false
      → round (local s) t bound attempt wait w
        ≡ (ok (again (next_wait s.policy wait)), retried v failed v.state wait b w)
  unfolding round ◌>>=◌ run_operation fail_attempt load_again load_volume back_off apply_if_some
  round-again t v failed bound attempt wait e b w n h a r live c more =
      let w₁ = called b w in
      let v₁ = stamped s v failed w₁ in
      let w₂ = waited wait (fired s v Event.error failed w₁) in
      ground (
        arith,
        apply_event-fired s v v Event.error failed w₁ a h,
        lookup-insert_self v₁ w.db.volumes,
        apply_event-fired s v₁ v₁ Event.retry v.state w₂ r (lookup-insert_self v₁ w.db.volumes),
      )

  pub round-stop :
      (t : Task) (v v' : Volume) (done : State) (bound attempt wait : ℕ) (b : B) (w : LocalWorld)
      → t.name ≡ v.name
      → lookup v.name w.db.volumes ≡ some v
      → t.post_success v ≡ v'
      → v'.name ≡ v.name
      → edge v'.state t.success_event ≡ some done
      → w.done_after ≡ none
      → call (local s) t.operation w.storage ≡ (ok tt, b)
      → round (local s) t bound attempt wait w
        ≡ (ok stop, fired s v' t.success_event done (called b w))
  unfolding round ◌>>=◌ run_operation succeed load_again load_volume
  round-stop t v v' done bound attempt wait b w n h p n' a live c = ground (
    arith,
    apply_event-fired s v' v t.success_event done (called b w) a
        (ap (λ x. lookup x w.db.volumes) n' ∙ h),
  )

  -- The last failed attempt: error, fail.
  abbrev pub exhausted : Volume → State → B → LocalWorld → LocalWorld
  exhausted v failed b w =
      let w₁ = called b w in
      fired s (stamped s v failed w₁) Event.fail State.error (fired s v Event.error failed w₁)

  pub round-exhausted :
      (t : Task) (v : Volume) (failed : State) (bound attempt wait : ℕ) (e : Error) (b : B)
      (w : LocalWorld)
      → t.name ≡ v.name
      → lookup v.name w.db.volumes ≡ some v
      → edge v.state Event.error ≡ some failed
      → edge failed Event.fail ≡ some State.error
      → w.done_after ≡ none
      → call (local s) t.operation w.storage ≡ (err e, b)
      → eqb attempt bound ≡ true
      → round (local s) t bound attempt wait w ≡ (ok stop, exhausted v failed b w)
  unfolding round ◌>>=◌ run_operation fail_attempt load_again load_volume give_up apply_if_some
  round-exhausted t v failed bound attempt wait e b w n h a r live c last =
      let w₁ = called b w in
      let v₁ = stamped s v failed w₁ in
      ground (
        arith,
        apply_event-fired s v v Event.error failed w₁ a h,
        lookup-insert_self v₁ w.db.volumes,
        apply_event-fired s v₁ v₁ Event.fail State.error (fired s v Event.error failed w₁) r
            (lookup-insert_self v₁ w.db.volumes),
      )
