-- ===== src/Application/Retry.antt =====
-- `runWithRetry` of volume/application.go.
use block_storage_api.Prelude.{
  ℕ, zero, suc, ◌+◌, String, Option, none, some, pos_part, eqb, ltb, if◌then◌else◌,
}
use block_storage_api.Errors.{Result, ok, err, Outcome, external}
use block_storage_api.Storage.{Volume}
use block_storage_api.Fsm.{Event}
use block_storage_api.Application.World.{
  Application, World, Action, Task, RetryPolicy, Operation, ◌>>=◌, ◌>>◌, pure, or_raise, catch,
  on_db, on_backend, context_done, sleep,
}
use block_storage_api.Application.Operations.{apply_event}

-- How a round of the loop ends: the goroutine returns, or it goes on with a new wait.
pub data Flow : Type 0 where
  stop : Flow
  again : ℕ → Flow

-- The next back-off, with its ceiling.
unfoldable pub next_wait : RetryPolicy → ℕ → ℕ
next_wait policy wait =
    let scaled = policy.scale wait in if ltb policy.max_wait scaled then policy.max_wait else scaled

-- `_, bErr := …; return bErr`
abbrev pub forget : {A : Type 0} → Result A → Outcome
forget (ok _) = ok tt
forget (err e) = err e

-- `v, _ = a.db.LoadVolume(…)`: with an error the pointer is nil.
abbrev pub or_nil : Result (Option Volume) → Option Volume
or_nil (ok v) = v
or_nil (err _) = none

module _ {D B M : Type 0} (app : Application D B M) where
  -- The call of the backend that the closure `op` makes.
  unfoldable pub call : Operation → B → Outcome × B
  call (Operation.create_volume name size_mb) b =
      let (r, b') = app.backend.create_volume name size_mb b in (forget r, b')
  call (Operation.delete_volume name) b = app.backend.delete_volume name b
  call (Operation.attach_volume name node_id) b = app.backend.attach_volume name node_id b
  call (Operation.detach_volume name) b = app.backend.detach_volume name b

  unfoldable pub run_operation : Operation → Action D B (Unit {0})
  run_operation o = on_backend (call o)

  -- An error of these actions is logged, and the goroutine returns.
  unfoldable pub load_again : String → Action D B Volume
  load_again name = do
    v ← on_db (app.database.load_volume name)
    or_raise v (external "cannot load volume")

  unfoldable pub succeed : Task → Action D B Flow
  succeed t = do
    v ← load_again t.name
    v' ← apply_event app (t.post_success v) t.success_event
    pure stop

  unfoldable pub apply_if_some : Option Volume → Event → Action D B (Unit {0})
  apply_if_some none e = pure tt
  apply_if_some (some v) e = do v' ← apply_event app v e; pure tt

  unfoldable pub give_up : Task → Action D B Flow
  give_up t = do
    r ← catch (on_db (app.database.load_volume t.name))
    apply_if_some (or_nil r) Event.fail
    pure stop

  unfoldable pub back_off : Task → ℕ → Action D B Flow
  back_off t wait = do
    finished ← context_done
    if finished then pure stop else do
      sleep wait
      r ← catch (on_db (app.database.load_volume t.name))
      apply_if_some (or_nil r) Event.retry
      pure (again (next_wait app.policy wait))

  unfoldable pub fail_attempt : Task → ℕ → ℕ → ℕ → Action D B Flow
  fail_attempt t bound attempt wait = do
    v ← load_again t.name
    v' ← apply_event app v Event.error
    if eqb attempt bound then give_up t else back_off t wait

  abbrev pub outcome : Task → ℕ → ℕ → ℕ → Outcome → Action D B Flow
  outcome t bound attempt wait (ok _) = succeed t
  outcome t bound attempt wait (err _) = fail_attempt t bound attempt wait

  -- One round of the loop, `attempt` of `bound`.
  unfoldable pub round : Task → ℕ → ℕ → ℕ → Action D B Flow
  round t bound attempt wait = do
    finished ← context_done
    if finished
        then pure stop
        else do r ← catch (run_operation t.operation); outcome t bound attempt wait r

  -- An error ends the goroutine.
  abbrev pub after_round : (ℕ → World D B → World D B) → Result Flow × World D B → World D B
  after_round rest (ok stop, w) = w
  after_round rest (ok (again wait), w) = rest wait w
  after_round rest (err _, w) = w

  -- `for attempt := …; attempt <= bound; attempt++`, with `left` rounds to go.
  unfoldable pub attempts : Task → ℕ → ℕ → ℕ → ℕ → World D B → World D B
  attempts t bound zero attempt wait w = w
  attempts t bound (suc left) attempt wait w =
      after_round (attempts t bound left (attempt + 1)) (round t bound attempt wait w)

  -- No round is made if `MaxAttempts` is not positive.
  unfoldable pub run_with_retry : Task → World D B → World D B
  unfolding attempts
  run_with_retry t =
      let bound = pos_part app.policy.max_attempts in
      attempts t bound bound 1 app.policy.initial_wait
