-- ===== src/Application/Interleaved/Programs.antt =====
-- The methods that a request calls, and `runWithRetry`, as programs.
use block_storage_api.Prelude.{
  ℕ, zero, suc, ◌+◌, String, Option, none, some, ℤ, is_not_positive, not, pos_part, eqb,
  if◌then◌else◌,
}
use block_storage_api.Errors.{
  ok, err, Outcome, external, sentinel, wrap, detail, annotate, volume_not_found, volume_exists,
  invalid_transition, invalid_size, backend_unavailable,
}
use block_storage_api.Storage.{State, Volume}
use block_storage_api.Fsm.{Event, can_transition, transition}
use block_storage_api.Broker
use block_storage_api.Application.World.{
  Application, Task, Operation, on_db, on_backend, on_broker, modify_broker, spawn, time_now,
  new_uuid, context_done, sleep,
}
use block_storage_api.Application.Operations.{is_some, is_other_state, align, new_volume, task_of}
use block_storage_api.Application.Retry.{Flow, stop, again, call, next_wait, or_nil}
use block_storage_api.Application.History.{Request}
use block_storage_api.Application.Interleaved.{
  Program, ended, atom, pure, refuse_if, or_raise, map_error, catch, attempt, ◌>>=◌, ◌>>◌,
}

module _ {D B M : Type 0} (app : Application D B M) where
  unfoldable pub load_or_not_found : String → Program D B Volume
  load_or_not_found name = do
    v ← map_error (wrap "load volume") (atom (on_db (app.database.load_volume name)))
    or_raise v (detail (sentinel volume_not_found) name)

  unfoldable pub apply_event : Volume → Event → Program D B Volume
  apply_event v event = do
    refuse_if (not (can_transition app.fsm v.state event))
        (detail (sentinel invalid_transition) "cannot")
    new_state ← ended (transition app.fsm v.state event)
    now ← atom (time_now app.clock)
    let v' = record v { state = new_state; updated_at = now }
    map_error (wrap "persist state") (atom (on_db (app.database.update_volume v')))
    attempt (
        atom (
          on_db (
            app.database.save_event (record {
              volume_id = v.id;
              event = event;
              from_state = v.state;
              to_state = new_state;
            }))))
    stamp ← atom (time_now app.clock)
    atom (
        modify_broker (
          Broker.publish v.name
            (record { name = v.name; state = new_state; event = event; timestamp = stamp })))
    pure v'

  unfoldable pub create_volume : String → ℤ → Program D B Volume
  create_volume name size_mb = do
    refuse_if (is_not_positive size_mb) (sentinel invalid_size)
    existing ←
        map_error (wrap "check existing volume") (atom (on_db (app.database.load_volume name)))
    refuse_if (is_some existing) (detail (sentinel volume_exists) name)
    now ← atom (time_now app.clock)
    id ← atom (new_uuid app.uuids)
    let v = new_volume app name size_mb now id
    map_error (wrap "save volume") (atom (on_db (app.database.save_volume v)))
    v' ← apply_event v Event.create
    atom (spawn (task_of (Operation.create_volume name size_mb)))
    pure v'

  unfoldable pub delete_volume : String → Program D B (Unit {0})
  delete_volume name = do
    v ← load_or_not_found name
    v' ← apply_event v Event.delete
    atom (spawn (task_of (Operation.delete_volume v'.name)))

  unfoldable pub attach_volume : String → String → Program D B (Unit {0})
  attach_volume name node_id = do
    v ← load_or_not_found name
    let v₁ = record v { node_id = node_id }
    map_error (wrap "set node_id") (atom (on_db (app.database.update_volume v₁)))
    v₂ ← apply_event v₁ Event.attach
    atom (spawn (task_of (Operation.attach_volume v₂.name node_id)))

  unfoldable pub detach_volume : String → Program D B (Unit {0})
  detach_volume name = do
    v ← load_or_not_found name
    v' ← apply_event v Event.detach
    atom (spawn (task_of (Operation.detach_volume v'.name)))

  unfoldable pub reconcile_volume : String → Program D B Volume
  unfolding align
  reconcile_volume name = do
    v ← load_or_not_found name
    refuse_if (is_other_state v.state State.error)
        (detail (sentinel invalid_transition) "reconcile requires error state")
    real ←
        map_error (annotate (sentinel backend_unavailable))
          (atom (on_backend (app.backend.get_volume v.name)))
    now ← atom (time_now app.clock)
    let v' = record (align v real) { updated_at = now }
    map_error (wrap "persist reconciled state") (atom (on_db (app.database.update_volume v')))
    attempt (
        atom (
          on_db (
            app.database.save_event (record {
              volume_id = v'.id;
              event = Event.reconcile;
              from_state = v.state;
              to_state = v'.state;
            }))))
    pure v'

  unfoldable pub subscribe : String → Program D B ℕ
  subscribe name = do v ← load_or_not_found name; atom (on_broker (Broker.subscribe name))

  -- The goroutine.
  unfoldable pub load_again : String → Program D B Volume
  load_again name = do
    v ← atom (on_db (app.database.load_volume name))
    or_raise v (external "cannot load volume")

  unfoldable pub succeed : Task → Program D B Flow
  succeed t = do
    v ← load_again t.name
    v' ← apply_event (t.post_success v) t.success_event
    pure stop

  unfoldable pub apply_if_some : Option Volume → Event → Program D B (Unit {0})
  apply_if_some none e = pure tt
  apply_if_some (some v) e = do v' ← apply_event v e; pure tt

  unfoldable pub give_up : Task → Program D B Flow
  give_up t = do
    r ← catch (atom (on_db (app.database.load_volume t.name)))
    apply_if_some (or_nil r) Event.fail
    pure stop

  unfoldable pub back_off : Task → ℕ → Program D B Flow
  back_off t wait = do
    finished ← atom context_done
    if finished then pure stop else do
      atom (sleep wait)
      r ← catch (atom (on_db (app.database.load_volume t.name)))
      apply_if_some (or_nil r) Event.retry
      pure (again (next_wait app.policy wait))

  unfoldable pub fail_attempt : Task → ℕ → ℕ → ℕ → Program D B Flow
  fail_attempt t bound attempt wait = do
    v ← load_again t.name
    v' ← apply_event v Event.error
    if eqb attempt bound then give_up t else back_off t wait

  abbrev pub outcome : Task → ℕ → ℕ → ℕ → Outcome → Program D B Flow
  outcome t bound attempt wait (ok _) = succeed t
  outcome t bound attempt wait (err _) = fail_attempt t bound attempt wait

  unfoldable pub round : Task → ℕ → ℕ → ℕ → Program D B Flow
  round t bound attempt wait = do
    finished ← atom context_done
    if finished
        then pure stop
        else do r ← catch (atom (on_backend (call app t.operation))); outcome t bound attempt wait r

  abbrev pub after_flow : (ℕ → Program D B (Unit {0})) → Flow → Program D B (Unit {0})
  after_flow rest stop = pure tt
  after_flow rest (again wait) = rest wait

  unfoldable pub attempts : Task → ℕ → ℕ → ℕ → ℕ → Program D B (Unit {0})
  attempts t bound zero attempt wait = pure tt
  attempts t bound (suc left) attempt wait = do
    flow ← round t bound attempt wait
    after_flow (attempts t bound left (attempt + 1)) flow

  unfoldable pub run_with_retry : Task → Program D B (Unit {0})
  unfolding attempts
  run_with_retry t =
      let bound = pos_part app.policy.max_attempts in
      attempts t bound bound 1 app.policy.initial_wait

  -- What becomes of the answer is the caller's.
  abbrev pub answered : {A : Type 0} → Program D B A → Program D B (Unit {0})
  answered p = do a ← p; pure tt

  -- The program of a request, or of the goroutine of an operation.
  unfoldable pub program : Request → Program D B (Unit {0})
  program (Request.create name size_mb) = answered (create_volume name size_mb)
  program (Request.delete name) = delete_volume name
  program (Request.get name) = answered (load_or_not_found name)
  program (Request.detach name) = detach_volume name
  program (Request.reconcile name) = answered (reconcile_volume name)
  program (Request.subscribe name) = answered (subscribe name)
  program (Request.attach name node_id) = attach_volume name node_id
  program Request.list = answered (atom (on_db app.database.list_volumes))
  program Request.health = atom (on_backend app.backend.health_check)
  program (Request.unsubscribe name ch) = atom (modify_broker (Broker.unsubscribe name ch))
  program (Request.goroutine o) = run_with_retry (task_of o)
