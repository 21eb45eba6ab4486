-- ===== src/Application/Operations.antt =====
-- The methods of `application` that a request calls.
use block_storage_api.Prelude.{
  ℕ, String, Bool, true, false, Option, none, some, List, ℤ, is_not_positive, ite, not, ◌==◌,
}
use block_storage_api.Errors.{
  sentinel, wrap, detail, annotate, volume_not_found, volume_exists, invalid_transition,
  invalid_size, backend_unavailable,
}
use block_storage_api.Storage.{State, State-discrete, Volume}
use block_storage_api.Fsm.{Event, can_transition, transition}
use block_storage_api.Broker
use block_storage_api.Application.World.{
  Application, Action, Task, Operation, ◌>>=◌, ◌>>◌, pure, lift, refuse_if, or_raise, map_error,
  attempt, on_db, on_backend, on_broker, modify_broker, spawn, time_now, new_uuid,
}

abbrev pub is_some {ℓ} : {A : Type ℓ} → Option A → Bool
is_some none = false
is_some (some _) = true

abbrev pub no_change : Volume → Volume
no_change v = v

-- `func(v *storage.Volume) { v.NodeID = "" }`
abbrev pub clear_node : Volume → Volume
clear_node v = record v { node_id = "" }

-- The goroutine that each method starts for its call of the backend: the name it works on, the
-- event that it fires on success, and what it does to the row before that.
abbrev pub name_of : Operation → String
name_of (Operation.create_volume name _) = name
name_of (Operation.delete_volume name) = name
name_of (Operation.attach_volume name _) = name
name_of (Operation.detach_volume name) = name

abbrev pub success_of : Operation → Event
success_of (Operation.create_volume _ _) = Event.ready
success_of (Operation.delete_volume _) = Event.deleted
success_of (Operation.attach_volume _ _) = Event.attached
success_of (Operation.detach_volume _) = Event.detached

abbrev pub post_success_of : Operation → Volume → Volume
post_success_of (Operation.detach_volume _) v = clear_node v
post_success_of _ v = no_change v

abbrev pub task_of : Operation → Task
task_of o = record {
  name = name_of o;
  operation = o;
  success_event = success_of o;
  post_success = post_success_of o;
}

-- What `ReconcileVolume` makes of a volume, by what the backend holds under its name.
abbrev align_attached : Volume → Volume → Bool → Volume
align_attached v real true = record v { state = State.available; node_id = "" }
align_attached v real false = record v { state = State.attached; node_id = real.node_id }

unfoldable pub align : Volume → Option Volume → Volume
align v none = record v { state = State.pending; node_id = "" }
align v (some real) = align_attached v real (real.node_id == "")

-- `s != t`
abbrev pub is_other_state : State → State → Bool
is_other_state s t = ite (State-discrete s t) false true

module _ {D B M : Type 0} (app : Application D B M) where
  unfoldable pub load_or_not_found : String → Action D B Volume
  load_or_not_found name = do
    v ← map_error (wrap "load volume") (on_db (app.database.load_volume name))
    or_raise v (detail (sentinel volume_not_found) name)

  -- Where the source changes `*v`, the new volume is the result.
  unfoldable pub apply_event : Volume → Event → Action D B Volume
  apply_event v event = do
    refuse_if (not (can_transition app.fsm v.state event))
        (detail (sentinel invalid_transition) "cannot")
    new_state ← lift (transition app.fsm v.state event)
    now ← time_now app.clock
    let v' = record v { state = new_state; updated_at = now }
    map_error (wrap "persist state") (on_db (app.database.update_volume v'))
    attempt (
        on_db (
          app.database.save_event (record {
            volume_id = v.id;
            event = event;
            from_state = v.state;
            to_state = new_state;
          })))
    stamp ← time_now app.clock
    modify_broker (
        Broker.publish v.name
          (record { name = v.name; state = new_state; event = event; timestamp = stamp }))
    pure v'

  -- `*storage.Volume` as `CreateVolume` first saves it.
  abbrev pub new_volume : String → ℤ → ℕ → String → Volume
  new_volume name size_mb now id = record {
    id = id;
    name = name;
    size_mb = size_mb;
    state = State.pending;
    backend = app.backend.backend_name;
    node_id = "";
    created_at = now;
    updated_at = now;
  }

  unfoldable pub create_volume : String → ℤ → Action D B Volume
  create_volume name size_mb = do
    refuse_if (is_not_positive size_mb) (sentinel invalid_size)
    existing ← map_error (wrap "check existing volume") (on_db (app.database.load_volume name))
    refuse_if (is_some existing) (detail (sentinel volume_exists) name)
    now ← time_now app.clock
    id ← new_uuid app.uuids
    let v = new_volume name size_mb now id
    map_error (wrap "save volume") (on_db (app.database.save_volume v))
    v' ← apply_event v Event.create
    spawn (task_of (Operation.create_volume name size_mb))
    pure v'

  unfoldable pub delete_volume : String → Action D B (Unit {0})
  delete_volume name = do
    v ← load_or_not_found name
    v' ← apply_event v Event.delete
    spawn (task_of (Operation.delete_volume v'.name))

  unfoldable pub list_volumes : Action D B (List Volume)
  list_volumes = on_db app.database.list_volumes

  unfoldable pub get_volume : String → Action D B Volume
  get_volume name = load_or_not_found name

  unfoldable pub attach_volume : String → String → Action D B (Unit {0})
  attach_volume name node_id = do
    v ← load_or_not_found name
    let v₁ = record v { node_id = node_id }
    map_error (wrap "set node_id") (on_db (app.database.update_volume v₁))
    v₂ ← apply_event v₁ Event.attach
    spawn (task_of (Operation.attach_volume v₂.name node_id))

  unfoldable pub detach_volume : String → Action D B (Unit {0})
  detach_volume name = do
    v ← load_or_not_found name
    v' ← apply_event v Event.detach
    spawn (task_of (Operation.detach_volume v'.name))

  unfoldable pub reconcile_volume : String → Action D B Volume
  unfolding align
  reconcile_volume name = do
    v ← load_or_not_found name
    refuse_if (is_other_state v.state State.error)
        (detail (sentinel invalid_transition) "reconcile requires error state")
    real ←
        map_error (annotate (sentinel backend_unavailable))
          (on_backend (app.backend.get_volume v.name))
    now ← time_now app.clock
    let v' = record (align v real) { updated_at = now }
    map_error (wrap "persist reconciled state") (on_db (app.database.update_volume v'))
    attempt (
        on_db (
          app.database.save_event (record {
            volume_id = v'.id;
            event = Event.reconcile;
            from_state = v.state;
            to_state = v'.state;
          })))
    pure v'

  unfoldable pub health_check : Action D B (Unit {0})
  health_check = on_backend app.backend.health_check

  unfoldable pub subscribe : String → Action D B ℕ
  subscribe name = do v ← load_or_not_found name; on_broker (Broker.subscribe name)

  unfoldable pub unsubscribe : String → ℕ → Action D B (Unit {0})
  unsubscribe name c = modify_broker (Broker.unsubscribe name c)
