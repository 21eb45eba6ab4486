-- ===== src/Feature.antt =====
-- volume/factory.go: the reconciliation at startup. The goroutines that it starts work on rows of
-- different names and are run one after the other here, in the order of the lists.
pub mod Lifecycle
pub mod Effects
pub mod Storage
pub mod Rows
pub mod Imports
pub mod Startup
pub mod Verdict
use block_storage_api.Prelude.{String, Option, none, some, List, [], ◌∷◌, ◌==◌, if◌then◌else◌}
use block_storage_api.Errors.{Result, ok, err}
use block_storage_api.Storage.{State, Volume}
use block_storage_api.Fsm.{Event, can_transition}
use block_storage_api.Application.World.{
  Application, Action, ◌>>=◌, ◌>>◌, pure, catch, attempt, on_db, on_backend, time_now, new_uuid,
}
use block_storage_api.Application.Operations.{apply_event}
use block_storage_api.Application.Retry.{or_nil}

-- `ReconcilePolicy` of config/config.go.
pub record ReconcilePolicy : Type 0 where
  pub db_only : String
  pub ceph_only : String

abbrev pub transitional : List State
transitional =
    State.creating ∷ State.attaching ∷ State.detaching ∷ State.deleting ∷ State.creating_failed
    ∷ State.attaching_failed ∷ State.detaching_failed ∷ State.deleting_failed ∷ []

-- The state of a row whose volume exists in the backend.
abbrev pub target_state : State → State
target_state State.deleting = State.error
target_state State.deleting_failed = State.error
target_state _ = State.available

module _ {D B M : Type 0} (app : Application D B M) where
  -- `v, _ := f.app.db.LoadVolume(ctx, name)`
  unfoldable pub load_or_nil : String → Action D B (Option Volume)
  load_or_nil name = do r ← catch (on_db (app.database.load_volume name)); pure (or_nil r)

  -- If the row is still in progress, the event error comes first.
  unfoldable pub error_first : String → Volume → Action D B (Option Volume)
  error_first name v =
      if can_transition app.fsm v.state Event.error
      then (attempt (apply_event app v Event.error) >> load_or_nil name)
      else pure (some v)

  unfoldable pub then_fail : Option Volume → Action D B (Unit {0})
  then_fail none = pure tt
  then_fail (some v) =
      if can_transition app.fsm v.state Event.fail
      then attempt (apply_event app v Event.fail)
      else pure tt

  unfoldable pub push_to_error : String → Option Volume → Action D B (Unit {0})
  push_to_error name none = pure tt
  push_to_error name (some v) = do v' ← error_first name v; then_fail v'

  unfoldable pub reconcile_to_error : String → Action D B (Unit {0})
  reconcile_to_error name = do v ← load_or_nil name; push_to_error name v

  -- The volume is absent from the backend.
  unfoldable pub apply_db_only : ReconcilePolicy → Volume → Action D B (Unit {0})
  apply_db_only policy vol =
      if policy.db_only == "delete"
      then attempt (on_db (app.database.delete_volume vol.name))
      else if policy.db_only == "ignore"
      then pure tt
      else reconcile_to_error vol.name

  -- `fresh` with the target state and the node of the backend.
  unfoldable pub realign : State → State → Volume → Option Volume → Action D B (Unit {0})
  realign from_state target real none = pure tt
  realign from_state target real (some fresh) = do
    now ← time_now app.clock
    let v = record fresh { state = target; node_id = real.node_id; updated_at = now }
    attempt (on_db (app.database.update_volume v))
    attempt (
        on_db (
          app.database.save_event (record {
            volume_id = fresh.id;
            event = Event.reconcile;
            from_state = from_state;
            to_state = target;
          })))

  -- The volume exists in the backend.
  unfoldable pub align_row : Volume → Volume → State → Action D B (Unit {0})
  align_row vol real State.error = reconcile_to_error vol.name
  align_row vol real target = do fresh ← load_or_nil vol.name; realign vol.state target real fresh

  unfoldable pub by_answer :
      ReconcilePolicy → Volume → Result (Option Volume) → Action D B (Unit {0})
  by_answer policy vol (err _) = pure tt
  by_answer policy vol (ok none) = apply_db_only policy vol
  by_answer policy vol (ok (some real)) = align_row vol real (target_state vol.state)

  unfoldable pub reconcile_db_volume : ReconcilePolicy → Volume → Action D B (Unit {0})
  reconcile_db_volume policy vol = do
    real ← catch (on_backend (app.backend.get_volume vol.name))
    by_answer policy vol real

  -- A volume of the backend under a name that the database does not know.
  unfoldable pub import_unknown : Volume → Result (Option Volume) → Action D B (Unit {0})
  import_unknown bv (ok none) = do
    now ← time_now app.clock
    id ← new_uuid app.uuids
    attempt (
        on_db (
          app.database.save_volume (record {
            id = id;
            name = bv.name;
            size_mb = bv.size_mb;
            state = State.available;
            backend = app.backend.backend_name;
            node_id = "";
            created_at = now;
            updated_at = now;
          })))
  import_unknown bv _ = pure tt

  unfoldable pub import_volume : Volume → Action D B (Unit {0})
  import_volume bv = do
    existing ← catch (on_db (app.database.load_volume bv.name))
    import_unknown bv existing

  unfoldable pub for_each : (Volume → Action D B (Unit {0})) → List Volume → Action D B (Unit {0})
  for_each f [] = pure tt
  for_each f (v ∷ vs) = attempt (f v) >> for_each f vs

  unfoldable pub import_all : ReconcilePolicy → Action D B (Unit {0})
  import_all policy =
      if policy.ceph_only == "import"
      then (do bs ← on_backend app.backend.list_volumes; for_each import_volume bs)
      else pure tt

  -- An error of a list is logged, and the goroutine returns.
  unfoldable pub reconcile_on_startup : ReconcilePolicy → Action D B (Unit {0})
  reconcile_on_startup policy = do
    vs ← on_db (app.database.list_volumes_by_state transitional)
    for_each (reconcile_db_volume policy) vs
    import_all policy
