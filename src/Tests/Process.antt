-- ===== src/Tests/Process.antt =====
-- A process of which everything succeeds, over the repository in memory and the mock, and its feature.
use block_storage_api.Prelude.{ℕ, ◌≡◌, refl, true, false, none, some}
use block_storage_api.Errors.{ok, err, external}
use block_storage_api.Storage.Mock.{MockBackend}
use block_storage_api.Repository.InMemory.{InMemoryRepository, in_memory}
use block_storage_api.Feature.Lifecycle.{
  NewVolumeFeatureParams, new_volume_feature, default_retry_policy,
}
use block_storage_api.Feature.Lifecycle.Validation.{Wired, missing, new_volume_feature-Wired}
use block_storage_api.Process.Registry.{Outside, empty_registry, failed}
use block_storage_api.Process.{setup, main}
use block_storage_api.Process.Steps.{new_tracer_provider, new_meter_provider}
use block_storage_api.Process.Shutdown.{Cleared, all_resources, main-Cleared, main_lem}
use block_storage_api.Tests.Fixtures.{Machine, table_fsm, clock, uuids, setting}
use block_storage_api.Tests.Configuration.{defaults}

-- The server fails in the end.
abbrev outside : Outside ℕ InMemoryRepository MockBackend Machine
outside = record {
  load = ok defaults;
  new_resource = λ service. ok tt;
  otlp_trace_exporter = λ endpoint. ok tt;
  stdout_trace_exporter = ok tt;
  stdout_metric_exporter = ok tt;
  new_pool = λ url. ok tt;
  ping = ok tt;
  new_migrate = λ url. ok tt;
  migrate_up = ok tt;
  is_no_change = λ e. false;
  in_memory = in_memory;
  postgres = in_memory;
  mock = setting.backend;
  ceph = λ c. err (external "ceph backend requires -tags ceph");
  scale = λ tenths wait. wait;
  fsm = table_fsm;
  clock = clock;
  uuids = uuids;
  close = λ r. ok tt;
  served = failed (external "address already in use");
}

main-Cleared_example : Cleared outside (setup outside empty_registry).0 (main outside)
main-Cleared_example = main-Cleared outside

main_lem_example : ((main outside).0 ≡ 0) × ((main outside).1.closed ≡ all_resources outside true)
unfolding new_tracer_provider new_meter_provider
main_lem_example = main_lem outside defaults setting.backend refl refl refl refl refl refl refl refl

-- Neither a database nor a router.
abbrev params : NewVolumeFeatureParams InMemoryRepository MockBackend Machine
params = record {
  logger = true;
  backend = some setting.backend;
  database = none;
  tracer = true;
  router = false;
  retry_policy = default_retry_policy;
  reconcile_policy = record { db_only = ""; ceph_only = "" };
}

new_volume_feature-Wired_example :
    Wired params (missing params) (new_volume_feature table_fsm clock uuids params)
new_volume_feature-Wired_example = new_volume_feature-Wired table_fsm clock uuids params
