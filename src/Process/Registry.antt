-- ===== src/Process/Registry.antt =====
-- `ResourcesRegistry` of cmd/api/setup.go, and what its steps have in common.
use block_storage_api.Prelude.{ℕ, String, Bool, false, Option, none, some, List, [], ◌∷◌, ◌++◌}
use block_storage_api.Errors.{Error, Result, Outcome, ok, err, external}
use block_storage_api.Storage.{VolumeBackend}
use block_storage_api.Fsm.{FsmLibrary}
use block_storage_api.Dependency.{DatabaseDependency}
use block_storage_api.Config.{Config}
use block_storage_api.Feature.Lifecycle.{VolumeFeature}

-- What is put on `rr.closers`.
pub data Resource : Type 0 where
  tracer_provider meter_provider pool storage_backend http_server volume_feature : Resource

-- Why the server's select ends.
pub data Served : Type 0 where
  signalled : Served
  failed : Error → Served

-- What the packages return that the process calls, by the configuration where they are given a part
-- of it: `new_resource` to `stdout_metric_exporter` stand for OpenTelemetry.
pub record Outside (F D B M : Type 0) : Type 0 where
  pub load : Result (Config F)
  pub new_resource : String → Outcome
  pub otlp_trace_exporter : String → Outcome
  pub stdout_trace_exporter : Outcome
  pub stdout_metric_exporter : Outcome
  pub new_pool : String → Outcome
  pub ping : Outcome
  pub new_migrate : String → Outcome
  pub migrate_up : Outcome
  pub is_no_change : Error → Bool
  pub in_memory : DatabaseDependency D
  pub postgres : DatabaseDependency D
  pub mock : VolumeBackend B
  pub ceph : Config F → Result (VolumeBackend B)
  pub scale : F → ℕ → ℕ
  pub fsm : FsmLibrary M
  pub clock : ℕ → ℕ
  pub uuids : ℕ → String
  pub close : Resource → Outcome
  pub served : Served

-- `opened` records what a step has built, `closed` what `Shutdown` has called `Close` on, and `log` the
-- errors that it has logged.
pub record ResourcesRegistry (F D B M : Type 0) : Type 0 where
  pub config : Option (Config F)
  pub tracer : Bool
  pub pool : Bool
  pub repo : Option (DatabaseDependency D)
  pub backend : Option (VolumeBackend B)
  pub router : Bool
  pub feature : Option (VolumeFeature D B M)
  pub closers : List Resource
  pub opened : List Resource
  pub closed : List Resource
  pub log : List Error

abbrev pub Step : Type 0 → Type 0 → Type 0 → Type 0 → Type 0
Step F D B M = ResourcesRegistry F D B M → Outcome × ResourcesRegistry F D B M

module _ {F D B M : Type 0} where
  abbrev pub empty_registry : ResourcesRegistry F D B M
  empty_registry = record {
    config = none;
    tracer = false;
    pool = false;
    repo = none;
    backend = none;
    router = false;
    feature = none;
    closers = [];
    opened = [];
    closed = [];
    log = [];
  }

  -- A resource is built, and then put on the closers.
  abbrev pub open_resource : Resource → ResourcesRegistry F D B M → ResourcesRegistry F D B M
  open_resource r rr = record rr { opened = rr.opened ++ r ∷ []; closers = rr.closers ++ r ∷ [] }

  abbrev pub then_step :
      Outcome × ResourcesRegistry F D B M → Step F D B M → Outcome × ResourcesRegistry F D B M
  then_step (ok _, rr) next = next rr
  then_step (err e, rr) next = (err e, rr)

  -- `rr.config` is set by the first step.
  abbrev pub with_config :
      Option (Config F)
      → (Config F → Step F D B M)
      → ResourcesRegistry F D B M
      → Outcome × ResourcesRegistry F D B M
  with_config none f rr = (err (external "nil pointer"), rr)
  with_config (some c) f rr = f c rr
