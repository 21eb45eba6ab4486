-- ===== src/Feature/Lifecycle.antt =====
-- volume/factory.go: `NewVolumeFeature`.
pub mod Validation
use block_storage_api.Prelude.{
  ℕ, zero, ◌*◌, String, Bool, true, false, Option, none, some, ℤ, pos, ◌==◌, if◌then◌else◌,
}
use block_storage_api.Errors.{Result, Outcome, ok, err, external}
use block_storage_api.Storage.{VolumeBackend}
use block_storage_api.Fsm.{FsmLibrary}
use block_storage_api.Dependency.{DatabaseDependency}
use block_storage_api.Assertor
use block_storage_api.Assertor.{assert}
use block_storage_api.Application.World.{Application, World, RetryPolicy}
use block_storage_api.Feature.{ReconcilePolicy, reconcile_on_startup}

-- `DefaultRetryPolicy` of volume/fsm.go.
abbrev pub default_retry_policy : RetryPolicy
default_retry_policy = record {
  max_attempts = pos 3;
  initial_wait = 500_000_000;
  scale = λ wait. wait * 2;
  max_wait = 10_000_000_000;
}

-- Of an interface that the feature only hands on, whether it is nil.
pub record NewVolumeFeatureParams (D B M : Type 0) : Type 0 where
  pub logger : Bool
  pub backend : Option (VolumeBackend B)
  pub database : Option (DatabaseDependency D)
  pub tracer : Bool
  pub router : Bool
  pub retry_policy : RetryPolicy
  pub reconcile_policy : ReconcilePolicy

abbrev pub given : {A : Type 0} → Option A → Bool
given none = false
given (some _) = true

-- `if policy.MaxAttempts == 0`
abbrev pub default_policy : RetryPolicy → ℤ → RetryPolicy
default_policy policy (pos zero) = default_retry_policy
default_policy policy _ = policy

abbrev pub or_default : String → String → String
or_default text default = if text == "" then default else text

pub record VolumeFeature (D B M : Type 0) : Type 0 where
  pub app : Application D B M
  pub reconcile_policy : ReconcilePolicy

abbrev pub assertions : {D B M : Type 0} → NewVolumeFeatureParams D B M → Assertor.Assertor
assertions params = assert params.router "router is required" (
    assert params.tracer "tracer is required" (
      assert (given params.database) "database is required" (
        assert (given params.backend) "storage backend is required"
          (assert params.logger "logger is required" Assertor.new))))

module _ {D B M : Type 0} (fsm : FsmLibrary M) (clock : ℕ → ℕ) (uuids : ℕ → String) where
  -- `newApplication` of volume/application.go; its broker, its wait group and its context are parts of
  -- the world.
  abbrev pub new_application :
      VolumeBackend B → DatabaseDependency D → RetryPolicy → Application D B M
  new_application backend database policy = record {
    database = database;
    backend = backend;
    policy = policy;
    fsm = fsm;
    clock = clock;
    uuids = uuids;
  }

  abbrev wire :
      NewVolumeFeatureParams D B M → VolumeBackend B → DatabaseDependency D → VolumeFeature D B M
  wire params backend database = record {
    app =
        new_application backend database
          (default_policy params.retry_policy params.retry_policy.max_attempts);
    reconcile_policy = record {
      db_only = or_default params.reconcile_policy.db_only "error";
      ceph_only = or_default params.reconcile_policy.ceph_only "ignore";
    };
  }

  -- The pointers that the assertions have found not to be nil.
  abbrev pub wire_given :
      NewVolumeFeatureParams D B M
      → Option (VolumeBackend B)
      → Option (DatabaseDependency D)
      → Result (VolumeFeature D B M)
  wire_given params (some backend) (some database) = ok (wire params backend database)
  wire_given params _ _ = err (external "nil pointer")

  abbrev pub after_validation :
      NewVolumeFeatureParams D B M → Outcome → Result (VolumeFeature D B M)
  after_validation params (ok _) = wire_given params params.backend params.database
  after_validation params (err e) = err e

  unfoldable pub new_volume_feature : NewVolumeFeatureParams D B M → Result (VolumeFeature D B M)
  unfolding assert Assertor.validate
  new_volume_feature params = after_validation params (Assertor.validate (assertions params))

-- The goroutine that `NewVolumeFeature` starts.
unfoldable pub startup : {D B M : Type 0} → VolumeFeature D B M → World D B → World D B
startup feature w = (reconcile_on_startup feature.app feature.reconcile_policy w).1
