-- ===== src/Process.antt =====
-- cmd/api/setup.go and cmd/api/main.go: the resources of the process, opened in order and closed in
-- reverse. The logger is left out, and `os.Exit` is the result of the program.
pub mod Registry
pub mod Steps
pub mod Shutdown
use block_storage_api.Prelude.{
  ℕ, String, Bool, true, false, Option, none, some, List, [], ◌∷◌, ◌++◌, ◌==◌, if◌then◌else◌,
  pos_part,
}
use block_storage_api.Errors.{Error, Result, Outcome, ok, err, external, wrap}
use block_storage_api.Storage.{VolumeBackend}
use block_storage_api.Fsm.{FsmLibrary}
use block_storage_api.Dependency.{DatabaseDependency}
use block_storage_api.Application.World.{RetryPolicy}
use block_storage_api.Config.{Config, RetrySettings}
use block_storage_api.Feature.Lifecycle.{NewVolumeFeatureParams, VolumeFeature, new_volume_feature}
use block_storage_api.Process.Registry.{
  Resource, Served, signalled, failed, Outside, ResourcesRegistry, Step, empty_registry,
  open_resource, then_step, with_config, tracer_provider, meter_provider, pool, storage_backend,
  http_server, volume_feature,
}
use block_storage_api.Process.Steps.{
  setup_config, connect, run_migrations, setup_observability, setup_database, setup_migrations,
  setup_backend, setup_http, setup_volume_feature,
}

module _ {F D B M : Type 0} (outside : Outside F D B M) where
  -- `fmt.Errorf("setup %s: %w", s.desc, err)`
  abbrev pub described :
      String → Outcome × ResourcesRegistry F D B M → Outcome × ResourcesRegistry F D B M
  described desc (ok _, rr) = (ok tt, rr)
  described desc (err e, rr) = (err (wrap desc e), rr)

  unfoldable pub run_steps : List ((Step F D B M) × String) → Step F D B M
  run_steps [] rr = (ok tt, rr)
  run_steps ((step, desc) ∷ steps) rr = then_step (described desc (step rr)) (run_steps steps)

  -- The step of the logger always succeeds and changes nothing that is kept here.
  abbrev pub steps : List ((Step F D B M) × String)
  steps =
      (setup_config outside, "setup configuration")
      ∷ ((λ rr. (ok tt, rr)), "setup logger")
      ∷ (setup_observability outside, "setup observability (otel)")
      ∷ (setup_database outside, "setup database (postgresql)")
      ∷ (setup_migrations outside, "setup migrations")
      ∷ (setup_backend outside, "setup storage backend")
      ∷ (setup_http outside, "setup http server")
      ∷ (setup_volume_feature outside, "setup volume feature")
      ∷ []

  unfoldable pub setup : Step F D B M
  unfolding run_steps setup_config setup_observability setup_database setup_migrations setup_backend
      setup_http setup_volume_feature
  setup rr = run_steps steps rr

  abbrev logged : Outcome → List Error → List Error
  logged (ok _) log = log
  logged (err e) log = log ++ e ∷ []

  abbrev pub close_resource : Resource → ResourcesRegistry F D B M → ResourcesRegistry F D B M
  close_resource r rr = record rr {
    closed = rr.closed ++ r ∷ [];
    log = logged (outside.close r) rr.log;
  }

  -- `for _, closer := range slices.Backward(rr.closers)`
  unfoldable pub close_backward :
      List Resource → ResourcesRegistry F D B M → ResourcesRegistry F D B M
  close_backward [] rr = rr
  close_backward (r ∷ rs) rr = close_resource r (close_backward rs rr)

  -- The exit code.
  abbrev pub exit_code : Outcome → ℕ
  exit_code (ok _) = 0
  exit_code (err _) = 1

  unfoldable pub shutdown : Outcome → ResourcesRegistry F D B M → ℕ × ResourcesRegistry F D B M
  unfolding close_backward
  shutdown app_err rr = (exit_code app_err, close_backward rr.closers rr)

  -- The error of the server is logged.
  abbrev pub serve : Served → ResourcesRegistry F D B M → ResourcesRegistry F D B M
  serve signalled rr = rr
  serve (failed e) rr = record rr { log = rr.log ++ e ∷ [] }

  abbrev pub after_setup : Outcome × ResourcesRegistry F D B M → ℕ × ResourcesRegistry F D B M
  after_setup (err e, rr) = shutdown (err e) rr
  after_setup (ok _, rr) = shutdown (ok tt) (serve outside.served rr)

  unfoldable pub main : ℕ × ResourcesRegistry F D B M
  unfolding setup shutdown
  main = after_setup (setup empty_registry)
