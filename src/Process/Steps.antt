-- ===== src/Process/Steps.antt =====
-- The steps of the setup in cmd/api/setup.go, with `Connect` and `RunMigrations` of internal/db
-- and the providers of internal/observability.
use block_storage_api.Prelude.{String, true, some, [], ◌∷◌, ◌++◌, ◌==◌, if◌then◌else◌, pos_part}
use block_storage_api.Errors.{Result, Outcome, ok, err, wrap}
use block_storage_api.Storage.{VolumeBackend}
use block_storage_api.Application.World.{RetryPolicy}
use block_storage_api.Config.{Config, RetrySettings}
use block_storage_api.Feature.Lifecycle.{NewVolumeFeatureParams, VolumeFeature, new_volume_feature}
use block_storage_api.Process.Registry.{
  Resource, Outside, ResourcesRegistry, Step, open_resource, then_step, with_config,
  tracer_provider, meter_provider, storage_backend, http_server, volume_feature,
}

module _ {F D B M : Type 0} (outside : Outside F D B M) where
  abbrev loaded : Result (Config F) → Step F D B M
  loaded (ok c) rr = (ok tt, record rr { config = some c })
  loaded (err e) rr = (err e, rr)

  unfoldable pub setup_config : Step F D B M
  setup_config rr = loaded outside.load rr

  abbrev or_wrapped : String → Outcome → Outcome → Outcome
  or_wrapped text (ok _) rest = rest
  or_wrapped text (err e) rest = err (wrap text e)

  -- `NewTracerProvider` of internal/observability/tracing.go. The providers that are made global are
  -- left out.
  unfoldable pub new_tracer_provider : Config F → Outcome
  new_tracer_provider c = or_wrapped "otel resource" (outside.new_resource c.otel_service_name) (
      if c.otel_exporter == "jaeger"
      then or_wrapped "otlp trace exporter" (outside.otlp_trace_exporter c.otel_jaeger_endpoint)
          (ok tt)
      else or_wrapped "stdout trace exporter" outside.stdout_trace_exporter (ok tt))

  -- `NewMeterProvider` of internal/observability/metrics.go.
  unfoldable pub new_meter_provider : Config F → Outcome
  new_meter_provider c =
      or_wrapped "otel resource" (outside.new_resource c.otel_service_name)
        (or_wrapped "stdout metric exporter" outside.stdout_metric_exporter (ok tt))

  abbrev traced : Outcome → Step F D B M
  traced (ok _) rr = (ok tt, open_resource tracer_provider (record rr { tracer = true }))
  traced (err e) rr = (err (wrap "tracer provider" e), rr)

  abbrev metered : Outcome → Step F D B M
  metered (ok _) rr = (ok tt, open_resource meter_provider rr)
  metered (err e) rr = (err (wrap "meter provider" e), rr)

  unfoldable pub setup_observability : Step F D B M
  unfolding new_tracer_provider new_meter_provider
  setup_observability rr =
      with_config rr.config
        (λ c rr. then_step (traced (new_tracer_provider c) rr) (metered (new_meter_provider c))) rr

  -- A pool that cannot be pinged is closed again.
  abbrev pub pinged : Outcome → Step F D B M
  pinged (ok _) rr = (ok tt, rr)
  pinged (err e) rr =
      (err (wrap "db ping" e), record rr { closed = rr.closed ++ Resource.pool ∷ [] })

  abbrev pub pooled : Outcome → Step F D B M
  pooled (ok _) rr = pinged outside.ping (record rr { opened = rr.opened ++ Resource.pool ∷ [] })
  pooled (err e) rr = (err (wrap "pgxpool.New" e), rr)

  -- `Connect` of internal/db/postgres.go.
  unfoldable pub connect : String → Step F D B M
  connect url rr = pooled (outside.new_pool url) rr

  abbrev pub connected : Outcome × ResourcesRegistry F D B M → Outcome × ResourcesRegistry F D B M
  connected (ok _, rr) = (
    ok tt,
    record rr {
      pool = true;
      repo = some outside.postgres;
      closers = rr.closers ++ Resource.pool ∷ [];
    },
  )
  connected (err e, rr) = (err e, rr)

  abbrev migrated : Outcome → Outcome
  migrated (ok _) = ok tt
  migrated (err e) = if outside.is_no_change e then ok tt else err (wrap "migrate.Up" e)

  abbrev with_migrate : Outcome → Outcome
  with_migrate (ok _) = migrated outside.migrate_up
  with_migrate (err e) = err (wrap "migrate.New" e)

  -- `RunMigrations` of internal/db/migrate.go. What closing the migrator returns is ignored.
  unfoldable pub run_migrations : String → Outcome
  run_migrations url = with_migrate (outside.new_migrate url)

  unfoldable pub setup_database : Step F D B M
  unfolding connect
  setup_database rr =
      with_config rr.config
        (λ c rr.
          if c.database_url == ""
          then (ok tt, record rr { repo = some outside.in_memory })
          else connected (connect c.database_url rr))
        rr

  unfoldable pub setup_migrations : Step F D B M
  unfolding run_migrations
  setup_migrations rr =
      if rr.pool
      then with_config rr.config (λ c rr. (run_migrations c.database_url, rr)) rr
      else (ok tt, rr)

  abbrev backed : Result (VolumeBackend B) → Step F D B M
  backed (ok b) rr = (ok tt, open_resource storage_backend (record rr { backend = some b }))
  backed (err e) rr = (err (wrap "ceph backend" e), rr)

  unfoldable pub setup_backend : Step F D B M
  setup_backend rr =
      with_config rr.config
        (λ c rr.
          backed (if c.storage_backend == "ceph" then outside.ceph c else ok outside.mock) rr)
        rr

  unfoldable pub setup_http : Step F D B M
  setup_http rr = (ok tt, open_resource http_server (record rr { router = true }))

  abbrev pub retry_policy : RetrySettings F → RetryPolicy
  retry_policy c = record {
    max_attempts = c.max_attempts;
    initial_wait = pos_part c.initial_wait;
    scale = outside.scale c.multiplier;
    max_wait = pos_part c.max_wait;
  }

  abbrev pub feature_params : Config F → ResourcesRegistry F D B M → NewVolumeFeatureParams D B M
  feature_params c rr = record {
    logger = true;
    backend = rr.backend;
    database = rr.repo;
    tracer = rr.tracer;
    router = rr.router;
    retry_policy = retry_policy c.retry_policy;
    reconcile_policy = c.reconcile_policy;
  }

  abbrev featured : Result (VolumeFeature D B M) → Step F D B M
  featured (ok f) rr = (ok tt, open_resource volume_feature (record rr { feature = some f }))
  featured (err e) rr = (err (wrap "volume feature" e), rr)

  unfoldable pub setup_volume_feature : Step F D B M
  setup_volume_feature rr =
      with_config rr.config
        (λ c rr.
          featured
            (new_volume_feature outside.fsm outside.clock outside.uuids (feature_params c rr)) rr)
        rr
