-- ===== src/Process/Shutdown.antt =====
-- Whatever fails in the setup, in the server or in a `Close`, the process closes what it has opened.
use mathlib.Core.List.{append_assoc, append-nil}
use block_storage_api.Prelude.{
  ℕ, String, ◌≡◌, refl, Option, none, some, Bool-cases, inl, inr, sym, ◌∙◌, ap, Bool, true, false,
  List, [], ◌∷◌, ◌++◌, arith, ◌==◌, if◌then◌else◌,
}
use block_storage_api.Errors.{Outcome, ok, err}
use block_storage_api.Storage.{VolumeBackend}
use block_storage_api.Config.{Config}
use block_storage_api.Feature.Lifecycle.{new_volume_feature}
use block_storage_api.Process.Registry.{
  Resource, Outside, ResourcesRegistry, Step, empty_registry, then_step, with_config, Served,
  signalled, failed, volume_feature, http_server, storage_backend, pool, meter_provider,
  tracer_provider,
}
use block_storage_api.Process.Steps.{
  setup_config, setup_observability, new_tracer_provider, new_meter_provider, setup_database,
  setup_migrations, connect, connected, pooled, pinged, run_migrations, setup_backend, setup_http,
  setup_volume_feature,
}
use block_storage_api.Process.{
  described, run_steps, steps, setup, close_backward, shutdown, exit_code, main, after_setup, serve,
}

-- The closers are the resources that were built, in order, and nothing is closed yet.
pub record IsTracked {F D B M : Type 0} (rr : ResourcesRegistry F D B M) : Type 0 where
  pub closers : rr.closers ≡ rr.opened
  pub closed : rr.closed ≡ []

-- Last first.
abbrev pub backward : List Resource → List Resource
backward [] = []
backward (r ∷ rs) = backward rs ++ r ∷ []

backward-last : (r : Resource) (rs : List Resource) → backward (rs ++ r ∷ []) ≡ r ∷ backward rs
backward-last r [] = refl
backward-last r (x ∷ rs) = ap (λ cs. cs ++ x ∷ []) (backward-last r rs)

-- After a step that has failed: what was built is what is closed already and what is to be closed.
pub record IsBalanced {F D B M : Type 0} (rr : ResourcesRegistry F D B M) : Type 0 where
  pub balanced : rr.closed ++ backward rr.closers ≡ backward rr.opened

module _ {F D B M : Type 0} (outside : Outside F D B M) where
  abbrev After : Outcome × ResourcesRegistry F D B M → Type 0
  After (ok _, rr) = IsTracked rr
  After (err _, rr) = IsBalanced rr

  tracked-IsBalanced : (rr : ResourcesRegistry F D B M) → IsTracked rr → IsBalanced rr
  tracked-IsBalanced rr h = record {
    balanced = ap (λ cs. cs ++ backward rr.closers) h.closed ∙ ap backward h.closers;
  }

  abbrev Keeps : Step F D B M → Type 0
  Keeps step = (rr : ResourcesRegistry F D B M) → IsTracked rr → After (step rr)

  setup_config-Keeps : Keeps (setup_config outside)
  unfolding setup_config
  setup_config-Keeps rr h = ground arith

  setup_observability-Keeps : Keeps (setup_observability outside)
  unfolding setup_observability
  setup_observability-Keeps rr h = ground arith

  with_config-After :
      (o : Option (Config F)) (f : Config F → Step F D B M) (rr : ResourcesRegistry F D B M)
      → IsBalanced rr
      → ((c : Config F) → After (f c rr))
      → After (with_config o f rr)
  with_config-After none f rr h k = h
  with_config-After (some c) f rr h k = k c

  pinged-After :
      (o : Outcome) (rr : ResourcesRegistry F D B M)
      → IsTracked rr
      → After (connected outside (pinged outside o (record rr { opened = rr.opened ++ pool ∷ [] })))
  pinged-After (ok _) rr h = record {
    closers = ap (λ cs. cs ++ pool ∷ []) h.closers;
    closed = h.closed;
  }
  pinged-After (err e) rr h = record {
    balanced =
        ap (λ cs. (cs ++ pool ∷ []) ++ backward rr.closers) h.closed
        ∙ ap (λ cs. pool ∷ backward cs) h.closers
        ∙ sym (backward-last pool rr.opened);
  }

  pooled-After :
      (o : Outcome) (rr : ResourcesRegistry F D B M)
      → IsTracked rr
      → After (connected outside (pooled outside o rr))
  pooled-After (ok _) rr h = pinged-After outside.ping rr h
  pooled-After (err e) rr h = tracked-IsBalanced rr h

  setup_database-Keeps : Keeps (setup_database outside)
  unfolding setup_database connect
  setup_database-Keeps rr h = with_config-After rr.config _ rr (tracked-IsBalanced rr h) λ c.
      elim (Bool-cases (c.database_url == "")) [
        | inl q ↦ rw q (record { closers = h.closers; closed = h.closed })
        | inr q ↦ rw q (pooled-After (outside.new_pool c.database_url) rr h)
      ]

  setup_migrations-Keeps : Keeps (setup_migrations outside)
  unfolding setup_migrations run_migrations
  setup_migrations-Keeps rr h = ground arith

  setup_backend-Keeps : Keeps (setup_backend outside)
  unfolding setup_backend
  setup_backend-Keeps rr h = ground arith

  setup_http-Keeps : Keeps (setup_http outside)
  unfolding setup_http
  setup_http-Keeps rr h = ground arith

  setup_volume_feature-Keeps : Keeps (setup_volume_feature outside)
  unfolding setup_volume_feature
  setup_volume_feature-Keeps rr h = ground arith

  -- The steps of a list.
  abbrev AllKeep : List (Step F D B M × String) → Type 0
  AllKeep [] = Unit
  AllKeep ((step, _) ∷ rest) = Keeps step × AllKeep rest

  then-Keeps :
      (desc : String) (x : Outcome × ResourcesRegistry F D B M) (next : Step F D B M)
      → After x
      → Keeps next
      → After (then_step (described outside desc x) next)
  then-Keeps desc (ok _, rr) next h k = k rr h
  then-Keeps desc (err e, rr) next h k = h

  run_steps-Keeps : (ss : List (Step F D B M × String)) → AllKeep ss → Keeps (run_steps outside ss)
  unfolding run_steps
  run_steps-Keeps [] k rr h = h
  run_steps-Keeps ((step, desc) ∷ ss) k rr h =
      then-Keeps desc (step rr) (run_steps outside ss) (k.0 rr h) (run_steps-Keeps ss k.1)

  setup-Keeps : Keeps (setup outside)
  unfolding setup
  setup-Keeps = run_steps-Keeps (steps outside) (
    setup_config-Keeps,
    (
      (λ rr h. h),
      (
        setup_observability-Keeps,
        (
          setup_database-Keeps,
          (
            setup_migrations-Keeps,
            (setup_backend-Keeps, (setup_http-Keeps, (setup_volume_feature-Keeps, tt))),
          ),
        ),
      ),
    ),
  )

  close_backward-closed :
      (rs : List Resource) (rr : ResourcesRegistry F D B M)
      → ((close_backward outside rs rr).closed ≡ rr.closed ++ backward rs)
        × ((close_backward outside rs rr).opened ≡ rr.opened)
  unfolding close_backward
  close_backward-closed [] rr = (sym (append-nil rr.closed), refl)
  close_backward-closed (r ∷ rs) rr =
      let (h, k) = close_backward-closed rs rr in
      (ap (λ cs. cs ++ r ∷ []) h ∙ append_assoc rr.closed (backward rs) (r ∷ []), k)

  -- What a run has come to.
  pub record Cleared (setup_result : Outcome) (x : ℕ × ResourcesRegistry F D B M) : Type 0 where
    pub closed : x.1.closed ≡ backward x.1.opened
    pub code : x.0 ≡ exit_code outside setup_result

  shutdown-Cleared :
      (r : Outcome) (rr : ResourcesRegistry F D B M)
      → IsBalanced rr
      → Cleared r (shutdown outside r rr)
  unfolding shutdown
  shutdown-Cleared r rr h =
      let (p, q) = close_backward-closed rr.closers rr in
      record { closed = p ∙ h.balanced ∙ ap backward (sym q); code = refl }

  after_setup-Cleared :
      (x : Outcome × ResourcesRegistry F D B M) → After x → Cleared x.0 (after_setup outside x)
  after_setup-Cleared (ok _, rr) h = by_end outside.served
    where
      by_end :
          (served : Served) → Cleared (ok tt) (shutdown outside (ok tt) (serve outside served rr))
      by_end signalled = shutdown-Cleared (ok tt) rr (tracked-IsBalanced rr h)
      by_end (failed e) =
          shutdown-Cleared (ok tt) (record rr { log = rr.log ++ e ∷ [] })
            (record { balanced = (tracked-IsBalanced rr h).balanced })
  after_setup-Cleared (err e, rr) h = shutdown-Cleared (err e) rr h

  -- Every run of the process, whatever fails, closes exactly the resources that it has built, the last
  -- first, and exits with 1 if the setup has failed and else with 0, also after an error of the server.
  pub main-Cleared : Cleared (setup outside empty_registry).0 (main outside)
  unfolding main
  main-Cleared =
      after_setup-Cleared (setup outside empty_registry)
        (setup-Keeps empty_registry (record { closers = refl; closed = refl }))

  -- What a whole setup leaves open, the last first.
  abbrev pub all_resources : Bool → List Resource
  all_resources true =
      volume_feature ∷ http_server ∷ storage_backend ∷ meter_provider ∷ tracer_provider ∷ []
  all_resources false =
      volume_feature ∷ http_server ∷ storage_backend ∷ pool ∷ meter_provider ∷ tracer_provider ∷ []

  -- If every package that the setup calls succeeds, the process exits with 0, whether a signal or an
  -- error of the server has ended it, and closes the volume feature first, before the HTTP server,
  -- then the backend, the pool if there is a DATABASE_URL, and the meter and the tracer provider.
  pub main_lem :
      (c : Config F) (backend : VolumeBackend B)
      → outside.load ≡ ok c
      → new_tracer_provider outside c ≡ ok tt
      → new_meter_provider outside c ≡ ok tt
      → outside.new_pool c.database_url ≡ ok tt
      → outside.ping ≡ ok tt
      → outside.new_migrate c.database_url ≡ ok tt
      → outside.migrate_up ≡ ok tt
      → (if c.storage_backend == "ceph" then outside.ceph c else ok outside.mock) ≡ ok backend
      → ((main outside).0 ≡ 0) × ((main outside).1.closed ≡ all_resources (c.database_url == ""))
  unfolding main setup setup_config setup_observability setup_database setup_migrations
      setup_backend setup_http setup_volume_feature run_steps shutdown close_backward connect
      run_migrations new_volume_feature
  main_lem c backend h₁ h₂ h₃ h₄ h₅ h₆ h₇ h₈ = ground arith
