-- ===== src/Feature/Lifecycle/Validation.antt =====
-- What `NewVolumeFeature` makes of its parameters.
use block_storage_api.Prelude.{
  ◌⊎◌, inl, inr, Bool-cases, eq_iff, ℕ, zero, suc, ◌*◌, ◌∙◌, ◌≢◌, arith, String, ◌≡◌, refl, sym,
  Bool, true, false, Option, none, some, List, [], ◌∷◌, ℤ, pos, negsuc, ◌==◌,
}
use block_storage_api.Errors.{Result, Outcome, ok, err, external}
use block_storage_api.Storage.{VolumeBackend}
use block_storage_api.Fsm.{FsmLibrary}
use block_storage_api.Dependency.{DatabaseDependency}
use block_storage_api.Assertor
use block_storage_api.Assertor.{assert}
use block_storage_api.Application.World.{RetryPolicy}
use block_storage_api.Feature.Lifecycle.{
  NewVolumeFeatureParams, VolumeFeature, given, default_policy, or_default, assertions, wire_given,
  after_validation, new_volume_feature,
}

-- What must be given and is not, in the order of the assertions.
abbrev unless : Bool → String → List String → List String
unless true text rest = rest
unless false text rest = text ∷ rest

abbrev pub missing : {D B M : Type 0} → NewVolumeFeatureParams D B M → List String
missing params = unless params.logger "logger is required" (
    unless (given params.backend) "storage backend is required" (
      unless (given params.database) "database is required"
        (unless params.tracer "tracer is required" (unless params.router "router is required" []))))

-- 3 attempts, with waits from 500 ms that double up to 10 s, counted in nanoseconds.
abbrev pub three_attempts : RetryPolicy
three_attempts = record {
  max_attempts = pos 3;
  initial_wait = 500 * 1_000_000;
  scale = λ wait. wait * 2;
  max_wait = 10 * 1_000_000_000;
}

-- The policy of the retries: the default for 0 attempts, and else the given one.
abbrev Retries : RetryPolicy → RetryPolicy → Type 0
Retries given policy =
    ((given.max_attempts ≡ pos 0) × (policy ≡ three_attempts))
    ⊎ ((given.max_attempts ≢ pos 0) × (policy ≡ given))

-- What stands for an empty text, and else the given one.
abbrev Text : String → String → String → Type 0
Text default given text = ((given ≡ "") × (text ≡ default)) ⊎ ((given ≢ "") × (text ≡ given))

-- With nothing missing there is a feature, over the database and the backend that are given, with the
-- defaults of its policies; else an error with each message.
abbrev pub Wired :
    {D B M : Type 0}
    → NewVolumeFeatureParams D B M
    → List String
    → Result (VolumeFeature D B M)
    → Type 0
Wired {D = D} {B = B} {M = M} params [] r =
    (feature : VolumeFeature D B M) × (r ≡ ok feature)
    × (params.backend ≡ some feature.app.backend)
    × (params.database ≡ some feature.app.database)
    × Retries params.retry_policy feature.app.policy
    × Text "error" params.reconcile_policy.db_only feature.reconcile_policy.db_only
    × Text "ignore" params.reconcile_policy.ceph_only feature.reconcile_policy.ceph_only
Wired params (x ∷ xs) r = r ≡ err (external (Assertor.join "; " (x ∷ xs)))

default_policy_lem :
    (policy : RetryPolicy) (n : ℤ)
    → policy.max_attempts ≡ n
    → Retries policy (default_policy policy n)
default_policy_lem policy (pos zero) e = inl (e, refl)
default_policy_lem policy (pos (suc n)) e = inr ((λ h. absurd (ground (arith, sym e ∙ h))), refl)
default_policy_lem policy (negsuc n) e = inr ((λ h. absurd (ground (arith, sym e ∙ h))), refl)

or_default_lem : (text default : String) → Text default text (or_default text default)
or_default_lem text default = elim (Bool-cases (text == "")) [
  | inl e ↦ inl ((eq_iff text "").0 e, rw e refl)
  | inr e ↦ inr ((λ h. ground (arith, eq_iff text "")), rw e refl)
]

abbrev report : List String → Outcome
report [] = ok tt
report (x ∷ xs) = err (external (Assertor.join "; " (x ∷ xs)))

assertions-missing :
    {D B M : Type 0} (params : NewVolumeFeatureParams D B M)
    → Assertor.validate (assertions params) ≡ report (missing params)
unfolding assert Assertor.validate Assertor.push
assertions-missing params = ground arith

module _ {D B M : Type 0} (fsm : FsmLibrary M) (clock : ℕ → ℕ) (uuids : ℕ → String) where
  after_validation-Wired :
      (params : NewVolumeFeatureParams D B M) (backend : Option (VolumeBackend B))
      (database : Option (DatabaseDependency D))
      → params.backend ≡ backend
      → params.database ≡ database
      → missing params ≡ []
      → Wired params [] (wire_given fsm clock uuids params backend database)
  after_validation-Wired params none database e q h = absurd (ground arith)
  after_validation-Wired params (some b) none e q h = absurd (ground arith)
  after_validation-Wired params (some b) (some d) e q h = (
    _,
    refl,
    e,
    q,
    default_policy_lem params.retry_policy params.retry_policy.max_attempts refl,
    or_default_lem params.reconcile_policy.db_only "error",
    or_default_lem params.reconcile_policy.ceph_only "ignore",
  )

  by_missing :
      (params : NewVolumeFeatureParams D B M) (xs : List String)
      → missing params ≡ xs
      → Wired params xs (after_validation fsm clock uuids params (report xs))
  by_missing params [] h = after_validation-Wired params params.backend params.database refl refl h
  by_missing params (x ∷ xs) h = refl

  -- A feature is built exactly if nothing required is missing, else the error joins the message of everything
  -- that is missing. It is over the given backend and database. Its retry policy is the given one, or for one with 0
  -- attempts 3 attempts with waits from 500 ms that double up to 10 s; its reconciliation policies are the given ones, or for
  -- empty ones `error` for a volume that only the database has and `ignore` for one that only the backend has.
  pub new_volume_feature-Wired :
      (params : NewVolumeFeatureParams D B M)
      → Wired params (missing params) (new_volume_feature fsm clock uuids params)
  unfolding new_volume_feature
  new_volume_feature-Wired params =
      rw (assertions-missing params) (by_missing params (missing params) refl)
