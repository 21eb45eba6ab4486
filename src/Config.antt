-- ===== src/Config.antt =====
-- config/config.go. The environment and the parsers of the standard library are parameters; a
-- floating-point number is of a type that only the parser makes.
use block_storage_api.Prelude.{
  ℕ, ◌≤◌, String, Bool, true, false, not, ◌&&◌, ◌||◌, List, [], ℤ, pos, negsuc, is_not_positive,
  pos_part, leb, ◌==◌, eq_iff, if◌then◌else◌, ◌≡◌, refl, ◌⊎◌, arith, subst,
}
use block_storage_api.Errors.{Result, ok, err, Outcome, wrap, external}
use block_storage_api.Feature.{ReconcilePolicy}

-- os.Getenv, strconv.Atoi, time.ParseDuration, strconv.ParseFloat, the test `f < 1.0` and
-- strings.Split at commas.
pub record System (F : Type 0) : Type 0 where
  pub environment : String → String
  pub atoi : String → Result ℤ
  pub parse_duration : String → Result ℤ
  pub parse_float : String → Result F
  pub less_than_one : F → Bool
  pub split : String → List String

pub record RetrySettings (F : Type 0) : Type 0 where
  pub max_attempts : ℤ
  pub initial_wait : ℤ
  pub multiplier : F
  pub max_wait : ℤ

pub record Config (F : Type 0) : Type 0 where
  pub storage_backend : String
  pub database_url : String
  pub port : ℤ
  pub env : String
  pub ceph_monitors : List String
  pub ceph_pool : String
  pub ceph_keyring : String
  pub otel_exporter : String
  pub otel_jaeger_endpoint : String
  pub otel_service_name : String
  pub retry_policy : RetrySettings F
  pub reconcile_policy : ReconcilePolicy

abbrev pub is_port : ℤ → Bool
is_port (pos n) = leb 1 n && leb n 65535
is_port (negsuc _) = false

infixl 5 ◌>>=◌
abbrev ◌>>=◌ : {A C : Type 0} → Result A → (A → Result C) → Result C
ok a >>= f = f a
err e >>= f = err e

module _ {F : Type 0} (system : System F) where
  unfoldable pub get_env : String → String → String
  get_env key default = if system.environment key == "" then default else system.environment key

  unfoldable pub split_comma : String → List String
  split_comma s = if s == "" then [] else system.split s

  unfoldable pub validate : Config F → Outcome
  validate c =
      if not (c.storage_backend == "mock" || c.storage_backend == "ceph")
      then err (external "invalid STORAGE_BACKEND")
      else if not (is_port c.port)
      then err (external "invalid PORT")
      else if is_not_positive c.retry_policy.max_attempts
      then err (external "invalid VOLUME_RETRY_MAX_ATTEMPTS")
      else if is_not_positive c.retry_policy.initial_wait
      then err (external "invalid VOLUME_RETRY_INITIAL_WAIT")
      else if system.less_than_one c.retry_policy.multiplier
      then err (external "invalid VOLUME_RETRY_MULTIPLIER")
      else if is_not_positive c.retry_policy.max_wait
      then err (external "invalid VOLUME_RETRY_MAX_WAIT")
      else if not (
          c.reconcile_policy.db_only == "error"
          || (c.reconcile_policy.db_only == "delete" || c.reconcile_policy.db_only == "ignore"))
      then err (external "invalid RECONCILE_DB_ONLY")
      else if not
          (c.reconcile_policy.ceph_only == "ignore" || c.reconcile_policy.ceph_only == "import")
      then err (external "invalid RECONCILE_CEPH_ONLY")
      else ok tt

  abbrev read : ℤ → ℤ → ℤ → F → ℤ → Config F
  read port max_attempts initial_wait multiplier max_wait = record {
    storage_backend = get_env "STORAGE_BACKEND" "mock";
    database_url = get_env "DATABASE_URL" "";
    port = port;
    env = get_env "ENV" "development";
    ceph_monitors = split_comma (get_env "CEPH_MONITORS" "");
    ceph_pool = get_env "CEPH_POOL" "rbd-demo";
    ceph_keyring = get_env "CEPH_KEYRING" "/etc/ceph/ceph.client.admin.keyring";
    otel_exporter = get_env "OTEL_EXPORTER" "stdout";
    otel_jaeger_endpoint = get_env "OTEL_JAEGER_ENDPOINT" "http://localhost:4318/v1/traces";
    otel_service_name = get_env "OTEL_SERVICE_NAME" "block-storage-api";
    retry_policy = record {
      max_attempts = max_attempts;
      initial_wait = initial_wait;
      multiplier = multiplier;
      max_wait = max_wait;
    };
    reconcile_policy = record {
      db_only = get_env "RECONCILE_DB_ONLY" "error";
      ceph_only = get_env "RECONCILE_CEPH_ONLY" "ignore";
    };
  }

  abbrev context : {A : Type 0} → String → Result A → Result A
  context text (ok a) = ok a
  context text (err e) = err (wrap text e)

  abbrev checked : Config F → Result (Config F)
  checked c = validate c >>= λ _. ok c

  abbrev port_read : Result ℤ
  port_read = context "invalid PORT" (system.atoi (get_env "PORT" "8080"))

  abbrev max_attempts_read : Result ℤ
  max_attempts_read =
      context "invalid VOLUME_RETRY_MAX_ATTEMPTS"
        (system.atoi (get_env "VOLUME_RETRY_MAX_ATTEMPTS" "3"))

  abbrev initial_wait_read : Result ℤ
  initial_wait_read =
      context "invalid VOLUME_RETRY_INITIAL_WAIT"
        (system.parse_duration (get_env "VOLUME_RETRY_INITIAL_WAIT" "500ms"))

  abbrev multiplier_read : Result F
  multiplier_read =
      context "invalid VOLUME_RETRY_MULTIPLIER"
        (system.parse_float (get_env "VOLUME_RETRY_MULTIPLIER" "2.0"))

  abbrev max_wait_read : Result ℤ
  max_wait_read =
      context "invalid VOLUME_RETRY_MAX_WAIT"
        (system.parse_duration (get_env "VOLUME_RETRY_MAX_WAIT" "10s"))

  unfoldable pub load : Result (Config F)
  load = do
    port ← port_read
    max_attempts ← max_attempts_read
    initial_wait ← initial_wait_read
    multiplier ← multiplier_read
    max_wait ← max_wait_read
    checked (read port max_attempts initial_wait multiplier max_wait)

  -- What the rest of the program relies on of a configuration.
  pub record IsUsable (c : Config F) : Type 0 where
    pub storage_backend : (c.storage_backend ≡ "mock") ⊎ (c.storage_backend ≡ "ceph")
    pub port : (n : ℕ) × (c.port ≡ pos n) × (1 ≤ n) × (n ≤ 65535)
    pub max_attempts : 1 ≤ pos_part c.retry_policy.max_attempts
    pub initial_wait : 1 ≤ pos_part c.retry_policy.initial_wait
    pub multiplier : system.less_than_one c.retry_policy.multiplier ≡ false
    pub max_wait : 1 ≤ pos_part c.retry_policy.max_wait
    pub db_only :
        (c.reconcile_policy.db_only ≡ "error")
        ⊎ ((c.reconcile_policy.db_only ≡ "delete") ⊎ (c.reconcile_policy.db_only ≡ "ignore"))
    pub ceph_only :
        (c.reconcile_policy.ceph_only ≡ "ignore") ⊎ (c.reconcile_policy.ceph_only ≡ "import")

  port_number : (p : ℤ) → is_port p ≡ true → (n : ℕ) × (p ≡ pos n) × (1 ≤ n) × (n ≤ 65535)
  port_number (pos n) h = (n, refl, ground arith, ground arith)
  port_number (negsuc n) h = absurd (cc)

  validate-IsUsable : (c : Config F) → validate c ≡ ok tt → IsUsable c
  unfolding validate
  validate-IsUsable c h = record {
    storage_backend =
        ground (arith, eq_iff c.storage_backend "mock", eq_iff c.storage_backend "ceph");
    port = port_number c.port (ground arith);
    max_attempts = ground arith;
    initial_wait = ground arith;
    multiplier = ground arith;
    max_wait = ground arith;
    db_only = ground (
      arith,
      eq_iff c.reconcile_policy.db_only "error",
      eq_iff c.reconcile_policy.db_only "delete",
      eq_iff c.reconcile_policy.db_only "ignore",
    );
    ceph_only = ground (
      arith,
      eq_iff c.reconcile_policy.ceph_only "ignore",
      eq_iff c.reconcile_policy.ceph_only "import",
    );
  }

  -- A chain that returns a value has come through each of its steps.
  through :
      {A C P : Type 0} (r : Result A) (f : A → Result C) (c : C)
      → ((a : A) → f a ≡ ok c → P)
      → (r >>= f) ≡ ok c
      → P
  through (ok a) f c k h = k a h
  through (err e) f c k h = absurd (cc)

  checked-IsUsable :
      (d c : Config F) (r : Outcome) → validate d ≡ r → (r >>= λ _. ok d) ≡ ok c → IsUsable c
  checked-IsUsable d c (ok _) e h =
      let same : d ≡ c = cc in subst IsUsable same (validate-IsUsable d e)
  checked-IsUsable d c (err x) e h = absurd (cc)

  -- A configuration that `Load` returns names a backend that exists, a port from 1 to 65535, at
  -- least one attempt, positive waits, a multiplier that is not below 1, and known reconciliation
  -- policies, whatever the environment holds and the parsers make of it.
  pub load-IsUsable : (c : Config F) → load ≡ ok c → IsUsable c
  unfolding load
  load-IsUsable c = through port_read _ c λ port. through max_attempts_read _ c λ max_attempts.
      through initial_wait_read _ c λ initial_wait. through multiplier_read _ c λ multiplier.
        through max_wait_read _ c λ max_wait.
          checked-IsUsable (read port max_attempts initial_wait multiplier max_wait) c _ refl
