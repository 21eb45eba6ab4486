-- ===== src/Tests/Configuration.antt =====
-- The configuration that an empty environment gives.
use block_storage_api.Prelude.{ℕ, false, pos, [], ◌∷◌, ◌==◌, if◌then◌else◌, refl}
use block_storage_api.Errors.{ok}
use block_storage_api.Config.{
  System, Config, load, validate, get_env, split_comma, IsUsable, load-IsUsable,
}

-- Parsers that read the default texts; a float is a number of tenths.
abbrev system : System ℕ
system = record {
  environment = λ key. "";
  atoi = λ s. if s == "8080" then ok (pos 8080) else ok (pos 3);
  parse_duration = λ s. if s == "500ms" then ok (pos 500) else ok (pos 10000);
  parse_float = λ s. ok 20;
  less_than_one = λ f. false;
  split = λ s. s ∷ [];
}

abbrev pub defaults : Config ℕ
defaults = record {
  storage_backend = "mock";
  database_url = "";
  port = pos 8080;
  env = "development";
  ceph_monitors = [];
  ceph_pool = "rbd-demo";
  ceph_keyring = "/etc/ceph/ceph.client.admin.keyring";
  otel_exporter = "stdout";
  otel_jaeger_endpoint = "http://localhost:4318/v1/traces";
  otel_service_name = "block-storage-api";
  retry_policy = record {
    max_attempts = pos 3;
    initial_wait = pos 500;
    multiplier = 20;
    max_wait = pos 10000;
  };
  reconcile_policy = record { db_only = "error"; ceph_only = "ignore" };
}

load-IsUsable_example : IsUsable system defaults
unfolding load validate get_env split_comma
load-IsUsable_example = load-IsUsable system defaults refl
