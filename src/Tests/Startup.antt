-- ===== src/Tests/Startup.antt =====
-- The reconciliation at startup, at concrete rows.
use block_storage_api.Prelude.{String, ◌≡◌, refl, some, arith, eq_iff, List, [], ◌∷◌}
use block_storage_api.Prelude.Dict.{lookup}
use block_storage_api.Storage.{State, Volume}
use block_storage_api.Storage.Mock.{MockBackend, get_volume}
use block_storage_api.Repository.InMemory.{InMemoryRepository}
use block_storage_api.Application.World.{World}
use block_storage_api.Feature.{ReconcilePolicy, reconcile_on_startup, reconcile_db_volume}
use block_storage_api.Feature.Effects.{IsKeyed}
use block_storage_api.Feature.Imports.{AreSettled}
use block_storage_api.Feature.Startup.{Answers, reconcile_on_startup-AreSettled}
use block_storage_api.Feature.Verdict.{status, reconcile_db_volume-verdict}
use block_storage_api.Application.Local.{local}
use block_storage_api.Tests.Fixtures.{flaky_setting, flaky_world, row, setting, world, volumes}

abbrev default_reconcile : ReconcilePolicy
default_reconcile = record { db_only = "error"; ceph_only = "ignore" }

-- The volumes of the mock backend.
abbrev held : List (String × Volume)
held = ("vol-01", row State.available "") ∷ []

abbrev IsHeld : String → Type 0
IsHeld n = (v : Volume) × (lookup n held ≡ some v)

abbrev Holds : MockBackend → Type 0
Holds m = m.volumes ≡ held

mock-Answers : Answers setting IsHeld Holds
unfolding get_volume
mock-Answers = record { keeps = λ n b g. g; answers = λ n b g (v, h). (some v, rw g (rw h refl)) }

-- A row that was being attached when the process ended.
abbrev interrupted : World InMemoryRepository MockBackend
interrupted = world (("vol-01", row State.attaching "node-1") ∷ []) (volumes held)

interrupted-IsKeyed : IsKeyed interrupted.db.volumes
unfolding lookup
interrupted-IsKeyed = record { at = λ n v h. ground (arith, eq_iff "vol-01" n) }

reconcile_on_startup-AreSettled_example :
    AreSettled IsHeld
      (reconcile_on_startup (local setting) default_reconcile interrupted).1.db.volumes
reconcile_on_startup-AreSettled_example =
    reconcile_on_startup-AreSettled setting IsHeld Holds default_reconcile interrupted mock-Answers
      refl refl interrupted-IsKeyed

-- A volume that the backend does not know, with the default policy.
reconcile_db_volume-verdict_example :
    status (
      lookup "vol-01"
        (reconcile_db_volume
          (local flaky_setting)
          default_reconcile
          (row State.attaching "node-1")
          (flaky_world State.attaching "node-1" 0)).1.db.volumes)
    ≡ some (State.error, "node-1")
unfolding lookup
reconcile_db_volume-verdict_example =
    reconcile_db_volume-verdict flaky_setting default_reconcile (row State.attaching "node-1")
      (flaky_world State.attaching "node-1" 0) refl refl
