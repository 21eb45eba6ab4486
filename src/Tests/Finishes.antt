-- ===== src/Tests/Finishes.antt =====
-- A goroutine that ends after two time-outs.
use block_storage_api.Prelude.{refl, arith}
use block_storage_api.Prelude.Dict.{lookup}
use block_storage_api.Storage.{State}
use block_storage_api.Application.World.{Operation}
use block_storage_api.Application.Operations.{task_of}
use block_storage_api.Application.Retry.{run_with_retry}
use block_storage_api.Application.Local.{local}
use block_storage_api.Application.Local.Retries.Finishes.{Finishes, run_with_retry-Finishes}
use block_storage_api.Tests.Fixtures.{flaky_setting, flaky_world, row}

run_with_retry-Finishes_example :
    let o = Operation.attach_volume "vol-01" "node-1" in
    let w = flaky_world State.attaching "node-1" 2 in
    Finishes flaky_setting o 10000 w (run_with_retry (local flaky_setting) (task_of o) w)
unfolding lookup
run_with_retry-Finishes_example =
    run_with_retry-Finishes flaky_setting (Operation.attach_volume "vol-01" "node-1")
      (row State.attaching "node-1") 10000 (flaky_world State.attaching "node-1" 2) refl refl refl
      refl (omega arith) (omega arith) (omega arith)
