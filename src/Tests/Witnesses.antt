-- ===== src/Tests/Witnesses.antt =====
-- Each theorem that has hypotheses, at an input that meets them.
use block_storage_api.Prelude.{none, ◌≡◌, ◌↔◌, refl, List, [], ◌∷◌, ◌++◌, pos, arith}
use block_storage_api.Prelude.Dict.{lookup}
use block_storage_api.Errors.{
  Error, ok, err, sentinel, detail, annotate, external, backend_unavailable,
}
use block_storage_api.Storage.{State, State-discrete}
use block_storage_api.Storage.Mock.{err_volume_not_found}
use block_storage_api.Storage.Mock.Laws.{IsValid}
use block_storage_api.Fsm.{Event, transition}
use block_storage_api.Fsm.Graph.{Edge, transition-Edge}
use block_storage_api.Repository.InMemory.Laws.{in_memory_contract}
use block_storage_api.Application.World.{Operation}
use block_storage_api.Application.Operations.{
  create_volume, delete_volume, attach_volume, detach_volume, reconcile_volume, get_volume,
  subscribe, task_of,
}
use block_storage_api.Application.Retry.{run_with_retry, call}
use block_storage_api.Application.Safety.{IsSound}
use block_storage_api.Application.History.{Request, Serves, history, history-Kept}
use block_storage_api.Application.Local.{local}
use block_storage_api.Application.Local.Methods.{noded, aligned, realigned}
use block_storage_api.Application.Local.Answers.{
  refused, not_found, create_answer, create_volume_answer, delete_volume_answer,
  detach_volume_answer, attach_volume_answer, reconcile_volume_answer, pending_is_stuck,
  missing_answers,
}
use block_storage_api.Application.Local.Retries.Endings.{
  Ends, failures, succeeded, lost, backoffs, run_with_retry-succeeds, run_with_retry-exhausts,
}
use block_storage_api.Application.Mocked.{goroutine_at_once, reconcile_absent}
use block_storage_api.Tests.Fixtures.{
  table_fsm, default_policy, clock, uuids, setting, flaky_setting, row, world, volumes, stored,
  flaky_world,
}

transition-Edge_example :
    (transition table_fsm State.pending Event.create ≡ ok State.creating)
    ↔ Edge State.pending Event.create State.creating
transition-Edge_example = transition-Edge table_fsm State.pending State.creating Event.create

pub empty-IsSound : IsSound in_memory_contract (world [] (volumes [])).db
unfolding in_memory_contract lookup
empty-IsSound = record { keyed = λ n v h. cc; legal = tt }

abbrev requests : List Request
requests =
    Request.create "vol-01" (pos 1024)
    ∷ Request.goroutine (Operation.create_volume "vol-01" (pos 1024))
    ∷ Request.attach "vol-01" "node-1"
    ∷ Request.goroutine (Operation.attach_volume "vol-01" "node-1")
    ∷ Request.delete "vol-01"
    ∷ []

history-Kept_example :
    Serves
      (local setting)
      in_memory_contract
      (Request.detach "vol-01")
      (history (local setting) requests (world [] (volumes [])))
history-Kept_example =
    history-Kept (local setting) in_memory_contract requests (Request.detach "vol-01")
      (world [] (volumes [])) empty-IsSound

-- Two time-outs of the backend before it attaches.
run_with_retry-succeeds_example :
    let o = Operation.attach_volume "vol-01" "node-1" in
    let v = row State.attaching "node-1" in
    let w = flaky_world State.attaching "node-1" 2 in
    Ends flaky_setting o v State.attached "node-1"
      (failures v.id o 2 ++ succeeded flaky_setting o v ∷ [])
      (backoffs default_policy 2 500)
      w
      (run_with_retry (local flaky_setting) (task_of o) w)
unfolding lookup call
run_with_retry-succeeds_example =
    run_with_retry-succeeds flaky_setting (Operation.attach_volume "vol-01" "node-1") 2
      (row State.attaching "node-1") (flaky_world State.attaching "node-1" 2) refl refl refl refl
      ((external "timeout", refl), ((external "timeout", refl), tt)) refl (omega arith)

-- A backend that does not answer.
run_with_retry-exhausts_example :
    let o = Operation.delete_volume "vol-01" in
    let v = row State.deleting "" in
    let w = flaky_world State.deleting "" 9 in
    Ends flaky_setting o v State.error ""
      (failures v.id o 2 ++ lost flaky_setting o v)
      (backoffs default_policy 2 500)
      w
      (run_with_retry (local flaky_setting) (task_of o) w)
unfolding lookup call
run_with_retry-exhausts_example =
    run_with_retry-exhausts flaky_setting (Operation.delete_volume "vol-01") 2
      (row State.deleting "") (flaky_world State.deleting "" 9) refl refl refl refl
      ((external "timeout", refl), ((external "timeout", refl), ((external "timeout", refl), tt)))
      refl

-- A second volume.
create_volume_answer_example :
    create_volume (local setting) "vol-02" (pos 2048) (stored State.available "")
    ≡ create_answer setting none "vol-02" (pos 2048) (stored State.available "")
unfolding lookup
create_volume_answer_example =
    create_volume_answer setting "vol-02" (pos 2048) (stored State.available "")

delete_volume_answer_example :
    delete_volume (local setting) "vol-01" (stored State.attached "node-1")
    ≡ (err refused, stored State.attached "node-1")
unfolding lookup State-discrete
delete_volume_answer_example =
    delete_volume_answer setting (row State.attached "node-1") (stored State.attached "node-1") refl

detach_volume_answer_example :
    detach_volume (local setting) "vol-01" (stored State.available "")
    ≡ (err refused, stored State.available "")
unfolding lookup State-discrete
detach_volume_answer_example =
    detach_volume_answer setting (row State.available "") (stored State.available "") refl

-- An attach to another node of a volume that is attached: refused, and the node is overwritten.
attach_volume_answer_example :
    attach_volume (local setting) "vol-01" "node-2" (stored State.attached "node-1") ≡ (
      err refused,
      noded setting (row State.attached "node-1") "node-2" (stored State.attached "node-1"),
    )
unfolding lookup State-discrete
attach_volume_answer_example =
    attach_volume_answer setting (row State.attached "node-1") (stored State.attached "node-1") refl
      "node-2"

-- The backend has no volume.
reconcile_volume_answer_example :
    let v = row State.error "node-1" in
    let w = flaky_world State.error "node-1" 0 in
    reconcile_volume (local flaky_setting) "vol-01" w ≡ (
      ok (record (aligned v none) { updated_at = clock 0 }),
      realigned flaky_setting (aligned v none) v 0 w,
    )
unfolding lookup State-discrete
reconcile_volume_answer_example =
    reconcile_volume_answer flaky_setting (row State.error "node-1")
      (flaky_world State.error "node-1" 0) refl

pending_is_stuck_example :
    let w = stored State.pending "" in
    ((e : Error) × (create_volume (local setting) "vol-01" (pos 1) w ≡ (err e, w)))
    × (delete_volume (local setting) "vol-01" w ≡ (err refused, w))
    × (attach_volume (local setting) "vol-01" "node-1" w
        ≡ (err refused, noded setting (row State.pending "") "node-1" w))
    × (detach_volume (local setting) "vol-01" w ≡ (err refused, w))
    × ((e : Error) × (reconcile_volume (local setting) "vol-01" w ≡ (err e, w)))
unfolding lookup
pending_is_stuck_example =
    pending_is_stuck setting (row State.pending "") (stored State.pending "") refl (pos 1) "node-1"
      refl

missing_answers_example :
    let w = stored State.pending "" in
    (get_volume (local setting) "vol-02" w ≡ (err (not_found "vol-02"), w))
    × (delete_volume (local setting) "vol-02" w ≡ (err (not_found "vol-02"), w))
    × (attach_volume (local setting) "vol-02" "node-1" w ≡ (err (not_found "vol-02"), w))
    × (detach_volume (local setting) "vol-02" w ≡ (err (not_found "vol-02"), w))
    × (reconcile_volume (local setting) "vol-02" w ≡ (err (not_found "vol-02"), w))
    × (subscribe (local setting) "vol-02" w ≡ (err (not_found "vol-02"), w))
unfolding lookup
missing_answers_example = missing_answers setting "vol-02" "node-1" (stored State.pending "") refl

goroutine_at_once_example :
    let o = Operation.create_volume "vol-01" (pos 1024) in
    let v = row State.creating "" in
    let w = stored State.creating "" in
    Ends setting o v State.available ""
      (succeeded setting o v ∷ [])
      []
      w
      (run_with_retry (local setting) (task_of o) w)
unfolding lookup
goroutine_at_once_example =
    goroutine_at_once default_policy table_fsm clock uuids
      (Operation.create_volume "vol-01" (pos 1024)) (row State.creating "")
      (stored State.creating "") refl refl refl refl (refl, refl) (omega arith)

reconcile_absent_example : reconcile_volume (local setting) "vol-01" (stored State.error "") ≡ (
  err (annotate (sentinel backend_unavailable) (detail err_volume_not_found "vol-01")),
  stored State.error "",
)
unfolding lookup
reconcile_absent_example =
    reconcile_absent default_policy table_fsm clock uuids (row State.error "")
      (stored State.error "") refl refl refl

empty-IsValid : IsValid []
unfolding lookup
empty-IsValid = record { at = λ n v h. cc }
