-- ===== src/Application/Mocked.antt =====
-- The application over the repository in memory and the mock backend: the configuration that
-- cmd/api/setup.go makes of an empty environment.
use block_storage_api.Prelude.{
  ℕ, String, ◌≡◌, ◌≢◌, none, some, is_not_positive, false, arith, ◌<◌, ◌∷◌, [], pos_part,
}
use block_storage_api.Prelude.Dict.{lookup}
use block_storage_api.Errors.{ok, err, sentinel, annotate, detail, backend_unavailable}
use block_storage_api.Storage.{State, Volume}
use block_storage_api.Storage.Mock.{
  MockBackend, mock, create_volume, delete_volume, attach_volume, detach_volume,
  err_volume_not_found,
}
use block_storage_api.Storage.Mock.Laws.{
  IsValid, create_volume-IsValid, delete_volume-IsValid, attach_volume-IsValid,
  detach_volume-IsValid, get_volume-absent,
}
use block_storage_api.Fsm.{FsmLibrary}
use block_storage_api.Repository.InMemory.{InMemoryRepository}
use block_storage_api.Application.World.{World, RetryPolicy, Operation}
use block_storage_api.Application.Operations.{reconcile_volume, name_of, task_of}
use block_storage_api.Application.Retry.{call, run_with_retry}
use block_storage_api.Application.Local.{Setting, local}
use block_storage_api.Application.Local.Methods.{reconcile_volume-unavailable}
use block_storage_api.Application.Local.Retries.{working, finished, node_after}
use block_storage_api.Application.Local.Retries.Endings.{Ends, succeeded, run_with_retry-succeeds}

module _ {M : Type 0} (policy : RetryPolicy) (fsm : FsmLibrary M) (clock : ℕ → ℕ)
    (uuids : ℕ → String) where
  abbrev pub with_mock : Setting MockBackend M
  with_mock = record {
    backend = mock clock uuids;
    policy = policy;
    fsm = fsm;
    clock = clock;
    uuids = uuids;
  }

  -- Whatever the goroutines call, each volume of the mock backend bears its own name, is available or attached,
  -- and is on no node while it is available.
  call-IsValid :
      (o : Operation) (m : MockBackend)
      → IsValid m.volumes
      → IsValid (call (local with_mock) o m).1.volumes
  unfolding call
  call-IsValid (Operation.create_volume name size_mb) m h =
      create_volume-IsValid clock uuids name size_mb m h
  call-IsValid (Operation.delete_volume name) m h = delete_volume-IsValid clock uuids name m h
  call-IsValid (Operation.attach_volume name node_id) m h =
      attach_volume-IsValid clock uuids name node_id m h
  call-IsValid (Operation.detach_volume name) m h = detach_volume-IsValid clock uuids name m h

  -- What the mock backend must hold for the call of an operation to succeed.
  abbrev pub Ready : Operation → MockBackend → Type 0
  Ready (Operation.create_volume name size_mb) m =
      (is_not_positive size_mb ≡ false) × (lookup name m.volumes ≡ none)
  Ready (Operation.delete_volume name) m =
      (v : Volume) × (lookup name m.volumes ≡ some v) × (v.state ≢ State.attached)
  Ready (Operation.attach_volume name node_id) m =
      (v : Volume) × (lookup name m.volumes ≡ some v) × (v.state ≡ State.available)
  Ready (Operation.detach_volume name) m =
      (v : Volume) × (lookup name m.volumes ≡ some v) × (v.state ≡ State.attached)

  call-ok : (o : Operation) (m : MockBackend) → Ready o m → (call (local with_mock) o m).0 ≡ ok tt
  unfolding call create_volume delete_volume attach_volume detach_volume
  call-ok (Operation.create_volume name size_mb) m h = ground (arith, h.0, h.1)
  call-ok (Operation.delete_volume name) m h = ground (arith, h.1, h.2)
  call-ok (Operation.attach_volume name node_id) m h = ground (arith, h.1, h.2)
  call-ok (Operation.detach_volume name) m h = ground (arith, h.1, h.2)

  -- If the mock backend is ready for the operation, the goroutine ends at its first attempt: the row comes
  -- to its final state with one entry in the audit trail and no wait.
  pub goroutine_at_once :
      (o : Operation) (v : Volume) (w : World InMemoryRepository MockBackend)
      → name_of o ≡ v.name
      → lookup v.name w.db.volumes ≡ some v
      → v.state ≡ working o
      → w.done_after ≡ none
      → Ready o w.storage
      → 0 < pos_part policy.max_attempts
      → Ends with_mock o v
          (finished o)
          (node_after o v.node_id)
          (succeeded with_mock o v ∷ [])
          []
          w
          (run_with_retry (local with_mock) (task_of o) w)
  goroutine_at_once o v w n h at live ready enough =
      run_with_retry-succeeds with_mock o 0 v w n h at live tt (call-ok o w.storage ready) enough

  -- A row in the error state whose volume the mock backend does not hold cannot be reconciled: the answer is
  -- that the backend is unavailable, and nothing changes.
  pub reconcile_absent :
      (v : Volume) (w : World InMemoryRepository MockBackend)
      → lookup v.name w.db.volumes ≡ some v
      → v.state ≡ State.error
      → lookup v.name w.storage.volumes ≡ none
      → reconcile_volume (local with_mock) v.name w
        ≡ (err (annotate (sentinel backend_unavailable) (detail err_volume_not_found v.name)), w)
  reconcile_absent v w h at absent =
      reconcile_volume-unavailable with_mock v (detail err_volume_not_found v.name) w.storage w h at
        (get_volume-absent clock uuids v.name w.storage absent)
