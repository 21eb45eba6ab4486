-- ===== src/Application/Local/Answers.antt =====
-- The answer of every request to the application over the repository in memory, on each branch.
use mathlib.Core.Logic.{if_pos, if_neg}
use block_storage_api.Prelude.{
  String, ◌≡◌, false, Option, none, some, arith, ℤ, is_not_positive, ite, if◌then◌else◌, Bool-cases,
  inl, inr, refl,
}
use block_storage_api.Prelude.Dict.{lookup}
use block_storage_api.Errors.{
  Error, Result, ok, err, sentinel, detail, annotate, invalid_transition, invalid_size,
  volume_exists, volume_not_found, backend_unavailable,
}
use block_storage_api.Storage.{State, State-discrete, Volume}
use block_storage_api.Fsm.{Event}
use block_storage_api.Repository.InMemory.{InMemoryRepository}
use block_storage_api.Application.World.{World, Operation}
use block_storage_api.Application.Operations.{
  create_volume, delete_volume, attach_volume, detach_volume, reconcile_volume, get_volume,
  subscribe,
}
use block_storage_api.Application.World.{◌>>=◌}
use block_storage_api.Application.Local.{Setting, local, stamped, fired}
use block_storage_api.Application.Local.Methods.{
  saved, spawned, noded, realigned, pending_row, aligned, create_volume-accepted,
  create_volume-exists, create_volume-invalid, load_or_not_found-none, delete_volume-accepted,
  delete_volume-refused, detach_volume-accepted, detach_volume-refused, attach_volume-accepted,
  attach_volume-refused, reconcile_volume-accepted, reconcile_volume-refused,
  reconcile_volume-unavailable,
}

abbrev pub refused : Error
refused = detail (sentinel invalid_transition) "cannot"

abbrev pub not_found : String → Error
not_found name = detail (sentinel volume_not_found) name

module _ {B M : Type 0} (s : Setting B M) where
  abbrev pub LocalWorld : Type 0
  LocalWorld = World InMemoryRepository B

  -- The answer to a create of a positive size, by what is stored under the name.
  abbrev pub create_answer : Option Volume → String → ℤ → LocalWorld → Result Volume × LocalWorld
  create_answer (some v) name size_mb w = (err (detail (sentinel volume_exists) name), w)
  create_answer none name size_mb w =
      let v = pending_row s name size_mb w in
      let w₁ = saved s name size_mb w in
      (
        ok (stamped s v State.creating w₁),
        spawned s (Operation.create_volume name size_mb) (fired s v Event.create State.creating w₁),
      )

  positive_answer :
      (o : Option Volume) (name : String) (size_mb : ℤ) (w : LocalWorld)
      → is_not_positive size_mb ≡ false
      → lookup name w.db.volumes ≡ o
      → create_volume (local s) name size_mb w ≡ create_answer o name size_mb w
  positive_answer (some v) name size_mb w p h = create_volume-exists s name size_mb v w p h
  positive_answer none name size_mb w p h = create_volume-accepted s name size_mb w p h

  -- A create is refused for a size that is not positive, then for a name that is taken, and then
  -- changes nothing. Else it inserts a pending row with the next id, the name and the size of the request, the
  -- name of the backend, no node and the instant of the request, takes it to creating with an entry in the
  -- audit trail and an event for the subscribers, and starts the goroutine that calls the backend.
  pub create_volume_answer :
      (name : String) (size_mb : ℤ) (w : LocalWorld)
      → create_volume (local s) name size_mb w ≡ (
          if is_not_positive size_mb
          then (err (sentinel invalid_size), w)
          else create_answer (lookup name w.db.volumes) name size_mb w)
  create_volume_answer name size_mb w = elim (Bool-cases (is_not_positive size_mb)) [
    | inl p ↦ rw p (create_volume-invalid s name size_mb w p)
    | inr p ↦ rw p (positive_answer (lookup name w.db.volumes) name size_mb w p refl)
  ]

  module _ (v : Volume) (w : LocalWorld) (stored : lookup v.name w.db.volumes ≡ some v) where
    -- A delete is accepted exactly for an available row, which it takes to deleting before it starts
    -- the goroutine; else it is refused and changes nothing.
    pub delete_volume_answer :
        delete_volume (local s) v.name w
        ≡ ite
            (State-discrete v.state State.available)
            (
              ok tt,
              spawned s (Operation.delete_volume v.name) (fired s v Event.delete State.deleting w),
            )
            (err refused, w)
    delete_volume_answer = elim (State-discrete v.state State.available) [
      | yes p ↦ rw (if_pos _ p) (delete_volume-accepted s v w stored p)
      | no p ↦ rw (if_neg _ p) (delete_volume-refused s v w stored p)
    ]

    -- A detach is accepted exactly for an attached row, which it takes to detaching before it starts
    -- the goroutine; else it is refused and changes nothing.
    pub detach_volume_answer :
        detach_volume (local s) v.name w
        ≡ ite
            (State-discrete v.state State.attached)
            (
              ok tt,
              spawned s (Operation.detach_volume v.name) (fired s v Event.detach State.detaching w),
            )
            (err refused, w)
    detach_volume_answer = elim (State-discrete v.state State.attached) [
      | yes p ↦ rw (if_pos _ p) (detach_volume-accepted s v w stored p)
      | no p ↦ rw (if_neg _ p) (detach_volume-refused s v w stored p)
    ]

    -- An attach is accepted exactly for an available row, which it takes to attaching on the new node.
    -- When it is refused, the node of the request has been written to the row all the same.
    pub attach_volume_answer :
        (node_id : String)
        → attach_volume (local s) v.name node_id w
          ≡ ite
              (State-discrete v.state State.available)
              (
                ok tt,
                spawned s (Operation.attach_volume v.name node_id) (
                    fired s
                      (record v { node_id = node_id })
                      Event.attach
                      State.attaching
                      (noded s v node_id w)),
              )
              (err refused, noded s v node_id w)
    attach_volume_answer node_id = elim (State-discrete v.state State.available) [
      | yes p ↦ rw (if_pos _ p) (attach_volume-accepted s v node_id w stored p)
      | no p ↦ rw (if_neg _ p) (attach_volume-refused s v node_id w stored p)
    ]

    -- What a reconciliation of a row in the error state makes of the answer of the backend.
    abbrev pub reconcile_answer : Result (Option Volume) × B → Result Volume × LocalWorld
    reconcile_answer (err e, b) =
        (err (annotate (sentinel backend_unavailable) e), record w { storage = b })
    reconcile_answer (ok real, b) = (
      ok (record (aligned v real) { updated_at = s.clock w.readings }),
      realigned s (aligned v real) v b w,
    )

    pub error_answer :
        (x : Result (Option Volume) × B)
        → v.state ≡ State.error
        → s.backend.get_volume v.name w.storage ≡ x
        → reconcile_volume (local s) v.name w ≡ reconcile_answer x
    error_answer (err e, b) p h = reconcile_volume-unavailable s v e b w stored p h
    error_answer (ok real, b) p h = reconcile_volume-accepted s v real b w stored p h

    -- A reconciliation is refused unless the row is in the error state, and then changes nothing. Else it asks
    -- the backend: an error leaves the row as it is. Without a volume the row becomes pending without a node,
    -- with a volume on no node available without a node, and with a volume on a node attached to that node;
    -- then the reconciliation is added to the audit trail.
    pub reconcile_volume_answer :
        reconcile_volume (local s) v.name w
        ≡ ite
            (State-discrete v.state State.error)
            (reconcile_answer (s.backend.get_volume v.name w.storage))
            (err (detail (sentinel invalid_transition) "reconcile requires error state"), w)
    reconcile_volume_answer = elim (State-discrete v.state State.error) [
      | yes p ↦ rw (if_pos _ p) (error_answer (s.backend.get_volume v.name w.storage) p refl)
      | no p ↦ rw (if_neg _ p) (reconcile_volume-refused s v w stored p)
    ]

    -- A pending row has no way out by a request: a create, delete, attach, detach or reconcile of its name
    -- fails. None of them changes the world, but that the attach writes its node to the row.
    pub pending_is_stuck :
        (size_mb : ℤ) (node_id : String)
        → v.state ≡ State.pending
        → ((e : Error) × (create_volume (local s) v.name size_mb w ≡ (err e, w)))
          × (delete_volume (local s) v.name w ≡ (err refused, w))
          × (attach_volume (local s) v.name node_id w ≡ (err refused, noded s v node_id w))
          × (detach_volume (local s) v.name w ≡ (err refused, w))
          × ((e : Error) × (reconcile_volume (local s) v.name w ≡ (err e, w)))
    pending_is_stuck size_mb node_id p = (
      elim (Bool-cases (is_not_positive size_mb)) [
        | inl q ↦ (_, create_volume-invalid s v.name size_mb w q)
        | inr q ↦ (_, create_volume-exists s v.name size_mb v w q stored)
      ],
      delete_volume-refused s v w stored (λ q. ground arith),
      attach_volume-refused s v node_id w stored (λ q. ground arith),
      detach_volume-refused s v w stored (λ q. ground arith),
      (_, reconcile_volume-refused s v w stored (λ q. ground arith)),
    )

  -- On a name that is not stored, a get, delete, attach, detach, reconcile or subscribe answers not found and
  -- changes nothing.
  pub missing_answers :
      (name node_id : String) (w : LocalWorld)
      → lookup name w.db.volumes ≡ none
      → (get_volume (local s) name w ≡ (err (not_found name), w))
        × (delete_volume (local s) name w ≡ (err (not_found name), w))
        × (attach_volume (local s) name node_id w ≡ (err (not_found name), w))
        × (detach_volume (local s) name w ≡ (err (not_found name), w))
        × (reconcile_volume (local s) name w ≡ (err (not_found name), w))
        × (subscribe (local s) name w ≡ (err (not_found name), w))
  unfolding get_volume delete_volume attach_volume detach_volume reconcile_volume subscribe ◌>>=◌
  missing_answers name node_id w h =
      let e = load_or_not_found-none s name w h in
      (
        e,
        ground (arith, e),
        ground (arith, e),
        ground (arith, e),
        ground (arith, e),
        ground (arith, e),
      )
