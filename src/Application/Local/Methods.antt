-- ===== src/Application/Local/Methods.antt =====
-- What each request does to the repository in memory.
use block_storage_api.Prelude.{
  suc, String, ◌≡◌, ◌≢◌, Bool, ◌==◌, refl, ◌∙◌, ap, true, false, Option, none, some, List, [], ◌∷◌,
  ◌++◌, arith, ℤ, is_not_positive, eq_refl,
}
use block_storage_api.Prelude.Dict.{lookup, insert, lookup-insert}
use block_storage_api.Errors.{
  Error, ok, err, sentinel, detail, invalid_transition, invalid_size, volume_exists,
  volume_not_found, annotate, backend_unavailable,
}
use block_storage_api.Storage.{State, State-discrete, Volume}
use block_storage_api.Fsm.{Event}
use block_storage_api.Fsm.Graph.{edge}
use block_storage_api.Repository.InMemory.{
  InMemoryRepository, update_volume, save_event, load_volume, save_volume,
}
use block_storage_api.Application.World.{World, Operation, ◌>>=◌}
use block_storage_api.Application.Operations.{
  create_volume, delete_volume, attach_volume, detach_volume, reconcile_volume, load_or_not_found,
  task_of, align,
}
use block_storage_api.Application.Local.{
  Setting, local, stamped, fired, apply_event-fired, apply_event-refused,
}

pub lookup-insert_self :
    (v : Volume) (m : List (String × Volume)) → lookup v.name (insert v.name v m) ≡ some v
lookup-insert_self v m = lookup-insert v.name v.name v m ∙ rw (eq_refl v.name) refl

pub lookup-insert_named :
    (name : String) (v : Volume) (m : List (String × Volume))
    → name ≡ v.name
    → lookup name (insert v.name v m) ≡ some v
lookup-insert_named name v m n = rw n (lookup-insert_self v m)

-- The state and the node of a row, by what the backend holds under its name.
abbrev table_of : Bool → String → State × String
table_of true node_id = (State.available, "")
table_of false node_id = (State.attached, node_id)

abbrev placed : Option Volume → State × String
placed none = (State.pending, "")
placed (some real) = table_of (real.node_id == "") real.node_id

-- The row of a reconciliation: pending without a node if the backend has no volume, available without a
-- node if its volume is on no node, and attached to the node of its volume otherwise.
unfoldable pub aligned : Volume → Option Volume → Volume
aligned v real = record v { state = (placed real).0; node_id = (placed real).1 }

align_lem : (v : Volume) (real : Option Volume) → align v real ≡ aligned v real
unfolding align aligned
align_lem v none = refl
align_lem v (some real) = ground arith

module _ {B M : Type 0} (s : Setting B M) where
  -- The row of a create: the next id, no node, and the instant of the request twice.
  abbrev pub pending_row : String → ℤ → World InMemoryRepository B → Volume
  pending_row name size_mb w = record {
    id = s.uuids w.issued;
    name = name;
    size_mb = size_mb;
    state = State.pending;
    backend = s.backend.backend_name;
    node_id = "";
    created_at = s.clock w.readings;
    updated_at = s.clock w.readings;
  }

  -- The world in which `CreateVolume` has saved its new row.
  abbrev pub saved : String → ℤ → World InMemoryRepository B → World InMemoryRepository B
  saved name size_mb w = record w {
    db = record w.db { volumes = insert name (pending_row name size_mb w) w.db.volumes };
    readings = suc w.readings;
    issued = suc w.issued;
  }

  abbrev pub spawned : Operation → World InMemoryRepository B → World InMemoryRepository B
  spawned o w = record w { tasks = w.tasks ++ task_of o ∷ [] }

  pub create_volume-accepted :
      (name : String) (size_mb : ℤ) (w : World InMemoryRepository B)
      → is_not_positive size_mb ≡ false
      → lookup name w.db.volumes ≡ none
      → let v = pending_row name size_mb w in
        let w₁ = saved name size_mb w in
        create_volume (local s) name size_mb w ≡ (
          ok (stamped s v State.creating w₁),
          spawned (Operation.create_volume name size_mb) (fired s v Event.create State.creating w₁),
        )
  unfolding create_volume ◌>>=◌ load_volume save_volume
  create_volume-accepted name size_mb w positive free =
      let v = pending_row name size_mb w in
      ground (
        arith,
        apply_event-fired s v v Event.create State.creating (saved name size_mb w) refl
            (lookup-insert_self v w.db.volumes),
      )

  pub load_or_not_found-some :
      (name : String) (v : Volume) (w : World InMemoryRepository B)
      → lookup name w.db.volumes ≡ some v
      → load_or_not_found (local s) name w ≡ (ok v, w)
  unfolding load_or_not_found ◌>>=◌ load_volume
  load_or_not_found-some name v w h = ground arith

  pub load_or_not_found-none :
      (name : String) (w : World InMemoryRepository B)
      → lookup name w.db.volumes ≡ none
      → load_or_not_found (local s) name w ≡ (err (detail (sentinel volume_not_found) name), w)
  unfolding load_or_not_found ◌>>=◌ load_volume
  load_or_not_found-none name w h = ground arith

  pub delete_volume-accepted :
      (v : Volume) (w : World InMemoryRepository B)
      → lookup v.name w.db.volumes ≡ some v
      → v.state ≡ State.available
      → delete_volume (local s) v.name w ≡ (
        ok tt,
        spawned (Operation.delete_volume v.name) (fired s v Event.delete State.deleting w),
      )
  unfolding delete_volume ◌>>=◌
  delete_volume-accepted v w h a = ground (
    arith,
    load_or_not_found-some v.name v w h,
    apply_event-fired s v v Event.delete State.deleting w (ap (λ t. edge t Event.delete) a) h,
  )

  pub delete_volume-refused :
      (v : Volume) (w : World InMemoryRepository B)
      → lookup v.name w.db.volumes ≡ some v
      → v.state ≢ State.available
      → delete_volume (local s) v.name w ≡ (err (detail (sentinel invalid_transition) "cannot"), w)
  unfolding delete_volume ◌>>=◌
  delete_volume-refused v w h a = ground (
    arith,
    load_or_not_found-some v.name v w h,
    apply_event-refused s v Event.delete w (ground arith),
  )

  pub detach_volume-accepted :
      (v : Volume) (w : World InMemoryRepository B)
      → lookup v.name w.db.volumes ≡ some v
      → v.state ≡ State.attached
      → detach_volume (local s) v.name w ≡ (
        ok tt,
        spawned (Operation.detach_volume v.name) (fired s v Event.detach State.detaching w),
      )
  unfolding detach_volume ◌>>=◌
  detach_volume-accepted v w h a = ground (
    arith,
    load_or_not_found-some v.name v w h,
    apply_event-fired s v v Event.detach State.detaching w (ap (λ t. edge t Event.detach) a) h,
  )

  pub detach_volume-refused :
      (v : Volume) (w : World InMemoryRepository B)
      → lookup v.name w.db.volumes ≡ some v
      → v.state ≢ State.attached
      → detach_volume (local s) v.name w ≡ (err (detail (sentinel invalid_transition) "cannot"), w)
  unfolding detach_volume ◌>>=◌
  detach_volume-refused v w h a = ground (
    arith,
    load_or_not_found-some v.name v w h,
    apply_event-refused s v Event.detach w (ground arith),
  )

  -- The world in which `AttachVolume` has recorded the node of its request.
  abbrev pub noded : Volume → String → World InMemoryRepository B → World InMemoryRepository B
  noded v node_id w = record w {
    db = record w.db { volumes = insert v.name (record v { node_id = node_id }) w.db.volumes };
  }

  pub attach_volume-accepted :
      (v : Volume) (node_id : String) (w : World InMemoryRepository B)
      → lookup v.name w.db.volumes ≡ some v
      → v.state ≡ State.available
      → attach_volume (local s) v.name node_id w ≡ (
        ok tt,
        spawned (Operation.attach_volume v.name node_id) (
            fired s
              (record v { node_id = node_id })
              Event.attach
              State.attaching
              (noded v node_id w)),
      )
  unfolding attach_volume ◌>>=◌ update_volume
  attach_volume-accepted v node_id w h a =
      let v₁ = record v { node_id = node_id } in
      ground (
        arith,
        load_or_not_found-some v.name v w h,
        apply_event-fired s v₁ v₁ Event.attach State.attaching (noded v node_id w)
            (ap (λ t. edge t Event.attach) a) (lookup-insert_self v₁ w.db.volumes),
      )

  pub attach_volume-refused :
      (v : Volume) (node_id : String) (w : World InMemoryRepository B)
      → lookup v.name w.db.volumes ≡ some v
      → v.state ≢ State.available
      → attach_volume (local s) v.name node_id w
        ≡ (err (detail (sentinel invalid_transition) "cannot"), noded v node_id w)
  unfolding attach_volume ◌>>=◌ update_volume
  attach_volume-refused v node_id w h a =
      let v₁ = record v { node_id = node_id } in
      ground (
        arith,
        load_or_not_found-some v.name v w h,
        apply_event-refused s v₁ Event.attach (noded v node_id w) (ground arith),
      )

  pub reconcile_volume-refused :
      (v : Volume) (w : World InMemoryRepository B)
      → lookup v.name w.db.volumes ≡ some v
      → v.state ≢ State.error
      → reconcile_volume (local s) v.name w
        ≡ (err (detail (sentinel invalid_transition) "reconcile requires error state"), w)
  unfolding reconcile_volume ◌>>=◌ State-discrete
  reconcile_volume-refused v w h a = ground (arith, load_or_not_found-some v.name v w h)

  pub reconcile_volume-unavailable :
      (v : Volume) (e : Error) (b : B) (w : World InMemoryRepository B)
      → lookup v.name w.db.volumes ≡ some v
      → v.state ≡ State.error
      → s.backend.get_volume v.name w.storage ≡ (err e, b)
      → reconcile_volume (local s) v.name w
        ≡ (err (annotate (sentinel backend_unavailable) e), record w { storage = b })
  unfolding reconcile_volume ◌>>=◌ State-discrete
  reconcile_volume-unavailable v e b w h a g = ground (arith, load_or_not_found-some v.name v w h)

  -- The world after a reconciliation that has made `u` of `v`, with the backend now in the state `b`.
  abbrev pub realigned :
      Volume → Volume → B → World InMemoryRepository B → World InMemoryRepository B
  realigned u v b w = record w {
    db = record {
      volumes = insert v.name (record u { updated_at = s.clock w.readings }) w.db.volumes;
      events =
          w.db.events
          ++ record {
            volume_id = v.id;
            event = Event.reconcile;
            from_state = v.state;
            to_state = u.state;
          }
            ∷ [];
    };
    storage = b;
    readings = suc w.readings;
  }

  -- The world after a reconciliation of `v`, and its result, if `u` is made of `v`.
  abbrev Reconciled : Volume → Volume → B → World InMemoryRepository B → Type 0
  Reconciled u v b w =
      reconcile_volume (local s) v.name w
      ≡ (ok (record u { updated_at = s.clock w.readings }), realigned u v b w)

  reconcile_volume-align :
      (v : Volume) (real : Option Volume) (b : B) (w : World InMemoryRepository B)
      → lookup v.name w.db.volumes ≡ some v
      → v.state ≡ State.error
      → s.backend.get_volume v.name w.storage ≡ (ok real, b)
      → Reconciled (align v real) v b w
  unfolding reconcile_volume ◌>>=◌ State-discrete update_volume save_event
  reconcile_volume-align v real b w h a g = ground (arith, load_or_not_found-some v.name v w h)

  pub reconcile_volume-accepted :
      (v : Volume) (real : Option Volume) (b : B) (w : World InMemoryRepository B)
      → lookup v.name w.db.volumes ≡ some v
      → v.state ≡ State.error
      → s.backend.get_volume v.name w.storage ≡ (ok real, b)
      → Reconciled (aligned v real) v b w
  reconcile_volume-accepted v real b w h a g =
      rw (← align_lem v real) (reconcile_volume-align v real b w h a g)

  pub create_volume-exists :
      (name : String) (size_mb : ℤ) (v : Volume) (w : World InMemoryRepository B)
      → is_not_positive size_mb ≡ false
      → lookup name w.db.volumes ≡ some v
      → create_volume (local s) name size_mb w ≡ (err (detail (sentinel volume_exists) name), w)
  unfolding create_volume ◌>>=◌ load_volume
  create_volume-exists name size_mb v w positive h = ground arith

  pub create_volume-invalid :
      (name : String) (size_mb : ℤ) (w : World InMemoryRepository B)
      → is_not_positive size_mb ≡ true
      → create_volume (local s) name size_mb w ≡ (err (sentinel invalid_size), w)
  unfolding create_volume ◌>>=◌
  create_volume-invalid name size_mb w h = ground arith
