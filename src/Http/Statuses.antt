-- ===== src/Http/Statuses.antt =====
-- The statuses that the handlers answer over the repository in memory.
use mathlib.Core.Logic.{if_pos, if_neg}
use block_storage_api.Prelude.{
  ℕ, String, ◌≡◌, refl, ◌∙◌, ap, false, Option, none, some, List, ◌∷◌, arith, ite, ◌==◌, ℤ,
  is_not_positive, if◌then◌else◌, Bool-cases, inl, inr,
}
use block_storage_api.Prelude.Dict.{lookup}
use block_storage_api.Errors.{Error, Result, ok, err, Sentinel-discrete}
use block_storage_api.Storage.{State, State-discrete, Volume}
use block_storage_api.Dependency.{VolumeStateEvent}
use block_storage_api.Repository.InMemory.{InMemoryRepository}
use block_storage_api.Application.World.{World, Action, ◌>>=◌, ◌>>◌}
use block_storage_api.Application.Operations
use block_storage_api.Application.Local.{Setting, local, stamped}
use block_storage_api.Application.Local.Methods.{
  lookup-insert_self, load_or_not_found-some, noded, delete_volume-accepted, delete_volume-refused,
  detach_volume-accepted, detach_volume-refused, attach_volume-accepted, attach_volume-refused,
  reconcile_volume-refused,
}
use block_storage_api.Application.Local.Answers.{
  create_answer, create_volume_answer, reconcile_answer, error_answer, refused,
}
use block_storage_api.Http.{
  Response, CreateVolumeRequest, create_volume, attach_volume, detach_volume, delete_volume,
  reconcile_volume, volume, to_response, map_app_error, write_json, literal, respond,
}
use block_storage_api.Http.Stream
use block_storage_api.Broker.{subscribe}

-- A name that is taken is a conflict.
abbrev pub taken_or_created : Option Volume → ℕ
taken_or_created (some _) = 409
taken_or_created none = 201

abbrev pub backend_status : Result (Option Volume) → ℕ
backend_status (ok _) = 200
backend_status (err _) = 503

abbrev accepted : Volume → Response
accepted v = write_json 202 (volume (to_response v))

abbrev shown : Volume → Response
shown v = write_json 200 (volume (to_response v))

module _ {B M : Type 0} (s : Setting B M) where
  abbrev LocalWorld : Type 0
  LocalWorld = World InMemoryRepository B

  then_get :
      (m : Action InMemoryRepository B (Unit {0})) (name : String) (u : Volume) (w w' : LocalWorld)
      → m w ≡ (ok tt, w')
      → lookup name w'.db.volumes ≡ some u
      → (m >> Operations.get_volume (local s) name) w ≡ (ok u, w')
  unfolding ◌>>=◌ Operations.get_volume
  then_get m name u w w' e h = ground (arith, load_or_not_found-some s name u w' h)

  no_get :
      (m : Action InMemoryRepository B (Unit {0})) (name : String) (e : Error) (w w' : LocalWorld)
      → m w ≡ (err e, w')
      → (m >> Operations.get_volume (local s) name) w ≡ (err e, w')
  unfolding ◌>>=◌
  no_get m name e w w' h = ground arith

  create_answer_status :
      (o : Option Volume) (name : String) (size_mb : ℤ) (w : LocalWorld)
      → (respond
          (λ v. write_json 201 (volume (to_response v)))
          (create_answer s o name size_mb w).0).status
        ≡ taken_or_created o
  unfolding map_app_error Sentinel-discrete
  create_answer_status (some v) name size_mb w = refl
  create_answer_status none name size_mb w = refl

  -- A create answers 400 for an empty name or a size that is not positive, 409 for a name that is
  -- stored, and else 201.
  create_volume_status :
      (req : CreateVolumeRequest) (w : LocalWorld)
      → (create_volume (local s) (some req) w).0.status ≡ (
          if req.name == ""
          then 400
          else if is_not_positive req.size_mb
          then 400
          else taken_or_created (lookup req.name w.db.volumes))
  unfolding create_volume
  create_volume_status req w = elim (Bool-cases (req.name == "")) [
    | inl e ↦ rw e refl
    | inr e ↦ elim (Bool-cases (is_not_positive req.size_mb)) [
      | inl p ↦ rw (e, p) refl
      | inr p ↦
          rw (e, create_volume_answer s req.name req.size_mb w, p)
            (create_answer_status (lookup req.name w.db.volumes) req.name req.size_mb w)
    ]
  ]

  reconcile_answer_status :
      (v : Volume) (w : LocalWorld) (h : lookup v.name w.db.volumes ≡ some v)
      (x : Result (Option Volume) × B)
      → (respond
          (λ u. write_json 200 (volume (to_response u)))
          (reconcile_answer s v w h x).0).status
        ≡ backend_status x.0
  unfolding map_app_error Sentinel-discrete
  reconcile_answer_status v w h (ok real, b) = refl
  reconcile_answer_status v w h (err e, b) = refl

  module _ (v : Volume) (w : LocalWorld) (stored : lookup v.name w.db.volumes ≡ some v) where
    delete_status :
        (delete_volume (local s) v.name w).0.status
        ≡ ite (State-discrete v.state State.available) 202 409
    unfolding delete_volume map_app_error Sentinel-discrete
    delete_status = elim (State-discrete v.state State.available) [
      | yes p ↦ rw (delete_volume-accepted s v w stored p, if_pos _ p) refl
      | no p ↦ rw (delete_volume-refused s v w stored p, if_neg _ p) refl
    ]

    reconcile_status :
        (reconcile_volume (local s) v.name w).0.status
        ≡ ite
            (State-discrete v.state State.error)
            (backend_status (s.backend.get_volume v.name w.storage).0)
            409
    unfolding reconcile_volume map_app_error Sentinel-discrete
    reconcile_status = elim (State-discrete v.state State.error) [
      | yes p ↦
          let x = s.backend.get_volume v.name w.storage in
          rw (if_pos _ p) (
            ap (λ y. (respond shown y.0).status) (error_answer s v w stored x p refl)
            ∙ reconcile_answer_status v w stored x)
      | no p ↦ rw (reconcile_volume-refused s v w stored p, if_neg _ p) refl
    ]

    detach_status :
        (detach_volume (local s) v.name w).0.status
        ≡ ite (State-discrete v.state State.attached) 202 409
    unfolding detach_volume map_app_error Sentinel-discrete
    detach_status = elim (State-discrete v.state State.attached) [
      | yes p ↦ rw (if_pos _ p) (
          ap (λ y. (respond accepted y.0).status)
            (then_get _ v.name (stamped s v State.detaching w) w _
              (detach_volume-accepted s v w stored p)
              (lookup-insert_self (stamped s v State.detaching w) w.db.volumes)))
      | no p ↦ rw (if_neg _ p) (
          ap (λ y. (respond accepted y.0).status)
            (no_get _ v.name refused w w (detach_volume-refused s v w stored p)))
    ]

    attach_status :
        (node_id : String)
        → node_id == "" ≡ false
        → (attach_volume (local s) v.name (some (record { node_id = node_id })) w).0.status
          ≡ ite (State-discrete v.state State.available) 202 409
    unfolding attach_volume map_app_error Sentinel-discrete
    attach_status node_id q = elim (State-discrete v.state State.available) [
      | yes p ↦
          let u =
            stamped s (record v { node_id = node_id }) State.attaching (noded s v node_id w) in
          rw (q, if_pos _ p)
            (ap (λ y. (respond accepted y.0).status)
              (then_get _ v.name u w _ (attach_volume-accepted s v node_id w stored p)
                (lookup-insert_self u (noded s v node_id w).db.volumes)))
      | no p ↦
          rw (q, if_neg _ p)
            (ap (λ y. (respond accepted y.0).status)
              (no_get _ v.name refused w (noded s v node_id w)
                (attach_volume-refused s v node_id w stored p)))
    ]

    -- On a stored row, with a node that is not empty, a delete and an attach answer 202 if the row is
    -- available and else 409; a detach answers 202 if it is attached and else 409; a reconcile answers
    -- 409 unless the row is in the error state, and then 503 if the backend returns an error and
    -- else 200.
    pub stored_statuses :
        (node_id : String)
        → node_id == "" ≡ false
        → ((delete_volume (local s) v.name w).0.status
            ≡ ite (State-discrete v.state State.available) 202 409)
          × ((attach_volume (local s) v.name (some (record { node_id = node_id })) w).0.status
              ≡ ite (State-discrete v.state State.available) 202 409)
          × ((detach_volume (local s) v.name w).0.status
              ≡ ite (State-discrete v.state State.attached) 202 409)
          × ((reconcile_volume (local s) v.name w).0.status
              ≡ ite
                  (State-discrete v.state State.error)
                  (backend_status (s.backend.get_volume v.name w.storage).0)
                  409)
    stored_statuses node_id q =
        (delete_status, attach_status node_id q, detach_status, reconcile_status)

  -- The stream of a stored row sends as many frames as the client takes of the whole stream of the
  -- current state and of what the channel gives: each event up to the first in a terminal state, and
  -- then, if there is one, that event as the end. It is a 500 if no writer of the chain can flush.
  pub stream_volume_events_answer :
      (v : Volume) (writer : Stream.Writer) (inbox : List VolumeStateEvent) (writes : ℕ)
      (w : LocalWorld)
      → lookup v.name w.db.volumes ≡ some v
      → (Stream.stream_volume_events (local s) v.name writer inbox writes w).0 ≡ (
          if Stream.unwrap_flusher writer
          then Stream.streamed (
              Stream.take writes
                (Stream.whole_stream (Stream.current (local s) v (s.clock w.readings) ∷ inbox)))
          else Stream.refused (write_json 500 (literal "streaming not supported")))
  unfolding Stream.stream_volume_events Operations.subscribe Operations.get_volume
      Operations.unsubscribe ◌>>=◌
  stream_volume_events_answer v writer inbox writes w h = ground (
    arith,
    load_or_not_found-some s v.name v w h,
    load_or_not_found-some s v.name v (record w { broker = (subscribe v.name w.broker).1 }) h,
    Stream.receive-take (Stream.current (local s) v (s.clock w.readings) ∷ inbox) writes,
  )
