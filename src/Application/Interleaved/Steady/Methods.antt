-- ===== src/Application/Interleaved/Steady/Methods.antt =====
-- Every program of volume/application.go is steady.
use block_storage_api.Prelude.{String, ◌≡◌, refl, subst, inl, inr, Option, some, ℤ}
use block_storage_api.Errors.{Result}
use block_storage_api.Storage.{Volume}
use block_storage_api.Fsm.{Event}
use block_storage_api.Broker.{EventBroker}
use block_storage_api.Broker.Laws.{IsValid, publish-IsValid, subscribe-IsValid}
use block_storage_api.Dependency.Contract.{DatabaseContract}
use block_storage_api.Application.World.{
  Application, World, Task, Operation, on_backend, on_broker, modify_broker, time_now, new_uuid,
  context_done, sleep, ◌>>=◌ as bind,
}
use block_storage_api.Application.World
use block_storage_api.Application.Operations.{new_volume, task_of}
use block_storage_api.Application.Safety.Rows.{SameRow-refl}
use block_storage_api.Application.Safety.Methods.{
  SameRow-event, SameRow-node, SameRow-align, align-IsTarget, other_state-error, edge-transition,
}
use block_storage_api.Application.Interleaved.{atom, ◌>>=◌}
use block_storage_api.Application.Interleaved.Programs.{
  load_or_not_found, apply_event, create_volume, delete_volume, attach_volume, detach_volume,
  reconcile_volume, subscribe,
}
use block_storage_api.Application.Interleaved.Steady.{
  Known, Known-as, Known-Steady, Holds, at_end, Holds-bind,
}
use block_storage_api.Application.Interleaved.Steady.Calls.{
  Holds-map_error, Holds-check, Holds-given, Holds-or_raise, Holds-silent, Holds-spawn,
}
use block_storage_api.Application.Interleaved.Steady.Database.{
  Loaded, load-Holds, update-Holds, save-Holds, save_event-Holds,
}

module _ {D B M : Type 0} (app : Application D B M) (c : DatabaseContract app.database) where
  clock-Holds : {d : D} → Holds {B = B} c (λ _ _. Unit) d (atom (time_now app.clock))
  unfolding bind
  clock-Holds = Holds-silent _ (λ w. (refl, refl, λ h. h))

  pub broker-Holds :
      (f : EventBroker → EventBroker) {d : D}
      → ((b : EventBroker) → IsValid b → IsValid (f b))
      → Holds {B = B} c (λ _ _. Unit) d (atom (modify_broker f))
  unfolding bind
  broker-Holds f k = Holds-silent _ (λ w. (refl, refl, k w.broker))

  on_broker-Holds :
      {A : Type 0} (f : EventBroker → A × EventBroker) {d : D}
      → ((b : EventBroker) → IsValid b → IsValid (f b).1)
      → Holds {B = B} c (λ _ _. Unit) d (atom (on_broker f))
  unfolding bind
  on_broker-Holds f k = Holds-silent _ (λ w. (refl, refl, k w.broker))

  uuid-Holds : {d : D} → Holds {B = B} c (λ _ _. Unit) d (atom (new_uuid app.uuids))
  unfolding bind
  uuid-Holds = Holds-silent _ (λ w. (refl, refl, λ h. h))

  pub backend-Holds :
      {A : Type 0} (f : B → Result A × B) {d : D} → Holds c (λ _ _. Unit) d (atom (on_backend f))
  unfolding bind
  backend-Holds f = Holds-silent _ (λ w. (refl, refl, λ h. h))

  pub loaded_again :
      (o : Option Volume) (name : String) (v : Volume) (d : D)
      → Loaded c name o d
      → o ≡ some v
      → Known c v d
  loaded_again o name v d h e = (subst (λ p. Loaded c name p d) e h).0

  pub load_or_not_found-Holds :
      (name : String) {d : D} → Holds {B = B} c (Known c) d (load_or_not_found app name)
  unfolding load_or_not_found
  load_or_not_found-Holds name =
      Holds-bind _ (Holds-map_error _ (load-Holds c name))
        λ o d _ h. Holds-or_raise o _ λ v e. loaded_again o name v d h e

  pub apply_event-Holds :
      (v : Volume) (e : Event) {d : D}
      → Known c v d
      → Holds {B = B} c (Known c) d (apply_event app v e)
  unfolding apply_event
  apply_event-Holds v e h = Holds-check _ _ λ _. Holds-given _ λ t moved.
      Holds-bind _ clock-Holds λ now d₁ s₁ _.
        let v' = record v { state = t; updated_at = now } in
        let here = Known-as (SameRow-event t now (SameRow-refl v)) (Known-Steady s₁ h) in
        Holds-bind _ (Holds-map_error _ (update-Holds c v' here)) λ _ d₂ _ k.
          Holds-bind _ (save_event-Holds c _ (inl (edge-transition app v.state t e moved)))
            λ _ d₃ s₃ _. Holds-bind _ clock-Holds λ stamp d₄ s₄ _.
              Holds-bind _ (broker-Holds _ (publish-IsValid _ _))
                λ _ d₅ s₅ _. at_end (Known-Steady s₅ (Known-Steady s₄ (Known-Steady s₃ k)))

  -- The event on a known volume, whatever others did since; then the goroutine of an operation.
  fire_and_spawn :
      (v : Volume) (e : Event) (o : Volume → Operation) {d : D}
      → Known c v d
      → Holds {B = B} c
          (λ _ _. Unit)
          d
          (apply_event app v e >>= λ v'. atom (World.spawn (task_of (o v'))))
  fire_and_spawn v e o h = Holds-bind _ (apply_event-Holds v e h) λ v' _ _ _. Holds-spawn (o v')

  pub create_volume-Holds :
      (name : String) (size_mb : ℤ) {d : D}
      → Holds {B = B} c (Known c) d (create_volume app name size_mb)
  unfolding create_volume
  create_volume-Holds name size_mb = Holds-check _ _ λ _.
      Holds-bind _ (Holds-map_error _ (load-Holds c name)) λ o _ _ _. Holds-check _ _ λ _.
        Holds-bind _ clock-Holds λ now _ _ _. Holds-bind _ uuid-Holds λ id _ _ _.
          Holds-bind _ (Holds-map_error _ (save-Holds c (new_volume app name size_mb now id)))
            λ _ _ _ h. Holds-bind _ (apply_event-Holds _ Event.create h) λ v' _ _ k.
              Holds-bind _ (Holds-spawn (Operation.create_volume name size_mb))
                λ _ _ s _. at_end (Known-Steady s k)

  pub delete_volume-Holds :
      (name : String) {d : D} → Holds {B = B} c (λ _ _. Unit) d (delete_volume app name)
  unfolding delete_volume
  delete_volume-Holds name =
      Holds-bind _ (load_or_not_found-Holds name)
        λ v _ _ h. fire_and_spawn v Event.delete (λ v'. Operation.delete_volume v'.name) h

  pub detach_volume-Holds :
      (name : String) {d : D} → Holds {B = B} c (λ _ _. Unit) d (detach_volume app name)
  unfolding detach_volume
  detach_volume-Holds name =
      Holds-bind _ (load_or_not_found-Holds name)
        λ v _ _ h. fire_and_spawn v Event.detach (λ v'. Operation.detach_volume v'.name) h

  pub attach_volume-Holds :
      (name node_id : String) {d : D}
      → Holds {B = B} c (λ _ _. Unit) d (attach_volume app name node_id)
  unfolding attach_volume
  attach_volume-Holds name node_id = Holds-bind _ (load_or_not_found-Holds name) λ v _ _ h.
      let v₁ = record v { node_id = node_id } in
      Holds-bind _ (Holds-map_error _ (update-Holds c v₁ (Known-as (SameRow-node v node_id) h)))
        λ _ _ _ k. fire_and_spawn v₁ Event.attach (λ v₂. Operation.attach_volume v₂.name node_id) k

  pub reconcile_volume-Holds :
      (name : String) {d : D} → Holds {B = B} c (Known c) d (reconcile_volume app name)
  unfolding reconcile_volume
  reconcile_volume-Holds name = Holds-bind _ (load_or_not_found-Holds name) λ v _ _ h.
      Holds-check _ _ λ failed. Holds-bind _ (Holds-map_error _ (backend-Holds _)) λ real _ s₁ _.
        Holds-bind _ clock-Holds λ now _ s₂ _.
          let here = Known-as (SameRow-align v real now) (Known-Steady s₂ (Known-Steady s₁ h)) in
          Holds-bind _ (Holds-map_error _ (update-Holds c _ here)) λ _ _ _ k.
            Holds-bind _
              (save_event-Holds c _
                (inr (refl, other_state-error v.state failed, align-IsTarget v real)))
              λ _ _ s₃ _. at_end (Known-Steady s₃ k)

  pub subscribe-Holds :
      (name : String) {d : D} → Holds {B = B} c (λ _ _. Unit) d (subscribe app name)
  unfolding subscribe
  subscribe-Holds name =
      Holds-bind _ (load_or_not_found-Holds name)
        λ v _ _ _. on_broker-Holds _ (subscribe-IsValid name)
