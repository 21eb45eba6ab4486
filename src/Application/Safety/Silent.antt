-- ===== src/Application/Safety/Silent.antt =====
-- The actions that leave the database alone.
use block_storage_api.Prelude.{ℕ, String, refl}
use block_storage_api.Errors.{Result}
use block_storage_api.Fsm.{Event}
use block_storage_api.Dependency.{DatabaseDependency}
use block_storage_api.Dependency.Contract.{DatabaseContract}
use block_storage_api.Broker.{EventBroker}
use block_storage_api.Application.World.{
  ◌>>=◌, Task, time_now, new_uuid, spawn, modify_broker, on_broker, on_backend, context_done, sleep,
}
use block_storage_api.Application.Safety.{Safe, Safe-silent}

module _ {D B : Type 0} {db : DatabaseDependency D} {c : DatabaseContract db}
    {may : String → Event → Type 0} where
  pub time_now-Safe :
      {P : D → Type 0} (clock : ℕ → ℕ) → Safe {B = B} c may P (time_now clock) (λ _. P)
  unfolding ◌>>=◌
  time_now-Safe clock = Safe-silent _ (λ w. refl)

  pub new_uuid-Safe :
      {P : D → Type 0} (uuids : ℕ → String) → Safe {B = B} c may P (new_uuid uuids) (λ _. P)
  unfolding ◌>>=◌
  new_uuid-Safe uuids = Safe-silent _ (λ w. refl)

  pub spawn-Safe : {P : D → Type 0} (t : Task) → Safe {B = B} c may P (spawn t) (λ _. P)
  unfolding ◌>>=◌
  spawn-Safe t = Safe-silent _ (λ w. refl)

  pub modify_broker-Safe :
      {P : D → Type 0} (f : EventBroker → EventBroker)
      → Safe {B = B} c may P (modify_broker f) (λ _. P)
  unfolding ◌>>=◌
  modify_broker-Safe f = Safe-silent _ (λ w. refl)

  pub on_broker-Safe :
      {A : Type 0} {P : D → Type 0} (f : EventBroker → A × EventBroker)
      → Safe {B = B} c may P (on_broker f) (λ _. P)
  unfolding ◌>>=◌
  on_broker-Safe f = Safe-silent _ (λ w. refl)

  pub on_backend-Safe :
      {A : Type 0} {P : D → Type 0} (f : B → Result A × B) → Safe c may P (on_backend f) (λ _. P)
  unfolding ◌>>=◌
  on_backend-Safe f = Safe-silent _ (λ w. refl)

  pub context_done-Safe : {P : D → Type 0} → Safe {B = B} c may P context_done (λ _. P)
  unfolding ◌>>=◌
  context_done-Safe = Safe-silent _ (λ w. refl)

  pub sleep-Safe : {P : D → Type 0} (wait : ℕ) → Safe {B = B} c may P (sleep wait) (λ _. P)
  unfolding ◌>>=◌
  sleep-Safe wait = Safe-silent _ (λ w. refl)
