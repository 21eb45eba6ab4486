-- ===== src/Application/Interleaved/Ends.antt =====
-- How many steps a program takes at most, whatever others do to the world between them.
pub mod Methods
use block_storage_api.Prelude.{
  ℕ, zero, suc, ◌+◌, ◌≤◌, ◌≡◌, refl, subst, ap, String, Option, none, some, Bool, true, false,
  arith, if◌then◌else◌,
}
use block_storage_api.Errors.{Error, Result, ok, err}
use block_storage_api.Application.World.{
  World, Task, on_db, on_backend, on_broker, modify_broker, spawn, time_now, new_uuid, context_done,
  sleep, tick, ◌>>=◌ as bind,
}
use block_storage_api.Broker.{EventBroker}
use block_storage_api.Application.Interleaved.{
  Program, ended, step, atom, refuse_if, or_raise, map_error, catch, attempt, ◌>>=◌, ◌>>◌,
}

-- The program ends after at most so many steps, and no step revives a cancelled context.
pub data Within {D B A : Type 0} : ℕ → Program D B A → Type 0 where
  at_end : {n : ℕ} {r : Result A} → Within n (ended r)
  at_step :
      {n : ℕ} {t : World D B → World D B} {k : World D B → Program D B A}
      → ((w : World D B) → w.done_after ≡ some 0 → (t w).done_after ≡ some 0)
      → ((w : World D B) → Within n (k w))
      → Within (suc n) (step t k)

module _ {D B : Type 0} where
  pub Within-more : {A : Type 0} {n : ℕ} {p : Program D B A} (m : ℕ) → Within n p → Within (n + m) p
  Within-more m at_end = at_end
  Within-more {p = p} m (at_step {n} c h) =
      subst (λ i. Within i p) (omega arith) (at_step c (λ w. Within-more m (h w)))

  pub Within-bind :
      {A C : Type 0} {n m : ℕ} {p : Program D B A} {f : A → Program D B C}
      → Within n p
      → ((a : A) → Within m (f a))
      → Within (n + m) (p >>= f)
  unfolding ◌>>=◌
  Within-bind {n = n} {m} {f = f} (at_end {r = ok a}) k =
      subst (λ i. Within i (f a)) (omega arith) (Within-more n (k a))
  Within-bind (at_end {r = err e}) k = at_end
  Within-bind {m = m} {p} {f} (at_step {n} c h) k =
      subst (λ i. Within i (p >>= f)) (omega arith) (at_step c (λ w. Within-bind (h w) k))

  pub Within-map_error :
      {A : Type 0} {n : ℕ} (f : Error → Error) {p : Program D B A}
      → Within n p
      → Within n (map_error f p)
  unfolding map_error
  Within-map_error f at_end = at_end
  Within-map_error f (at_step c h) = at_step c (λ w. Within-map_error f (h w))

  pub Within-catch : {A : Type 0} {n : ℕ} {p : Program D B A} → Within n p → Within n (catch p)
  unfolding catch
  Within-catch at_end = at_end
  Within-catch (at_step c h) = at_step c (λ w. Within-catch (h w))

  pub Within-attempt : {A : Type 0} {n : ℕ} {p : Program D B A} → Within n p → Within n (attempt p)
  unfolding attempt
  Within-attempt at_end = at_end
  Within-attempt (at_step c h) = at_step c (λ w. Within-attempt (h w))

  pub Within-db : {A : Type 0} (f : D → Result A × D) → Within {D = D} {B = B} 1 (atom (on_db f))
  unfolding bind
  Within-db f = at_step {n = 0} (λ w h. h) (λ w. at_end)

  pub Within-backend :
      {A : Type 0} (f : B → Result A × B) → Within {D = D} {B = B} 1 (atom (on_backend f))
  unfolding bind
  Within-backend f = at_step {n = 0} (λ w h. h) (λ w. at_end)

  pub Within-broker :
      (f : EventBroker → EventBroker) → Within {D = D} {B = B} 1 (atom (modify_broker f))
  unfolding bind
  Within-broker f = at_step {n = 0} (λ w h. h) (λ w. at_end)

  pub Within-subscription :
      {A : Type 0} (f : EventBroker → A × EventBroker)
      → Within {D = D} {B = B} 1 (atom (on_broker f))
  unfolding bind
  Within-subscription f = at_step {n = 0} (λ w h. h) (λ w. at_end)

  pub Within-clock : (f : ℕ → ℕ) → Within {D = D} {B = B} 1 (atom (time_now f))
  unfolding bind
  Within-clock f = at_step {n = 0} (λ w h. h) (λ w. at_end)

  pub Within-uuid : (f : ℕ → String) → Within {D = D} {B = B} 1 (atom (new_uuid f))
  unfolding bind
  Within-uuid f = at_step {n = 0} (λ w h. h) (λ w. at_end)

  pub Within-spawn : (t : Task) → Within {D = D} {B = B} 1 (atom (spawn t))
  unfolding bind
  Within-spawn t = at_step {n = 0} (λ w h. h) (λ w. at_end)

  pub Within-sleep : (wait : ℕ) → Within {D = D} {B = B} 1 (atom (sleep wait))
  unfolding bind
  Within-sleep wait = at_step {n = 0} (λ w h. h) (λ w. at_end)

  pub Within-context_done : Within {D = D} {B = B} 1 (atom context_done)
  unfolding bind
  Within-context_done = at_step {n = 0} (λ w h. ap tick h) (λ w. at_end)

  -- A guard takes no step.
  pub Within-check :
      {C : Type 0} {n : ℕ} (b : Bool) (e : Error) {p : Program D B C}
      → Within n p
      → Within n (refuse_if b e >> p)
  unfolding ◌>>=◌
  Within-check true e h = at_end
  Within-check false e h = h

  pub Within-or_raise :
      {A : Type 0} {n : ℕ} (o : Option A) (e : Error) → Within {D = D} {B = B} n (or_raise o e)
  Within-or_raise none e = at_end
  Within-or_raise (some a) e = at_end

  pub Within-if :
      {A : Type 0} {n : ℕ} (b : Bool) {p q : Program D B A}
      → Within n p
      → Within n q
      → Within n (if b then p else q)
  Within-if true h k = h
  Within-if false h k = k
