-- ===== src/Application/Interleaved/Alone.antt =====
-- A program that nothing interrupts is the method that it stands for: the rules.
pub mod Methods
use block_storage_api.Prelude.{
  ℕ, zero, suc, ◌+◌, String, ◌≡◌, refl, ◌∙◌, ap, subst, Bool, true, false, Option, none, some, ℤ,
  if◌then◌else◌,
}
use block_storage_api.Errors.{Error, Result, ok, err, Outcome}
use block_storage_api.Storage.{Volume}
use block_storage_api.Fsm.{Event}
use block_storage_api.Application.World.{
  World, Action, Application, Task, ◌>>=◌ as bind, map_result, refuse_if, or_raise, lift, pure,
  map_error, catch, attempt,
}
use block_storage_api.Application.Operations
use block_storage_api.Application.Operations.{task_of}
use block_storage_api.Application.Retry
use block_storage_api.Application.History.{Request, serve}
use block_storage_api.Application.Interleaved
use block_storage_api.Application.Interleaved.{Program, ended, step, atom, run, ◌>>=◌}
use block_storage_api.Application.Interleaved.Programs

module _ {D B : Type 0} where
  -- The program does what the action does.
  abbrev pub Same : {A : Type 0} → Program D B A → Action D B A → Type 0
  Same p m = (w : World D B) → run p w ≡ m w

  module _ {A C : Type 0} (f : A → Program D B C) (g : A → Action D B C)
      (k : (a : A) → Same (f a) (g a)) where
    pub bind-Same :
        (p : Program D B A) (w : World D B) (x : Result A × World D B)
        → run p w ≡ x
        → run (p >>= f) w ≡ elim x.0 [ ok a ↦ g a x.1 | err e ↦ (err e, x.1) ]
    unfolding run ◌>>=◌
    bind-Same (ended (ok a)) w x h =
        subst (λ y. run (f a) w ≡ elim y.0 [ ok a ↦ g a y.1 | err e ↦ (err e, y.1) ]) h (k a w)
    bind-Same (ended (err e)) w x h =
        subst (λ y. (err e, w) ≡ elim y.0 [ ok a ↦ g a y.1 | err e ↦ (err e, y.1) ]) h refl
    bind-Same (step t c) w x h = bind-Same (c w) (t w) x h

    pub Same-bind : (p : Program D B A) (m : Action D B A) → Same p m → Same (p >>= f) (bind m g)
    unfolding bind
    Same-bind p m h w = bind-Same p w (m w) (h w)

  pub Same-refuse_if : (b : Bool) (e : Error) → Same (Interleaved.refuse_if b e) (refuse_if b e)
  unfolding run bind
  Same-refuse_if true e w = refl
  Same-refuse_if false e w = refl

  module _ {A : Type 0} where
    pub Same-atom : (m : Action D B A) → Same (atom m) m
    unfolding run
    Same-atom m w = refl

    pub Same-ended : (r : Result A) → Same (ended r) (lift r)
    unfolding run bind
    Same-ended r w = refl

    pub Same-pure : (a : A) → Same (Interleaved.pure a) (pure a)
    unfolding run bind
    Same-pure a w = refl

    pub Same-or_raise : (o : Option A) (e : Error) → Same (Interleaved.or_raise o e) (or_raise o e)
    unfolding run bind
    Same-or_raise none e w = refl
    Same-or_raise (some a) e w = refl

    run-map_error :
        (f : Error → Error) (p : Program D B A) (w : World D B)
        → run (Interleaved.map_error f p) w ≡ map_error f (run p) w
    unfolding run Interleaved.map_error bind
    run-map_error f (ended r) w = refl
    run-map_error f (step t k) w = run-map_error f (k w) (t w)

    pub Same-map_error :
        (f : Error → Error) (p : Program D B A) (m : Action D B A)
        → Same p m
        → Same (Interleaved.map_error f p) (map_error f m)
    unfolding bind
    Same-map_error f p m h w = run-map_error f p w ∙ ap (λ x. (map_result f x.0, x.1)) (h w)

    run-catch : (p : Program D B A) (w : World D B) → run (Interleaved.catch p) w ≡ catch (run p) w
    unfolding run Interleaved.catch bind
    run-catch (ended r) w = refl
    run-catch (step t k) w = run-catch (k w) (t w)

    pub Same-catch :
        (p : Program D B A) (m : Action D B A) → Same p m → Same (Interleaved.catch p) (catch m)
    unfolding bind
    Same-catch p m h w = run-catch p w ∙ ap (λ x. (ok x.0, x.1)) (h w)

    run-attempt :
        (p : Program D B A) (w : World D B) → run (Interleaved.attempt p) w ≡ attempt (run p) w
    unfolding run Interleaved.attempt bind
    run-attempt (ended r) w = refl
    run-attempt (step t k) w = run-attempt (k w) (t w)

    pub Same-attempt :
        (p : Program D B A) (m : Action D B A) → Same p m → Same (Interleaved.attempt p) (attempt m)
    unfolding bind
    Same-attempt p m h w = run-attempt p w ∙ ap (λ x. (ok tt, x.1)) (h w)

    pub Same-if :
        (b : Bool) (p q : Program D B A) (m n : Action D B A)
        → Same p m
        → Same q n
        → Same (if b then p else q) (if b then m else n)
    Same-if true p q m n h k = h
    Same-if false p q m n h k = k

pub ruleset alone = (
  Same-bind, Same-refuse_if, Same-atom, Same-ended, Same-pure, Same-or_raise, Same-map_error,
  Same-catch, Same-attempt, Same-if,
)
