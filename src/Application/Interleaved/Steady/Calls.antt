-- ===== src/Application/Interleaved/Steady/Calls.antt =====
-- The rules for single steps: the guards, and the calls of the database, the backend and the broker.
use block_storage_api.Prelude.{
  ◌≡◌, refl, sym, subst, Option, none, some, [], ◌∷◌, All, All-append, Bool, true, false,
  if◌then◌else◌,
}
use block_storage_api.Errors.{Error, Result, ok, err}
use block_storage_api.Dependency.{DatabaseDependency}
use block_storage_api.Broker.Laws.{IsValid}
use block_storage_api.Dependency.Contract.{DatabaseContract}
use block_storage_api.Application.World.{World, Action, Operation, on_db, spawn, ◌>>=◌ as bind}
use block_storage_api.Application.Operations.{task_of}
use block_storage_api.Application.Safety.{IsSound, Gives, Gives-always}
use block_storage_api.Application.History.{task_of-IsPostSuccess}
use block_storage_api.Application.Interleaved.{
  Program, ended, atom, refuse_if, or_raise, map_error, catch, attempt, ◌>>=◌, ◌>>◌,
}
use block_storage_api.Application.Interleaved.Steady.{Steady, Steady-refl, Holds, at_end, at_step}

module _ {D B : Type 0} {db : DatabaseDependency D} {c : DatabaseContract db} where
  pub Holds-map_error :
      {A : Type 0} {Q : A → D → Type 0} (f : Error → Error) {p : Program D B A} {d : D}
      → Holds c Q d p
      → Holds c Q d (map_error f p)
  unfolding map_error
  Holds-map_error f (at_end {r = ok a} h) = at_end h
  Holds-map_error f (at_end {r = err e} h) = at_end tt
  Holds-map_error f (at_step g s h) = at_step g s (λ w fine s₀. Holds-map_error f (h w fine s₀))

  pub Holds-catch :
      {A : Type 0} {Q : A → D → Type 0} {p : Program D B A} {d : D}
      → Holds c Q d p
      → Holds c (λ r. Gives Q r) d (catch p)
  unfolding catch
  Holds-catch (at_end h) = at_end h
  Holds-catch (at_step g s h) = at_step g s (λ w fine s₀. Holds-catch (h w fine s₀))

  pub Holds-attempt :
      {A : Type 0} {Q : A → D → Type 0} {p : Program D B A} {d : D}
      → Holds c Q d p
      → Holds c (λ _ _. Unit) d (attempt p)
  unfolding attempt
  Holds-attempt (at_end h) = at_end tt
  Holds-attempt (at_step g s h) = at_step g s (λ w fine s₀. Holds-attempt (h w fine s₀))

  pub Holds-after :
      {A : Type 0} {Q Q' : A → D → Type 0} {p : Program D B A} {d : D}
      → ((a : A) (d' : D) → Q a d' → Q' a d')
      → Holds c Q d p
      → Holds c Q' d p
  Holds-after f (at_end {r = ok a} h) = at_end (f a _ h)
  Holds-after f (at_end {r = err e} h) = at_end tt
  Holds-after f (at_step g s h) = at_step g s (λ w fine s₀. Holds-after f (h w fine s₀))

  -- After a guard or a fallible value the rest may use that it went through.
  pub Holds-check :
      {C : Type 0} {R : C → D → Type 0} (b : Bool) (e : Error) {p : Program D B C} {d : D}
      → (b ≡ false → Holds c R d p)
      → Holds c R d (refuse_if b e >> p)
  unfolding ◌>>=◌
  Holds-check true e h = at_end tt
  Holds-check false e h = h refl

  pub Holds-given :
      {A C : Type 0} {R : C → D → Type 0} (r : Result A) {f : A → Program D B C} {d : D}
      → ((a : A) → r ≡ ok a → Holds c R d (f a))
      → Holds c R d (ended r >>= f)
  unfolding ◌>>=◌
  Holds-given (ok a) h = h a refl
  Holds-given (err e) h = at_end tt

  pub Holds-or_raise :
      {A : Type 0} {Q : A → D → Type 0} (o : Option A) (e : Error) {d : D}
      → ((a : A) → o ≡ some a → Q a d)
      → Holds {B = B} c Q d (or_raise o e)
  Holds-or_raise none e h = at_end tt
  Holds-or_raise (some a) e h = at_end (h a refl)

  pub Holds-if :
      {A : Type 0} {Q : A → D → Type 0} (b : Bool) {p q : Program D B A} {d : D}
      → Holds c Q d p
      → Holds c Q d q
      → Holds c Q d (if b then p else q)
  Holds-if true h k = h
  Holds-if false h k = k

  -- A step that changes neither the database nor the goroutines that are to be started.
  pub Holds-silent :
      {A : Type 0} (m : Action D B A) {d : D}
      → ((w : World D B)
          → ((m w).1.db ≡ w.db)
            × ((m w).1.tasks ≡ w.tasks)
            × (IsValid w.broker → IsValid (m w).1.broker))
      → Holds c (λ _ _. Unit) d (atom m)
  Holds-silent m h =
      at_step
        (λ w fine s. record {
          sound = subst (IsSound c) (sym (h w).0) fine.sound;
          tasks = subst (All _) (sym (h w).1) fine.tasks;
          calm = (h w).2 fine.calm;
        })
        (λ w fine s. subst (Steady c w.db) (sym (h w).0) (Steady-refl w.db))
        (λ w fine s. at_end (Gives-always (λ _. Unit) (m w).0 (m w).1.db tt))

  pub Holds-spawn :
      (o : Operation) {d : D} → Holds {B = B} c (λ _ _. Unit) d (atom (spawn (task_of o)))
  unfolding bind
  Holds-spawn o =
      at_step
        (λ w fine s. record {
          sound = fine.sound;
          tasks = All-append _ w.tasks (task_of o ∷ []) fine.tasks (task_of-IsPostSuccess o, tt);
          calm = fine.calm;
        })
        (λ w fine s. Steady-refl w.db) (λ w fine s. at_end tt)

  -- A call of the database.
  pub Holds-db :
      {A : Type 0} {Q : A → D → Type 0} (f : D → Result A × D) {d : D}
      → ((e : D) → IsSound c e → Steady c d e → IsSound c (f e).1)
      → ((e : D) → IsSound c e → Steady c d e → Steady c e (f e).1)
      → ((e : D) → IsSound c e → Steady c d e → Gives Q (f e).0 (f e).1)
      → Holds {B = B} c Q d (atom (on_db f))
  unfolding bind
  Holds-db f h s q =
      at_step
        (λ w fine s₀. record { sound = h w.db fine.sound s₀; tasks = fine.tasks; calm = fine.calm })
        (λ w fine s₀. s w.db fine.sound s₀) (λ w fine s₀. at_end (q w.db fine.sound s₀))
