-- ===== src/Application/Interleaved/Steady.antt =====
-- What a program keeps at each of its steps, whatever others do to the world in between: rows are never
-- removed and keep their fixed fields, and the audit trail stays legal.
pub mod Calls
pub mod Database
pub mod Methods
pub mod Goroutine
use block_storage_api.Prelude.{
  ℕ, String, ◌≡◌, refl, sym, ◌∙◌, ap, subst, Option, none, some, List, [], ◌∷◌, ◌++◌, append_assoc,
  append-nil, All, Bool, true, false, if◌then◌else◌, Bool-cases, inl, inr, eq_iff, ◌==◌,
}
use block_storage_api.Errors.{Error, Result, ok, err}
use block_storage_api.Storage.{Volume}
use block_storage_api.Dependency.{VolumeEvent, DatabaseDependency}
use block_storage_api.Dependency.Contract.{DatabaseContract, SameRow, Written}
use block_storage_api.Application.World.{World, Action, Task, map_result}
use block_storage_api.Broker.Laws.{IsValid}
use block_storage_api.Application.Safety.{IsSound, Gives}
use block_storage_api.Application.Safety.Rows.{SameRow-refl, SameRow-trans, SameRow-stamp}
use block_storage_api.Application.Safety.Methods.Retries.{IsPostSuccess}
use block_storage_api.Application.Interleaved.{
  Program, ended, step, atom, refuse_if, or_raise, map_error, catch, attempt, ◌>>=◌,
}

pub same_trail :
    {es es' : List VolumeEvent} → es' ≡ es → (new : List VolumeEvent) × (es' ≡ es ++ new)
same_trail {es} h = ([], h ∙ sym (append-nil es))

pub SameRow-sym : {u v : Volume} → SameRow u v → SameRow v u
SameRow-sym s = record {
  id = sym s.id;
  name = sym s.name;
  size_mb = sym s.size_mb;
  backend = sym s.backend;
  created_at = sym s.created_at;
}

-- What others may make of the row of a name.
abbrev pub Fixed : Option Volume → Option Volume → Type 0
Fixed none o = Unit
Fixed (some u) none = ⊥
Fixed (some u) (some v) = SameRow u v

Fixed-refl : (o : Option Volume) → Fixed o o
Fixed-refl none = tt
Fixed-refl (some u) = SameRow-refl u

Fixed-trans : (o p q : Option Volume) → Fixed o p → Fixed p q → Fixed o q
Fixed-trans none p q h k = tt
Fixed-trans (some u) none q h k = absurd h
Fixed-trans (some u) (some v) none h k = absurd k
Fixed-trans (some u) (some v) (some w) h k = SameRow-trans h k

Fixed-some :
    (u : Volume) (o : Option Volume) → Fixed (some u) o → (v : Volume) × (o ≡ some v) × SameRow u v
Fixed-some u none h = absurd h
Fixed-some u (some v) h = (v, refl, h)

module _ {D : Type 0} {db : DatabaseDependency D} (c : DatabaseContract db) where
  open c use {view, trail}

  -- No row is removed, the fixed fields of each stay, and the audit trail only grows.
  pub record Steady (d d' : D) : Type 0 where
    pub at : (n : String) → Fixed (view d n) (view d' n)
    pub grows : (es : List VolumeEvent) × (trail d' ≡ trail d ++ es)

  -- The volume has the fixed fields of the row that is stored under its name.
  pub record Known (v : Volume) (d : D) : Type 0 where
    pub row : Volume
    pub stored : view d v.name ≡ some row
    pub same : SameRow row v

  -- What holds of a result stays so, whatever others do.
  pub record Stays {A : Type 0} (Q : A → D → Type 0) : Type 0 where
    pub at : (a : A) (d d' : D) → Steady d d' → Q a d → Q a d'

  -- The database is sound, and so are the event broker and every goroutine that is to be started.
  pub record IsFine {B : Type 0} (w : World D B) : Type 0 where
    pub sound : IsSound c w.db
    pub tasks : All (λ t. IsPostSuccess t.post_success) w.tasks
    pub calm : IsValid w.broker

module _ {D : Type 0} {db : DatabaseDependency D} {c : DatabaseContract db} where
  pub Steady-refl : (d : D) → Steady c d d
  Steady-refl d = record {
    at = λ n. Fixed-refl (c.view d n);
    grows = ([], sym (append-nil (c.trail d)));
  }

  pub Steady-trans : {d d' d'' : D} → Steady c d d' → Steady c d' d'' → Steady c d d''
  Steady-trans {d} {d'} {d''} h k = record {
    at = λ n. Fixed-trans (c.view d n) (c.view d' n) (c.view d'' n) (h.at n) (k.at n);
    grows = (
      h.grows.0 ++ k.grows.0,
      k.grows.1
          ∙ ap (λ es. es ++ k.grows.0) h.grows.1
          ∙ append_assoc (c.trail d) h.grows.0 k.grows.0,
    );
  }

  -- Two databases with the same rows are steady.
  pub same-Steady :
      {d d' : D}
      → c.view d' ≡ c.view d
      → (es : List VolumeEvent) × (c.trail d' ≡ c.trail d ++ es)
      → Steady c d d'
  same-Steady {d} hv grows = record {
    at = λ n. subst (λ f. Fixed (c.view d n) (f n)) (sym hv) (Fixed-refl (c.view d n));
    grows = grows;
  }

  pub Written-Steady :
      {d d' : D} (v : Volume)
      → Written v (c.view d) (c.view d')
      → ((u : Volume) → c.view d v.name ≡ some u → SameRow u v)
      → c.trail d' ≡ c.trail d
      → Steady c d d'
  Written-Steady {d} {d'} v hw same ht = record {
    grows = same_trail ht;
    at = λ n. elim (Bool-cases (v.name == n)) [
      | inl e ↦ rw (hw.1 n) (
          rw e (
            subst (λ m. Fixed (c.view d m) (some (record v { updated_at = hw.0 })))
              ((eq_iff v.name n).0 e) (at_name (c.view d v.name) refl)))
      | inr e ↦ rw (hw.1 n) (rw e (Fixed-refl (c.view d n)))
    ];
  }
    where
      at_name :
          (o : Option Volume)
          → c.view d v.name ≡ o
          → Fixed o (some (record v { updated_at = hw.0 }))
      at_name none h = tt
      at_name (some u) h = SameRow-stamp u.updated_at hw.0 (same u h)

  pub Known-Steady : {v : Volume} {d d' : D} → Steady c d d' → Known c v d → Known c v d'
  Known-Steady {v} {d} {d'} h k =
      let (u, there, same) =
        Fixed-some k.row (c.view d' v.name)
          (subst (λ o. Fixed o (c.view d' v.name)) k.stored (h.at v.name)) in
      record { row = u; stored = there; same = SameRow-trans (SameRow-sym same) k.same }

  pub Known-as : {v v' : Volume} {d : D} → SameRow v v' → Known c v d → Known c v' d
  Known-as {v} {v'} {d} s k = record {
    row = k.row;
    stored = ap (c.view d) (sym s.name) ∙ k.stored;
    same = SameRow-trans k.same s;
  }

module _ {D B : Type 0} {db : DatabaseDependency D} (c : DatabaseContract db) where
  -- Each step of the program, from any fine world that others have led to from `d`, leads to a fine
  -- world with steady rows; and at the end `Q` holds of a result that is not an error.
  pub data Holds {A : Type 0} (Q : A → D → Type 0) : D → Program D B A → Type 0 where
    at_end : {d : D} {r : Result A} → Gives Q r d → Holds Q d (ended r)
    at_step :
        {d : D} {t : World D B → World D B} {k : World D B → Program D B A}
        → ((w : World D B) → IsFine c w → Steady c d w.db → IsFine c (t w))
        → ((w : World D B) → IsFine c w → Steady c d w.db → Steady c w.db (t w).db)
        → ((w : World D B) → IsFine c w → Steady c d w.db → Holds Q (t w).db (k w))
        → Holds Q d (step t k)

module _ {D B : Type 0} {db : DatabaseDependency D} {c : DatabaseContract db} where
  pub Holds-later :
      {A : Type 0} {Q : A → D → Type 0} {p : Program D B A} {d d' : D}
      → Stays c Q
      → Steady c d d'
      → Holds c Q d p
      → Holds c Q d' p
  Holds-later stays s (at_end {r = ok a} h) = at_end (stays.at a _ _ s h)
  Holds-later stays s (at_end {r = err e} h) = at_end tt
  Holds-later stays s (at_step f g h) =
      at_step (λ w fine s'. f w fine (Steady-trans s s'))
        (λ w fine s'. g w fine (Steady-trans s s')) (λ w fine s'. h w fine (Steady-trans s s'))

  pub Holds-bind :
      {A C : Type 0} {Q : A → D → Type 0} {R : C → D → Type 0} {p : Program D B A}
      (f : A → Program D B C) {d : D}
      → Holds c Q d p
      → ((a : A) (d' : D) → Steady c d d' → Q a d' → Holds c R d' (f a))
      → Holds c R d (p >>= f)
  unfolding ◌>>=◌
  Holds-bind f {d} (at_end {r = ok a} h) k = k a d (Steady-refl d) h
  Holds-bind f (at_end {r = err e} h) k = at_end tt
  Holds-bind f (at_step g s h) k = at_step g s (λ w fine s₀.
      Holds-bind f (h w fine s₀)
        (λ a d' s₁. k a d' (Steady-trans s₀ (Steady-trans (s w fine s₀) s₁))))
