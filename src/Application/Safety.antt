-- ===== src/Application/Safety.antt =====
-- The rules by which the safety theorem is proved: what every action keeps, whatever fails.
pub mod Rows
pub mod Silent
pub mod Database
pub mod Methods
use block_storage_api.Prelude.{
  String, ◌≡◌, refl, sym, ◌⊎◌, Option, none, some, All, Bool, true, false, subst,
}
use block_storage_api.Errors.{Error, Result, ok, err}
use block_storage_api.Storage.{State, Volume}
use block_storage_api.Fsm.{Event}
use block_storage_api.Fsm.Graph.{edge}
use block_storage_api.Fsm.Moves.{IsTarget}
use block_storage_api.Dependency.{VolumeEvent, DatabaseDependency}
use block_storage_api.Dependency.Contract.{DatabaseContract}
use block_storage_api.Application.World.{
  World, Action, ◌>>=◌, pure, lift, refuse_if, or_raise, map_result, map_error, catch, ◌>>◌,
}
use block_storage_api.Application.Safety.Rows.{Progress, Progress-refl, Progress-trans}

-- An entry of the audit trail is an arrow of the diagram, or a reconciliation.
abbrev pub IsLegal : VolumeEvent → Type 0
IsLegal e =
    (edge e.from_state e.event ≡ some e.to_state)
    ⊎ ((e.event ≡ Event.reconcile) × (e.from_state ≡ State.error) × IsTarget e.to_state)

module _ {D : Type 0} {db : DatabaseDependency D} (c : DatabaseContract db) where
  open c use {view, trail}

  -- Each volume is stored under its own name, and the trail is legal.
  pub record IsSound (d : D) : Type 0 where
    pub keyed : (n : String) (v : Volume) → view d n ≡ some v → v.name ≡ n
    pub legal : All IsLegal (trail d)

  -- Each row changes at most by the events that `may` fire on its name.
  pub record Evolves (may : String → Event → Type 0) (d d' : D) : Type 0 where
    pub at : (n : String) → Progress (may n) (view d n) (view d' n)

abbrev pub Gives : {A D : Type 0} → (A → D → Type 0) → Result A → D → Type 0
Gives Q (ok a) d = Q a d
Gives Q (err _) d = Unit

pub Gives-always : {A D : Type 0} (P : D → Type 0) (r : Result A) (d : D) → P d → Gives (λ _. P) r d
Gives-always P (ok a) d p = p
Gives-always P (err e) d p = tt

Gives-map :
    {A D : Type 0} (Q Q' : A → D → Type 0) (r : Result A) (d : D)
    → ((a : A) → Q a d → Q' a d)
    → Gives Q r d
    → Gives Q' r d
Gives-map Q Q' (ok a) d f g = f a g
Gives-map Q Q' (err e) d f g = tt

Gives-map_result :
    {A D : Type 0} (Q : A → D → Type 0) (f : Error → Error) (r : Result A) (d : D)
    → Gives Q r d
    → Gives Q (map_result f r) d
Gives-map_result Q f (ok a) d g = g
Gives-map_result Q f (err e) d g = tt

Gives-with :
    {A D F : Type 0} (Q : A → D → Type 0) (r : Result A) (d : D)
    → F
    → Gives Q r d
    → Gives (λ a d. Q a d × F) r d
Gives-with Q (ok a) d f g = (g, f)
Gives-with Q (err e) d f g = tt

module _ {D B : Type 0} {db : DatabaseDependency D} (c : DatabaseContract db)
    (may : String → Event → Type 0) where
  -- What a run that began with the database `d` has come to: a sound database, by the events that
  -- `may` fire, and `Q` of the result.
  pub record Good {A : Type 0} (Q : A → D → Type 0) (d : D) (x : Result A × World D B)
      : Type 0 where
    pub sound : IsSound c x.1.db
    pub evolves : Evolves c may d x.1.db
    pub gives : Gives Q x.0 x.1.db

  -- From a sound database in which `P` holds, the action is good, whether it fails or not.
  pub record Safe {A : Type 0} (P : D → Type 0) (m : Action D B A) (Q : A → D → Type 0)
      : Type 0 where
    pub at : (w : World D B) → IsSound c w.db → P w.db → Good Q w.db (m w)

module _ {D : Type 0} {db : DatabaseDependency D} {c : DatabaseContract db}
    {may : String → Event → Type 0} where
  pub Evolves-refl : (d : D) → Evolves c may d d
  Evolves-refl d = record { at = λ n. Progress-refl (may n) (c.view d n) }

  pub Evolves-trans :
      {d d' d'' : D} → Evolves c may d d' → Evolves c may d' d'' → Evolves c may d d''
  Evolves-trans {d} {d'} {d''} h k = record {
    at = λ n. Progress-trans (may n) (c.view d n) (c.view d' n) (c.view d'' n) (h.at n) (k.at n);
  }

module _ {D B : Type 0} {db : DatabaseDependency D} {c : DatabaseContract db}
    {may : String → Event → Type 0} where
  module _ {A C : Type 0} {Q : A → D → Type 0} {R : C → D → Type 0} where
    bind-Good :
        (f : A → Action D B C) {d : D} (r : Result A) (w' : World D B)
        → ((a : A) → Safe c may (Q a) (f a) R)
        → Good c may Q d (r, w')
        → Good {B = B} c may R d (elim r [ ok a ↦ f a w' | err e ↦ (err e, w') ])
    bind-Good f (ok a) w' k g =
        let later : Good c may R w'.db (f a w') = (k a).at w' g.sound g.gives in
        record {
          sound = later.sound;
          evolves = Evolves-trans g.evolves later.evolves;
          gives = later.gives;
        }
    bind-Good f (err e) w' k g = record { sound = g.sound; evolves = g.evolves; gives = tt }

    pub Safe-bind :
        {P : D → Type 0} (m : Action D B A) (f : A → Action D B C)
        → Safe c may P m Q
        → ((a : A) → Safe c may (Q a) (f a) R)
        → Safe c may P (m >>= f) R
    unfolding ◌>>=◌
    Safe-bind m f h k = record { at = λ w s p. bind-Good f (m w).0 (m w).1 k (h.at w s p) }

  module _ {A : Type 0} {P : D → Type 0} where
    pub Safe-pure :
        {Q : A → D → Type 0} (a : A) → ((d : D) → P d → Q a d) → Safe {B = B} c may P (pure a) Q
    unfolding ◌>>=◌
    Safe-pure a h = record {
      at = λ w s p. record { sound = s; evolves = Evolves-refl w.db; gives = h w.db p };
    }

    -- An action that leaves the database alone.
    pub Safe-silent :
        (m : Action D B A) → ((w : World D B) → (m w).1.db ≡ w.db) → Safe c may P m (λ _. P)
    Safe-silent m h = record {
      at = λ w s p. record {
        sound = subst (IsSound c) (sym (h w)) s;
        evolves = subst (Evolves c may w.db) (sym (h w)) (Evolves-refl w.db);
        gives = Gives-always P (m w).0 (m w).1.db (subst P (sym (h w)) p);
      };
    }

    pub Safe-after :
        {Q Q' : A → D → Type 0} (m : Action D B A)
        → ((a : A) (d : D) → IsSound c d → Q a d → Q' a d)
        → Safe c may P m Q
        → Safe c may P m Q'
    Safe-after {Q = Q} {Q' = Q'} m f h = record {
      at = λ w s p.
          let g = h.at w s p in
          record {
            sound = g.sound;
            evolves = g.evolves;
            gives = Gives-map Q Q' (m w).0 (m w).1.db (λ a. f a (m w).1.db g.sound) g.gives;
          };
    }

  pub Safe-refuse_if :
      {P : D → Type 0} (b : Bool) (e : Error)
      → Safe {B = B} c may P (refuse_if b e) (λ _ d. P d × (b ≡ false))
  unfolding ◌>>=◌
  Safe-refuse_if true e = record {
    at = λ w s p. record { sound = s; evolves = Evolves-refl w.db; gives = tt };
  }
  Safe-refuse_if false e = record {
    at = λ w s p. record { sound = s; evolves = Evolves-refl w.db; gives = (p, refl) };
  }

  pub Safe-or_raise :
      {A : Type 0} {P : D → Type 0} (o : Option A) (e : Error)
      → Safe {B = B} c may P (or_raise o e) (λ a d. P d × (o ≡ some a))
  unfolding ◌>>=◌
  Safe-or_raise none e = record {
    at = λ w s p. record { sound = s; evolves = Evolves-refl w.db; gives = tt };
  }
  Safe-or_raise (some a) e = record {
    at = λ w s p. record { sound = s; evolves = Evolves-refl w.db; gives = (p, refl) };
  }

  pub Safe-lift :
      {A : Type 0} {P : D → Type 0} (r : Result A)
      → Safe {B = B} c may P (lift r) (λ a d. P d × (r ≡ ok a))
  unfolding ◌>>=◌
  Safe-lift (err e) = record {
    at = λ w s p. record { sound = s; evolves = Evolves-refl w.db; gives = tt };
  }
  Safe-lift (ok a) = record {
    at = λ w s p. record { sound = s; evolves = Evolves-refl w.db; gives = (p, refl) };
  }

  module _ {A : Type 0} {P : D → Type 0} {Q : A → D → Type 0} where
    pub Safe-map_error :
        (f : Error → Error) (m : Action D B A) → Safe c may P m Q → Safe c may P (map_error f m) Q
    unfolding ◌>>=◌
    Safe-map_error f m h = record {
      at = λ w s p.
          let g = h.at w s p in
          record {
            sound = g.sound;
            evolves = g.evolves;
            gives = Gives-map_result Q f (m w).0 (m w).1.db g.gives;
          };
    }

  Safe-given :
      {A : Type 0} {P : D → Type 0} {F : Type 0} {Q : A → D → Type 0} (m : Action D B A)
      → (F → Safe c may P m Q)
      → Safe c may (λ d. P d × F) m Q
  Safe-given m h = record { at = λ w s p. (h p.1).at w s p.0 }

  -- A fact that is not of the database stays known.
  pub Safe-with :
      {A F : Type 0} {P : D → Type 0} {Q : A → D → Type 0} (m : Action D B A)
      → Safe c may P m Q
      → Safe c may (λ d. P d × F) m (λ a d. Q a d × F)
  Safe-with {Q = Q} m h = record {
    at = λ w s p.
        let g = h.at w s p.0 in
        record {
          sound = g.sound;
          evolves = g.evolves;
          gives = Gives-with Q (m w).0 (m w).1.db p.1 g.gives;
        };
  }

  -- After a guard or a fallible step, the rest may use that it went through.
  pub Safe-check :
      {C : Type 0} {P : D → Type 0} {Q : C → D → Type 0} (b : Bool) (e : Error) (m : Action D B C)
      → (b ≡ false → Safe c may P m Q)
      → Safe c may P (refuse_if b e >> m) Q
  Safe-check b e m h = Safe-bind _ _ (Safe-refuse_if b e) (λ _. Safe-given m h)

  module _ {A C : Type 0} {P : D → Type 0} {Q : C → D → Type 0} where
    pub Safe-step :
        (r : Result A) (f : A → Action D B C)
        → ((a : A) → r ≡ ok a → Safe c may P (f a) Q)
        → Safe c may P (lift r >>= f) Q
    Safe-step r f h = Safe-bind _ _ (Safe-lift r) (λ a. Safe-given (f a) (h a))

  pub Safe-before :
      {A : Type 0} {P P' : D → Type 0} {Q : A → D → Type 0} (m : Action D B A)
      → ((d : D) → IsSound c d → P' d → P d)
      → Safe c may P m Q
      → Safe c may P' m Q
  Safe-before m f h = record { at = λ w s p. h.at w s (f w.db s p) }

  -- The result of the action, error or not, as a value.
  pub Safe-catch :
      {A : Type 0} {P : D → Type 0} {Q : A → D → Type 0} (m : Action D B A)
      → Safe c may P m Q
      → Safe c may P (catch m) (λ r. Gives Q r)
  unfolding ◌>>=◌
  Safe-catch m h = record {
    at = λ w s p.
        let g = h.at w s p in record { sound = g.sound; evolves = g.evolves; gives = g.gives };
  }
