-- ===== src/Feature/Startup.antt =====
-- The reconciliation at startup over the repository in memory, and the rows in a state that some
-- goroutine of an earlier process was to move on.
use block_storage_api.Prelude.{
  String, ◌≡◌, refl, sym, ◌∙◌, ap, ◌⊎◌, inl, inr, Bool, true, false, Option, none, some, List, [],
  ◌∷◌, arith, ◌==◌, eq_iff, subst, Bool-cases,
}
use block_storage_api.Prelude.Dict.{Dict, lookup, values}
use block_storage_api.Errors.{Result, ok, err}
use block_storage_api.Storage.{State, State-discrete, Volume}
use block_storage_api.Repository.InMemory.{
  InMemoryRepository, list_volumes_by_state, in_states, wants,
}
use block_storage_api.Application.World.{World, Action, ◌>>=◌, ◌>>◌}
use block_storage_api.Application.Local.{Setting, local}
use block_storage_api.Feature.{
  ReconcilePolicy, transitional, reconcile_db_volume, for_each, import_all, reconcile_on_startup,
}
use block_storage_api.Feature.Effects.{IsKeyed, is_transitional, Settled, Touches, Touches-refl}
use block_storage_api.Feature.Rows.{db_volume-Settles, db_volume-leaves}
use block_storage_api.Feature.Storage.{reconcile_db_volume-storage}
use block_storage_api.Feature.Imports.{AreSettled, import_all-AreSettled}

-- The names of a list of volumes.
abbrev Names : String → List Volume → Type 0
Names n [] = ⊥
Names n (v ∷ vs) = (v.name ≡ n) ⊎ Names n vs

-- What the backend `s` answers about volumes while its state is `good`: it stays so, and an answer about a
-- name that is `known` is no error.
pub record Answers {B M : Type 0} (s : Setting B M) (known : String → Type 0) (good : B → Type 0)
    : Type 0 where
  pub keeps : (n : String) (b : B) → good b → good (s.backend.get_volume n b).1
  pub answers :
      (n : String) (b : B)
      → good b
      → known n
      → (o : Option Volume) × ((s.backend.get_volume n b).0 ≡ ok o)

-- A step on the row of `name`, which is settled afterwards if `name` is known.
record Visits {B : Type 0} (known : String → Type 0) (good : B → Type 0) (name : String)
    (w w' : World InMemoryRepository B) : Type 0 where
  touches : Touches name w.db.volumes w'.db.volumes
  settled : known name → Settled (lookup name w'.db.volumes)
  storage : good w'.storage

-- After a loop, a row of a known name is settled that the loop has reached or that was settled.
record Loop {B : Type 0} (known : String → Type 0) (vs : List Volume)
    (w w' : World InMemoryRepository B) : Type 0 where
  keyed : IsKeyed w'.db.volumes
  settled :
      (n : String)
      → known n
      → Names n vs ⊎ Settled (lookup n w.db.volumes)
      → Settled (lookup n w'.db.volumes)

Visits-at :
    {B : Type 0} {known : String → Type 0} {good : B → Type 0} (vol : Volume) (vs : List Volume)
    (w w' : World InMemoryRepository B) (n : String)
    → Visits known good vol.name w w'
    → known n
    → Names n (vol ∷ vs) ⊎ Settled (lookup n w.db.volumes)
    → Names n vs ⊎ Settled (lookup n w'.db.volumes)
Visits-at {known = known} vol vs w w' n h k c = elim (Bool-cases (vol.name == n)) [
  | inl e ↦
      let same : vol.name ≡ n = (eq_iff vol.name n).0 e in
      inr
        (subst (λ j. Settled (lookup j w'.db.volumes)) same (h.settled (subst known (sym same) k)))
  | inr e ↦ elim c [
    | inl (inl x) ↦ ground (arith, eq_iff vol.name n)
    | inl (inr x) ↦ inl x
    | inr x ↦ inr (subst Settled (sym (h.touches.others n e)) x)
  ]
]

Names-pick :
    (n : String) (b : Bool) (u : Volume) (rest : List Volume)
    → ((b ≡ true) × (u.name ≡ n)) ⊎ Names n rest
    → Names n (elim b [ true ↦ u ∷ rest | false ↦ rest ])
Names-pick n true u rest (inl h) = inl h.1
Names-pick n true u rest (inr h) = inr h
Names-pick n false u rest (inl h) = absurd (cc)
Names-pick n false u rest (inr h) = h

-- The list of the source names every such state.
transitional_complete : (t : State) → is_transitional t ≡ true → wants transitional t ≡ true
unfolding wants State-discrete
transitional_complete t h = ground arith

listed :
    (n : String) (m : Dict Volume) (v : Volume)
    → lookup n m ≡ some v
    → v.name ≡ n
    → is_transitional v.state ≡ true
    → Names n (in_states transitional (values m))
unfolding lookup in_states
listed n [] v h e q = ground arith
listed n ((j, u) ∷ m) v h e q = elim (Bool-cases (j == n)) [
  | inl x ↦
      let same : v ≡ u = ground arith in
      Names-pick n (wants transitional u.state) u _ (
        inl (
          transitional_complete u.state (sym (ap (λ y. is_transitional y.state) same) ∙ q),
          sym (ap (λ y. y.name) same) ∙ e,
        ))
  | inr x ↦ Names-pick n (wants transitional u.state) u _ (inr (listed n m v (ground arith) e q))
]

module _ {B M : Type 0} (s : Setting B M) (known : String → Type 0) (good : B → Type 0) where
  visited :
      (policy : ReconcilePolicy) (v : Volume) (w : World InMemoryRepository B)
      (r : Result (Option Volume))
      → Answers s known good
      → policy.db_only == "ignore" ≡ false
      → good w.storage
      → IsKeyed w.db.volumes
      → (s.backend.get_volume v.name w.storage).0 ≡ r
      → Visits known good v.name w (reconcile_db_volume (local s) policy v w).1
  visited policy v w (ok o) a p g k h =
      let x = db_volume-Settles s policy v o w h p k in
      record {
        touches = x.touches;
        settled = λ _. x.settled;
        storage =
            subst good (sym (reconcile_db_volume-storage (local s) policy v w))
              (a.keeps v.name w.storage g);
      }
  visited policy v w (err e) a p g k h = record {
    touches =
        subst (Touches v.name w.db.volumes) (sym (db_volume-leaves s policy v e w h))
          (Touches-refl v.name w.db.volumes);
    settled = λ q. let (o, f) = a.answers v.name w.storage g q in absurd (cc);
    storage =
        subst good (sym (reconcile_db_volume-storage (local s) policy v w))
          (a.keeps v.name w.storage g);
  }

  for_each-Loop :
      (f : Volume → Action InMemoryRepository B (Unit {0}))
      → ((v : Volume) (w : World InMemoryRepository B)
          → good w.storage
          → IsKeyed w.db.volumes
          → Visits known good v.name w (f v w).1)
      → (vs : List Volume) (w : World InMemoryRepository B) → good w.storage
      → IsKeyed w.db.volumes
      → Loop known vs w (for_each (local s) f vs w).1
  unfolding for_each ◌>>=◌
  for_each-Loop f h [] w g k = record {
    keyed = k;
    settled = λ n q c. elim c [ inl x ↦ absurd x | inr x ↦ x ];
  }
  for_each-Loop f h (v ∷ vs) w g k =
      let first = h v w g k in
      let rest = for_each-Loop f h vs (f v w).1 first.storage (first.touches.keyed k) in
      record {
        keyed = rest.keyed;
        settled = λ n q c. rest.settled n q (Visits-at v vs w (f v w).1 n first q c);
      }

module _ {B M : Type 0} (s : Setting B M) (known : String → Type 0) where
  for_each-ok :
      (f : Volume → Action InMemoryRepository B (Unit {0})) (vs : List Volume)
      (w : World InMemoryRepository B)
      → (for_each (local s) f vs w).0 ≡ ok tt
  unfolding for_each ◌>>=◌
  for_each-ok f [] w = refl
  for_each-ok f (v ∷ vs) w = for_each-ok f vs (f v w).1

  -- After the loop over the rows, the volumes of the backend.
  then_import :
      (policy : ReconcilePolicy) (w : World InMemoryRepository B)
      (x : Result (Unit {0}) × World InMemoryRepository B)
      → x.0 ≡ ok tt
      → AreSettled known x.1.db.volumes
      → AreSettled known (((λ _. x) >> import_all (local s) policy) w).1.db.volumes
  unfolding ◌>>=◌
  then_import policy w (ok _, w') h a = import_all-AreSettled s known policy w' a
  then_import policy w (err e, w') h a = a

  -- The reconciliation at startup, over the repository in memory, with a policy for volumes that the backend does
  -- not hold other than "ignore", leaves every row under its own name, and no row in an in-progress or
  -- a failed state of a name about which the backend answers without an error.
  pub reconcile_on_startup-AreSettled :
      (good : B → Type 0) (policy : ReconcilePolicy) (w : World InMemoryRepository B)
      → Answers s known good
      → good w.storage
      → policy.db_only == "ignore" ≡ false
      → IsKeyed w.db.volumes
      → AreSettled known (reconcile_on_startup (local s) policy w).1.db.volumes
  unfolding reconcile_on_startup list_volumes_by_state ◌>>=◌
  reconcile_on_startup-AreSettled good policy w a g p k =
      let vs = in_states transitional (values w.db.volumes) in
      let loop =
        for_each-Loop s known good (reconcile_db_volume (local s) policy)
          (λ v x b q. visited s known good policy v x _ a p b q refl) vs w g k in
      then_import policy w (for_each (local s) (reconcile_db_volume (local s) policy) vs w)
        (for_each-ok (reconcile_db_volume (local s) policy) vs w)
        (record {
          keyed = loop.keyed;
          at = λ n q. loop.settled n q (reached n (lookup n w.db.volumes) refl);
        })
    where
      -- A row is settled already, or the loop comes to it.
      reached :
          (n : String) (o : Option Volume)
          → lookup n w.db.volumes ≡ o
          → Names n (in_states transitional (values w.db.volumes)) ⊎ Settled (lookup n w.db.volumes)
      reached n none h = inr (rw h tt)
      reached n (some v) h = elim (Bool-cases (is_transitional v.state)) [
        | inl e ↦ inl (listed n w.db.volumes v h (k.at n v h) e)
        | inr e ↦ inr (rw h e)
      ]
