-- ===== src/Application/Interleaved/Rivals.antt =====
-- A creation and the name that it takes: it fails if the name is taken by then.
use block_storage_api.Prelude.{
  String, ◌≡◌, refl, sym, ◌∙◌, ap, inl, inr, Option, none, some, ℤ, eq_refl,
}
use block_storage_api.Errors.{Error, ok, err, Outcome, Failed}
use block_storage_api.Storage.{Volume}
use block_storage_api.Dependency.{DatabaseDependency}
use block_storage_api.Dependency.Contract.{DatabaseContract, Written}
use block_storage_api.Application.World.{Application, World, on_db, ◌>>=◌ as bind}
use block_storage_api.Application.Operations.{new_volume}
use block_storage_api.Application.History.{Request}
use block_storage_api.Application.Interleaved.{Program, ended, step, atom, map_error, ◌>>=◌}
use block_storage_api.Application.Interleaved.Programs.{create_volume, program}

Written-taken :
    (v : Volume) (view view' : String → Option Volume)
    → Written v view view'
    → view' v.name ≡ none
    → ⊥
Written-taken v view view' (t, h) free =
    let there : view' v.name ≡ some (record v { updated_at = t }) =
      h v.name ∙ rw (eq_refl v.name) refl in
    absurd (clash (sym there ∙ free))
  where
    clash : {x : Volume} → some x ≡ none → ⊥
    clash h = absurd (cc)

module _ {D B : Type 0} {db : DatabaseDependency D} (c : DatabaseContract db) (name : String) where
  open c use {view}

  -- The program fails if the name is taken from now on.
  pub data Barred {A : Type 0} : Program D B A → Type 0 where
    at_error : {e : Error} → Barred (ended (err e))
    at_step :
        {t : World D B → World D B} {k : World D B → Program D B A}
        → ((w : World D B) (u : Volume) → view w.db name ≡ some u → Barred (k w))
        → Barred (step t k)

  -- The program fails too if it does not take the name itself.
  pub data Rival {A : Type 0} : Program D B A → Type 0 where
    lost : {e : Error} → Rival (ended (err e))
    ahead :
        {t : World D B → World D B} {k : World D B → Program D B A}
        → Barred (step t k)
        → ((w : World D B) → view w.db name ≡ none → view (t w).db name ≡ none → Rival (k w))
        → Rival (step t k)

module _ {D B : Type 0} {db : DatabaseDependency D} {c : DatabaseContract db} {name : String} where
  open c use {view}

  pub Rival-Barred : {A : Type 0} {p : Program D B A} → Rival c name p → Barred c name p
  Rival-Barred lost = at_error
  Rival-Barred (ahead h k) = h

  -- What comes after a failure is not reached.
  pub Barred-bind :
      {A C : Type 0} {p : Program D B A} (f : A → Program D B C)
      → Barred c name p
      → Barred c name (p >>= f)
  unfolding ◌>>=◌
  Barred-bind f at_error = at_error
  Barred-bind f (at_step h) = at_step (λ w u e. Barred-bind f (h w u e))

  pub Rival-bind :
      {A C : Type 0} {p : Program D B A} (f : A → Program D B C)
      → Rival c name p
      → Rival c name (p >>= f)
  unfolding ◌>>=◌
  Rival-bind f lost = lost
  Rival-bind f (ahead (at_step h) k) =
      ahead (at_step (λ w u e. Barred-bind f (h w u e))) (λ w e e'. Rival-bind f (k w e e'))

  -- Nothing is asked of what comes before.
  pub Barred-after :
      {A C : Type 0} (p : Program D B A) {f : A → Program D B C}
      → ((a : A) → Barred c name (f a))
      → Barred c name (p >>= f)
  unfolding ◌>>=◌
  Barred-after (ended (ok a)) h = h a
  Barred-after (ended (err e)) h = at_error
  Barred-after (step t k) h = at_step (λ w u e. Barred-after (k w) h)

  pub Rival-after :
      {A C : Type 0} (p : Program D B A) {f : A → Program D B C}
      → ((a : A) → Rival c name (f a))
      → Rival c name (p >>= f)
  unfolding ◌>>=◌
  Rival-after (ended (ok a)) h = h a
  Rival-after (ended (err e)) h = lost
  Rival-after (step t k) h =
      ahead (at_step (λ w u e. Barred-after (k w) (λ a. Rival-Barred (h a))))
        (λ w e e'. Rival-after (k w) h)

  Failed-Barred :
      (f : Error → Error) (r : Outcome) → Failed r → Barred {B = B} c name (map_error f (ended r))
  unfolding map_error
  Failed-Barred f (ok a) (e, h) = absurd (cc)
  Failed-Barred f (err x) h = at_error

  Failed-Rival :
      (f : Error → Error) (r : Outcome) → Failed r → Rival {B = B} c name (map_error f (ended r))
  unfolding map_error
  Failed-Rival f (ok a) (e, h) = absurd (cc)
  Failed-Rival f (err x) h = lost

  -- The insertion of the row: refused if the name is taken, and without effect if it fails.
  pub save-Rival :
      (f : Error → Error) (v : Volume)
      → v.name ≡ name
      → Rival {B = B} c name (map_error f (atom (on_db (db.save_volume v))))
  unfolding map_error bind
  save-Rival f v same =
      ahead
        (at_step (λ w u e. Failed-Barred f _ (c.save_refuses u v w.db (ap (view w.db) same ∙ e)).0))
        (λ w free free'. elim (c.save_writes v w.db (ap (view w.db) same ∙ free)) [
          | inl hw ↦ absurd (
              Written-taken v (view w.db) (view (db.save_volume v w.db).1) hw
                (ap (view (db.save_volume v w.db).1) same ∙ free'))
          | inr h ↦ Failed-Rival f _ h.0
        ])

module _ {D B M : Type 0} (app : Application D B M) (c : DatabaseContract app.database) where
  pub create_volume-Rival :
      (name : String) (size_mb : ℤ) → Rival {B = B} c name (create_volume app name size_mb)
  unfolding create_volume
  create_volume-Rival name size_mb = Rival-after _ λ _. Rival-after _ λ o. Rival-after _ λ _.
      Rival-after _ λ now.
        Rival-after _ λ id. Rival-bind _ (save-Rival _ (new_volume app name size_mb now id) refl)

  pub program-Rival :
      (name : String) (size_mb : ℤ)
      → Rival {B = B} c name (program app (Request.create name size_mb))
  unfolding program
  program-Rival name size_mb = Rival-bind _ (create_volume-Rival name size_mb)
