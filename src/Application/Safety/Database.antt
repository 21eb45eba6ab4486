-- ===== src/Application/Safety/Database.antt =====
-- The rules for the calls of a database.
use block_storage_api.Prelude.{
  ℕ, String, ◌≡◌, refl, sym, ◌∙◌, ap, ◌⊎◌, inl, inr, Option, none, some, [], ◌∷◌, ◌++◌, All,
  All-append, arith, ◌==◌, eq_iff, eq_refl, subst, Bool-cases,
}
use block_storage_api.Errors.{Failed, Result, ok, err, Outcome}
use block_storage_api.Storage.{State, Volume}
use block_storage_api.Fsm.{Event}
use block_storage_api.Fsm.Moves.{Moves, stay}
use block_storage_api.Dependency.{VolumeEvent, DatabaseDependency}
use block_storage_api.Dependency.Contract.{DatabaseContract, SameRow, Written}
use block_storage_api.Application.World.{World, on_db, attempt, ◌>>=◌}
use block_storage_api.Application.Safety.{
  IsLegal, IsSound, Evolves, Gives, Gives-always, Good, Safe,
}
use block_storage_api.Application.Safety.Rows.{Progress, Progress-refl, Progress-stamp}

module _ {D : Type 0} {db : DatabaseDependency D} {c : DatabaseContract db} where
  open c use {view, trail}

  -- Two databases with the same view and trail are alike.
  pub same-IsSound : {d d' : D} → view d' ≡ view d → trail d' ≡ trail d → IsSound c d → IsSound c d'
  same-IsSound hv ht s = record {
    keyed = λ n v h. s.keyed n v (sym (ap (λ f. f n) hv) ∙ h);
    legal = subst (All IsLegal) (sym ht) s.legal;
  }

  pub Written-IsSound :
      {d d' : D} (v : Volume)
      → Written v (view d) (view d')
      → trail d' ≡ trail d
      → IsSound c d
      → IsSound c d'
  Written-IsSound {d} v hw ht s = record {
    keyed = λ n x h. ground (arith, hw.1 n, s.keyed n x, eq_iff v.name n);
    legal = subst (All IsLegal) (sym ht) s.legal;
  }

module _ {D : Type 0} {db : DatabaseDependency D} {c : DatabaseContract db}
    {may : String → Event → Type 0} where
  open c use {view, trail}

  same-Evolves : {d d' : D} → view d' ≡ view d → Evolves c may d d'
  same-Evolves {d} hv = record {
    at = λ n.
        subst (λ f. Progress (may n) (view d n) (f n)) (sym hv) (Progress-refl (may n) (view d n));
  }

  Written-Evolves :
      {d d' : D} (v : Volume)
      → Written v (view d) (view d')
      → Progress (may v.name) (view d v.name) (some v)
      → Evolves c may d d'
  Written-Evolves {d} {d'} v hw h = record {
    at = λ n. elim (Bool-cases (v.name == n)) [
      | inl e ↦
          let v' = record v { updated_at = hw.0 } in
          rw (hw.1 n) (
            rw e (
              subst (λ m. Progress (may m) (view d m) (some v')) ((eq_iff v.name n).0 e)
                (Progress-stamp (may v.name) (view d v.name) v hw.0 h)))
      | inr e ↦ rw (hw.1 n) (rw e (Progress-refl (may n) (view d n)))
    ];
  }

-- After a call that adds a legal entry to the trail, or fails.
pub appended-IsSound :
    {D : Type 0} {db : DatabaseDependency D} {c : DatabaseContract db} {d d' : D} {r : Outcome}
    (e : VolumeEvent)
    → c.view d' ≡ c.view d
    → (c.trail d' ≡ c.trail d ++ e ∷ []) ⊎ (Failed r × (c.trail d' ≡ c.trail d))
    → IsLegal e
    → IsSound c d
    → IsSound c d'
appended-IsSound {c = c} {d = d} e hv (inl q) h s = record {
  keyed = λ n v p. s.keyed n v (sym (ap (λ f. f n) hv) ∙ p);
  legal = subst (All IsLegal) (sym q) (All-append IsLegal (c.trail d) (e ∷ []) s.legal (h, tt));
}
appended-IsSound e hv (inr q) h s = same-IsSound hv q.1 s

Written-self :
    (v : Volume) (view view' : String → Option Volume)
    → Written v view view'
    → (t : ℕ) × (view' v.name ≡ some (record v { updated_at = t }))
Written-self v view view' hw = (hw.0, hw.1 v.name ∙ rw (eq_refl v.name) refl)

-- The volume as it is stored under its name, but for a time of the database's own.
abbrev pub Current :
    {D : Type 0} {db : DatabaseDependency D} → DatabaseContract db → Volume → D → Type 0
Current c v d = (t : ℕ) × (c.view d v.name ≡ some (record v { updated_at = t }))

-- What may be written in place of a stored row.
pub record Allowed {D : Type 0} {db : DatabaseDependency D} (c : DatabaseContract db)
    (may : String → Event → Type 0) (v : Volume) (d : D) : Type 0 where
  pub old : Volume
  pub stored : c.view d v.name ≡ some old
  pub same : SameRow old v
  pub moves : Moves (may v.name) old.state v.state

module _ {D : Type 0} {db : DatabaseDependency D} (c : DatabaseContract db) where
  open c use {view}

  update_result :
      (v : Volume) (d d' : D) (r : Outcome)
      → Written v (view d) (view d') ⊎ (Failed r × (view d' ≡ view d))
      → Gives (λ _. Current c v) r d'
  update_result v d d' (ok a) (inl hw) = Written-self v (view d) (view d') hw
  update_result v d d' (ok a) (inr ((e, h), _)) = cc
  update_result v d d' (err e) h = tt

  read_result :
      (n : String) (d : D) (o : Option Volume) (r : Result (Option Volume))
      → view d n ≡ o
      → (r ≡ ok o) ⊎ Failed r
      → Gives (λ p d. view d n ≡ p) r d
  read_result n d o (ok a) h (inl e) = cc
  read_result n d o (ok a) h (inr (x, e)) = cc
  read_result n d o (err x) h e = tt

module _ {D B : Type 0} {db : DatabaseDependency D} (c : DatabaseContract db)
    {may : String → Event → Type 0} where
  open c use {view, trail}

  pub load-Safe :
      (n : String) → Safe {B = B} c may (λ _. Unit) (on_db (db.load_volume n)) (λ o d. view d n ≡ o)
  unfolding ◌>>=◌
  load-Safe n = record {
    at = λ w s p.
        let (hv, ht) = c.load_keeps n w.db in
        record {
          sound = same-IsSound hv ht s;
          evolves = same-Evolves hv;
          gives =
              read_result c n _ _ (db.load_volume n w.db).0 (ap (λ f. f n) hv)
                (c.load_reads n w.db);
        };
  }

  Written-Good :
      (v : Volume) (w : World D B) (x : Outcome × D)
      → Written v (view w.db) (view x.1) ⊎ (Failed x.0 × (view x.1 ≡ view w.db))
      → trail x.1 ≡ trail w.db
      → Progress (may v.name) (view w.db v.name) (some v)
      → IsSound c w.db
      → Good {B = B} c may (λ _. Current c v) w.db (x.0, record w { db = x.1 })
  unfolding ◌>>=◌
  Written-Good v w x (inl hw) ht p s = record {
    sound = Written-IsSound v hw ht s;
    evolves = Written-Evolves v hw p;
    gives = update_result c v w.db x.1 x.0 (inl hw);
  }
  Written-Good v w x (inr h) ht p s = record {
    sound = same-IsSound h.1 ht s;
    evolves = same-Evolves h.1;
    gives = update_result c v w.db x.1 x.0 (inr h);
  }

  -- An update of a stored row by a legal move.
  pub update-Safe :
      (v : Volume)
      → Safe {B = B} c may (Allowed c may v) (on_db (db.update_volume v)) (λ _. Current c v)
  unfolding ◌>>=◌
  update-Safe v = record {
    at = λ w s p.
        Written-Good v w (db.update_volume v w.db) (c.update_writes p.old v w.db p.stored p.same)
          (c.update_trail v w.db) (rw p.stored (p.same, p.moves)) s;
  }

  -- The insertion of a pending row under a free name.
  pub save-Safe :
      (v : Volume)
      → may v.name Event.create
      → v.state ≡ State.pending
      → Safe {B = B} c may (λ d. view d v.name ≡ none) (on_db (db.save_volume v)) (λ _. Current c v)
  unfolding ◌>>=◌
  save-Safe v a h = record {
    at = λ w s p.
        Written-Good v w (db.save_volume v w.db) (c.save_writes v w.db p) (c.save_trail v w.db)
          (rw p (a, subst (λ t. Moves (may v.name) t v.state) h stay)) s;
  }

  -- A legal entry for the audit trail, whose failure is dropped.
  pub save_event-Safe :
      (P : (String → Option Volume) → Type 0) (e : VolumeEvent)
      → IsLegal e
      → Safe {B = B} c may (λ d. P (view d)) (attempt (on_db (db.save_event e))) (λ _ d. P (view d))
  unfolding ◌>>=◌
  save_event-Safe P e h = record {
    at = λ w s p.
        let hv = c.save_event_view e w.db in
        record {
          sound = appended-IsSound e hv (c.save_event_appends e w.db) h s;
          evolves = same-Evolves hv;
          gives = subst P (sym hv) p;
        };
  }

  pub list-Safe : Safe {B = B} c may (λ _. Unit) (on_db db.list_volumes) (λ _ _. Unit)
  unfolding ◌>>=◌
  list-Safe = record {
    at = λ w s p.
        let (hv, ht) = c.list_keeps w.db in
        record {
          sound = same-IsSound hv ht s;
          evolves = same-Evolves hv;
          gives = Gives-always (λ _. Unit) (db.list_volumes w.db).0 _ tt;
        };
  }
