-- ===== src/Application/Interleaved/Steady/Database.antt =====
-- The rules for the calls of the database.
use block_storage_api.Prelude.{
  String, ◌≡◌, refl, sym, ◌∙◌, ap, subst, ◌⊎◌, inl, inr, Option, none, some, List, [], ◌∷◌, ◌++◌,
  eq_refl, Option-cases,
}
use block_storage_api.Errors.{Failed, Result, ok, err, Outcome}
use block_storage_api.Storage.{Volume}
use block_storage_api.Dependency.{VolumeEvent, DatabaseDependency}
use block_storage_api.Dependency.Contract.{DatabaseContract, SameRow, Written}
use block_storage_api.Application.World.{on_db}
use block_storage_api.Application.Safety.{IsSound, IsLegal, Gives, Gives-always}
use block_storage_api.Application.Safety.Rows.{SameRow-refl, SameRow-stamp}
use block_storage_api.Application.Safety.Database.{same-IsSound, Written-IsSound, appended-IsSound}
use block_storage_api.Application.Interleaved.{atom, attempt}
use block_storage_api.Application.Interleaved.Steady.{
  Steady, Known, Holds, same-Steady, same_trail, Written-Steady, Known-Steady,
}
use block_storage_api.Application.Interleaved.Steady.Calls.{Holds-db, Holds-attempt}

-- A volume that was loaded is known, and stands under the name.
abbrev pub Loaded :
    {D : Type 0} {db : DatabaseDependency D}
    → DatabaseContract db
    → String
    → Option Volume
    → D
    → Type 0
Loaded c n none d = Unit
Loaded c n (some v) d = Known c v d × (v.name ≡ n)

module _ {D : Type 0} {db : DatabaseDependency D} (c : DatabaseContract db) where
  open c use {view, trail}

  loaded : (n : String) (d : D) (o : Option Volume) → IsSound c d → view d n ≡ o → Loaded c n o d
  loaded n d none s h = tt
  loaded n d (some v) s h =
      let named = s.keyed n v h in
      (record { row = v; stored = ap (view d) named ∙ h; same = SameRow-refl v }, named)

  read_result :
      (n : String) (d : D) (o : Option Volume) (r : Result (Option Volume))
      → Loaded c n o d
      → (r ≡ ok o) ⊎ Failed r
      → Gives (Loaded c n) r d
  read_result n d o (ok p) h (inl e) = subst (λ q. Gives (Loaded c n) q d) (sym e) h
  read_result n d o (ok p) h (inr (x, e)) = absurd (cc)
  read_result n d o (err x) h e = tt

  appended :
      (x : VolumeEvent) (d : D) (y : Outcome × D)
      → (trail y.1 ≡ trail d ++ x ∷ []) ⊎ (Failed y.0 × (trail y.1 ≡ trail d))
      → (es : List VolumeEvent) × (trail y.1 ≡ trail d ++ es)
  appended x d y (inl h) = (x ∷ [], h)
  appended x d y (inr h) = same_trail h.1

  -- A write of `v` that was made, or failed without a trace.
  abbrev Wrote : Volume → D → Outcome × D → Type 0
  Wrote v d x = Written v (view d) (view x.1) ⊎ (Failed x.0 × (view x.1 ≡ view d))

  Wrote-IsSound :
      (v : Volume) (d : D) (x : Outcome × D)
      → Wrote v d x
      → trail x.1 ≡ trail d
      → IsSound c d
      → IsSound c x.1
  Wrote-IsSound v d x (inl hw) ht s = Written-IsSound v hw ht s
  Wrote-IsSound v d x (inr h) ht s = same-IsSound h.1 ht s

  Wrote-Steady :
      (v : Volume) (d : D) (x : Outcome × D)
      → Wrote v d x
      → ((u : Volume) → view d v.name ≡ some u → SameRow u v)
      → trail x.1 ≡ trail d
      → Steady c d x.1
  Wrote-Steady v d x (inl hw) same ht = Written-Steady v hw same ht
  Wrote-Steady v d x (inr h) same ht = same-Steady h.1 (same_trail ht)

  Wrote-Known :
      (v : Volume) (d d' : D) (r : Outcome) → Wrote v d (r, d') → Gives (λ _. Known c v) r d'
  Wrote-Known v d d' (ok a) (inl hw) = record {
    row = record v { updated_at = hw.0 };
    stored = hw.1 v.name ∙ rw (eq_refl v.name) refl;
    same = SameRow-stamp hw.0 v.updated_at (SameRow-refl v);
  }
  Wrote-Known v d d' (ok a) (inr ((e, h), _)) = absurd (cc)
  Wrote-Known v d d' (err e) h = tt

module _ {D B : Type 0} {db : DatabaseDependency D} (c : DatabaseContract db) where
  open c use {view}

  pub load-Holds :
      (n : String) {d : D} → Holds {B = B} c (Loaded c n) d (atom (on_db (db.load_volume n)))
  load-Holds n =
      Holds-db (db.load_volume n) (λ e s _. let (hv, ht) = c.load_keeps n e in same-IsSound hv ht s)
        (λ e s _. let (hv, ht) = c.load_keeps n e in same-Steady hv (same_trail ht))
        (λ e s _.
          let (hv, ht) = c.load_keeps n e in
          read_result c n (db.load_volume n e).1 (view e n) (db.load_volume n e).0
            (loaded c n (db.load_volume n e).1 (view e n) (same-IsSound hv ht s) (ap (λ f. f n) hv))
            (c.load_reads n e))

  pub update-Holds :
      (v : Volume) {d : D}
      → Known c v d
      → Holds {B = B} c (λ _. Known c v) d (atom (on_db (db.update_volume v)))
  update-Holds v {d} h =
      Holds-db (db.update_volume v)
        (λ e s st. Wrote-IsSound c v e _ (wrote e st) (c.update_trail v e) s)
        (λ e s st.
          let k = Known-Steady st h in
          Wrote-Steady c v e _ (wrote e st) (λ u q. subst (λ x. SameRow x v) (cc) k.same)
            (c.update_trail v e))
        (λ e s st. Wrote-Known c v e _ _ (wrote e st))
    where
      wrote : (e : D) → Steady c d e → Wrote c v e (db.update_volume v e)
      wrote e st = let k = Known-Steady st h in c.update_writes k.row v e k.stored k.same

  pub save-Holds :
      (v : Volume) {d : D} → Holds {B = B} c (λ _. Known c v) d (atom (on_db (db.save_volume v)))
  save-Holds v =
      Holds-db (db.save_volume v) (λ e s st. Wrote-IsSound c v e _ (wrote e) (c.save_trail v e) s)
        (λ e s st. steady e (view e v.name) refl) (λ e s st. Wrote-Known c v e _ _ (wrote e))
    where
      wrote : (e : D) → Wrote c v e (db.save_volume v e)
      wrote e = elim (Option-cases (view e v.name)) [
        | inl free ↦ c.save_writes v e free
        | inr (u, taken) ↦ inr (c.save_refuses u v e taken)
      ]

      steady : (e : D) (o : Option Volume) → view e v.name ≡ o → Steady c e (db.save_volume v e).1
      steady e none free =
          Wrote-Steady c v e _ (c.save_writes v e free) (λ u q. absurd (cc)) (c.save_trail v e)
      steady e (some u) taken =
          same-Steady (c.save_refuses u v e taken).1 (same_trail (c.save_trail v e))

  -- A legal entry for the audit trail, whose failure is dropped.
  pub save_event-Holds :
      (x : VolumeEvent) {d : D}
      → IsLegal x
      → Holds {B = B} c (λ _ _. Unit) d (attempt (atom (on_db (db.save_event x))))
  save_event-Holds x h = Holds-attempt (
      Holds-db {Q = λ _ _. Unit} (db.save_event x)
        (λ e s _. appended-IsSound x (c.save_event_view x e) (c.save_event_appends x e) h s)
        (λ e s _. same-Steady (c.save_event_view x e) (appended c x e _ (c.save_event_appends x e)))
        (λ e s _. Gives-always (λ _. Unit) (db.save_event x e).0 _ tt))

  pub list-Holds : {d : D} → Holds {B = B} c (λ _ _. Unit) d (atom (on_db db.list_volumes))
  list-Holds =
      Holds-db db.list_volumes (λ e s _. let (hv, ht) = c.list_keeps e in same-IsSound hv ht s)
        (λ e s _. let (hv, ht) = c.list_keeps e in same-Steady hv (same_trail ht))
        (λ e s _. Gives-always (λ _. Unit) (db.list_volumes e).0 _ tt)
