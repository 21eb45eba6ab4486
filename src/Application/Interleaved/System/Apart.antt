-- ===== src/Application/Interleaved/System/Apart.antt =====
-- Two threads of which at most one succeeds, since both need the same free name.
use block_storage_api.Prelude.{
  ℕ, zero, suc, String, ◌≡◌, sym, ap, subst, ◌⊎◌, inl, inr, Option, none, some, Option-cases, List,
  [], ◌∷◌, get_elem?,
}
use block_storage_api.Errors.{ok}
use block_storage_api.Storage.{Volume}
use block_storage_api.Dependency.{DatabaseDependency}
use block_storage_api.Dependency.Contract.{DatabaseContract}
use block_storage_api.Application.World.{World}
use block_storage_api.Application.Interleaved.{Program, ended, step}
use block_storage_api.Application.Interleaved.Steady.{Fixed, Steady}
use block_storage_api.Application.Interleaved.Rivals.{
  Barred, at_error, at_step, Rival, ahead, Rival-Barred,
}
use block_storage_api.Application.Interleaved.System.{advance, advance_nth}

still_taken : (o o' : Option Volume) (u : Volume) → Fixed o o' → o ≡ some u → o' ≡ none → ⊥
still_taken none o' u h e e' = absurd (cc)
still_taken (some v) none u h e e' = absurd h
still_taken (some v) (some v') u h e e' = absurd (cc)

module _ {D B : Type 0} where
  -- The world after the turn of a thread.
  pub advance_nth-world :
      (ps : List (Program D B (Unit {0}))) (n : ℕ) (w : World D B) (p : Program D B (Unit {0}))
      → get_elem? ps n ≡ some p
      → (advance_nth n ps w).world ≡ (advance p w).0
  unfolding advance_nth
  advance_nth-world [] n w p h = absurd (cc)
  advance_nth-world (q ∷ ps) zero w p h = ap (λ r. (advance r w).0) (cc)
  advance_nth-world (q ∷ ps) (suc n) w p h = advance_nth-world ps n w p h

  -- A move leaves the thread, or is its turn.
  abbrev pub Moved :
      World D B → World D B → Program D B (Unit {0}) → Program D B (Unit {0}) → Type 0
  Moved w w' p p' = (p' ≡ p) ⊎ ((p' ≡ (advance p w).1) × (w' ≡ (advance p w).0))

module _ {D B : Type 0} {db : DatabaseDependency D} {c : DatabaseContract db} {name : String} where
  open c use {view}

  Barred-turn :
      (p : Program D B (Unit {0})) (w : World D B) (u : Volume)
      → view w.db name ≡ some u
      → Barred c name p
      → Barred c name (advance p w).1
  unfolding advance
  Barred-turn (ended r) w u h b = b
  Barred-turn (step t k) w u h (at_step f) = f w u h

  Rival-turn :
      (p : Program D B (Unit {0})) (w : World D B)
      → view w.db name ≡ none
      → view (advance p w).0.db name ≡ none
      → Rival c name p
      → Rival c name (advance p w).1
  unfolding advance
  Rival-turn (ended r) w h h' b = b
  Rival-turn (step t k) w h h' (ahead b f) = f w h h'

  Barred-failed : (p : Program D B (Unit {0})) → Barred c name p → p ≡ ended (ok tt) → ⊥
  Barred-failed p at_error h = absurd (cc)
  Barred-failed p (at_step f) h = absurd (cc)

  Barred-Moved :
      (w w' : World D B) (p p' : Program D B (Unit {0})) (u : Volume)
      → view w.db name ≡ some u
      → Moved w w' p p'
      → Barred c name p
      → Barred c name p'
  Barred-Moved w w' p p' u h (inl e) b = subst (Barred c name) (sym e) b
  Barred-Moved w w' p p' u h (inr e) b = subst (Barred c name) (sym e.0) (Barred-turn p w u h b)

  Rival-Moved :
      (w w' : World D B) (p p' : Program D B (Unit {0}))
      → view w.db name ≡ none
      → view w'.db name ≡ none
      → Moved w w' p p'
      → Rival c name p
      → Rival c name p'
  Rival-Moved w w' p p' h h' (inl e) b = subst (Rival c name) (sym e) b
  Rival-Moved w w' p p' h h' (inr e) b =
      subst (Rival c name) (sym e.0)
        (Rival-turn p w h (subst (λ x. view x.db name ≡ none) e.1 h') b)

module _ {D B : Type 0} {db : DatabaseDependency D} (c : DatabaseContract db) (name : String) where
  open c use {view}

  -- The name is free and both threads are rivals for it, or it is taken and one of them will fail.
  abbrev pub Apart : World D B → Program D B (Unit {0}) → Program D B (Unit {0}) → Type 0
  Apart w p q =
      ((view w.db name ≡ none) × Rival c name p × Rival c name q)
      ⊎ ((u : Volume) × (view w.db name ≡ some u) × (Barred c name p ⊎ Barred c name q))

  -- At most one of the threads moves.
  pub Apart-Moved :
      (w w' : World D B) (p p' q q' : Program D B (Unit {0}))
      → Steady c w.db w'.db
      → Moved w w' p p'
      → Moved w w' q q'
      → (p' ≡ p) ⊎ (q' ≡ q)
      → Apart w p q
      → Apart w' p' q'
  Apart-Moved w w' p p' q q' s mp mq one (inr (u, h, inl b)) =
      elim (Option-cases (view w'.db name)) [
        | inl e ↦ absurd (still_taken _ _ u (s.at name) h e)
        | inr (u', e) ↦ inr (u', e, inl (Barred-Moved w w' p p' u h mp b))
      ]
  Apart-Moved w w' p p' q q' s mp mq one (inr (u, h, inr b)) =
      elim (Option-cases (view w'.db name)) [
        | inl e ↦ absurd (still_taken _ _ u (s.at name) h e)
        | inr (u', e) ↦ inr (u', e, inr (Barred-Moved w w' q q' u h mq b))
      ]
  Apart-Moved w w' p p' q q' s mp mq one (inl (h, rp, rq)) = elim (Option-cases (view w'.db name)) [
    | inl e ↦ inl (e, Rival-Moved w w' p p' h e mp rp, Rival-Moved w w' q q' h e mq rq)
    | inr (u, e) ↦ inr (u, e, one_barred one)
  ]
    where
      one_barred : (p' ≡ p) ⊎ (q' ≡ q) → Barred c name p' ⊎ Barred c name q'
      one_barred (inl e) = inl (subst (Barred c name) (sym e) (Rival-Barred rp))
      one_barred (inr e) = inr (subst (Barred c name) (sym e) (Rival-Barred rq))

  pub Apart-failed :
      (w : World D B) (p q : Program D B (Unit {0}))
      → Apart w p q
      → p ≡ ended (ok tt)
      → q ≡ ended (ok tt)
      → ⊥
  Apart-failed w p q (inl (h, rp, rq)) e e' = Barred-failed p (Rival-Barred rp) e
  Apart-failed w p q (inr (u, h, inl b)) e e' = Barred-failed p b e
  Apart-failed w p q (inr (u, h, inr b)) e e' = Barred-failed q b e'
