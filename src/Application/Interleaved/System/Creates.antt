-- ===== src/Application/Interleaved/System/Creates.antt =====
-- Two creations of one name that run at the same time.
use block_storage_api.Prelude.{
  ℕ, String, ◌≡◌, refl, subst, ◌⊎◌, inl, inr, Option, some, true, false, Bool-cases, Option-cases,
  List, [], ◌∷◌, ℤ, arith, eqb, ◌≢◌, get_elem?, get_elem?-map,
}
use block_storage_api.Errors.{ok}
use block_storage_api.Broker.Laws.{IsValid}
use block_storage_api.Dependency.Contract.{DatabaseContract}
use block_storage_api.Application.World.{Application, World}
use block_storage_api.Application.Safety.{IsSound}
use block_storage_api.Application.History.{Request}
use block_storage_api.Application.Interleaved.{Program, ended}
use block_storage_api.Application.Interleaved.Programs.{program}
use block_storage_api.Application.Interleaved.Rivals.{Rival-Barred, program-Rival}
use block_storage_api.Application.Interleaved.System.{
  System, Move, arrive, start, take, cancel, receive, advance, play, schedule, serving,
}
use block_storage_api.Application.Interleaved.System.Apart.{
  Moved, Apart, advance_nth-world, Apart-Moved, Apart-failed,
}
use block_storage_api.Application.Interleaved.System.Kept.{IsRunning, play-Leads, serving-IsRunning}
use block_storage_api.Application.Interleaved.System.Ends.{is_turn, play-other, play-own}

turn_index : (i n : ℕ) → eqb i n ≡ true → n ≡ i
turn_index i n e = ground (arith, e)

the_same : {A : Type 0} {o : Option A} {x y : A} → o ≡ some x → o ≡ some y → x ≡ y
the_same h k = cc

module _ {D B M : Type 0} (app : Application D B M) (c : DatabaseContract app.database) where
  play-world :
      (m : Move) (s : System D B) (n : ℕ) (p : Program D B (Unit {0}))
      → is_turn n m ≡ true
      → get_elem? s.threads n ≡ some p
      → (play app m s).world ≡ (advance p s.world).0
  unfolding play
  play-world (arrive r) s n p e h = absurd (cc)
  play-world start s n p e h = absurd (cc)
  play-world (take i) s n p e h =
      advance_nth-world s.threads i s.world p
        (subst (λ j. get_elem? s.threads j ≡ some p) (turn_index i n e) h)
  play-world cancel s n p e h = absurd (cc)
  play-world (receive ch) s n p e h = absurd (cc)

  play-thread :
      (m : Move) (s : System D B) (n : ℕ) (p : Program D B (Unit {0}))
      → get_elem? s.threads n ≡ some p
      → (p' : Program D B (Unit {0})) × (get_elem? (play app m s).threads n ≡ some p')
        × Moved s.world (play app m s).world p p'
        × ((p' ≡ p) ⊎ (is_turn n m ≡ true))
  play-thread m s n p h = elim (Bool-cases (is_turn n m)) [
    | inl e ↦ (_, play-own app m s n p e h, inr (refl, play-world m s n p e h), inr e)
    | inr e ↦ (p, play-other app m s n p e h, inl refl, inl refl)
  ]

  one_rests :
      (m : Move) (i j : ℕ) (p p' q q' : Program D B (Unit {0}))
      → eqb i j ≡ false
      → (p' ≡ p) ⊎ (is_turn i m ≡ true)
      → (q' ≡ q) ⊎ (is_turn j m ≡ true)
      → (p' ≡ p) ⊎ (q' ≡ q)
  one_rests m i j p p' q q' d (inl e) k = inl e
  one_rests m i j p p' q q' d (inr e) (inl k) = inr k
  one_rests (take n) i j p p' q q' d (inr e) (inr k) = absurd (ground (arith, d, e, k))
  one_rests (arrive r) i j p p' q q' d (inr e) (inr k) = absurd (cc)
  one_rests start i j p p' q q' d (inr e) (inr k) = absurd (cc)
  one_rests cancel i j p p' q q' d (inr e) (inr k) = absurd (cc)
  one_rests (receive ch) i j p p' q q' d (inr e) (inr k) = absurd (cc)

  stay-Apart :
      (name : String) (ms : List Move) (s : System D B) (i j : ℕ) (p q : Program D B (Unit {0}))
      → eqb i j ≡ false
      → get_elem? s.threads i ≡ some p
      → get_elem? s.threads j ≡ some q
      → IsRunning c s
      → Apart c name s.world p q
      → get_elem? (schedule app ms s).threads i ≡ some (ended (ok tt))
      → get_elem? (schedule app ms s).threads j ≡ some (ended (ok tt))
      → ⊥
  unfolding schedule
  stay-Apart name [] s i j p q d hp hq running apart e e' =
      Apart-failed c name s.world p q apart (the_same hp e) (the_same hq e')
  stay-Apart name (m ∷ ms) s i j p q d hp hq running apart e e' =
      let (p', hp', mp, rp) = play-thread m s i p hp in
      let (q', hq', mq, rq) = play-thread m s j q hq in
      let next = play-Leads app c m s running in
      stay-Apart name ms (play app m s) i j p' q' d hp' hq' next.running
        (Apart-Moved c name s.world (play app m s).world p p' q q' next.steady mp mq
          (one_rests m i j p p' q q' d rp rq) apart)
        e e'

  Apart-at_first :
      (name : String) (w : World D B) (a b : ℤ)
      → Apart c name w (program app (Request.create name a)) (program app (Request.create name b))
  Apart-at_first name w a b =
      let p = program-Rival app c name a in
      let q = program-Rival app c name b in
      elim (Option-cases (c.view w.db name)) [
        | inl e ↦ inl (e, p, q)
        | inr (u, e) ↦ inr (u, e, inl (Rival-Barred p))
      ]

  -- Of two creations of one name that are served at the same time, with any other requests, at most one
  -- succeeds, in whatever order the requests and the goroutines take their steps and whatever fails, over
  -- any database that meets the contract, from a sound database and a valid event broker.
  pub two_creations :
      (name : String) (a b : ℤ) (rs : List Request) (i j : ℕ) (ms : List Move) (w : World D B)
      → get_elem? rs i ≡ some (Request.create name a)
      → get_elem? rs j ≡ some (Request.create name b)
      → i ≢ j
      → w.tasks ≡ []
      → IsSound c w.db
      → IsValid w.broker
      → ¬ (
          (get_elem? (schedule app ms (serving app rs w)).threads i ≡ some (ended (ok tt)))
          × (get_elem? (schedule app ms (serving app rs w)).threads j ≡ some (ended (ok tt))))
  two_creations name a b rs i j ms w hi hj distinct none_started sound calm (e, e') =
      stay-Apart name ms (serving app rs w) i j _ _ (ground (arith, distinct))
        (get_elem?-map (program app) rs i _ hi) (get_elem?-map (program app) rs j _ hj)
        (serving-IsRunning app c rs w none_started sound calm) (Apart-at_first name w a b) e e'
