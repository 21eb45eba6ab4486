-- ===== src/Application/Interleaved/System/Ends.antt =====
-- A thread that takes enough turns has ended, whatever the others do meanwhile.
use block_storage_api.Prelude.{
  ℕ, zero, suc, ◌≤◌, ◌≡◌, ap, subst, inl, inr, some, Bool, true, false, Bool-cases, eqb,
  if◌then◌else◌, List, [], ◌∷◌, get_elem?, get_elem?-append, arith,
}
use block_storage_api.Errors.{Result}
use block_storage_api.Application.World.{Application, World, Task}
use block_storage_api.Application.History.{Request}
use block_storage_api.Application.Interleaved.{Program, ended, step}
use block_storage_api.Application.Interleaved.Programs.{program}
use block_storage_api.Application.Interleaved.Ends.{Within, at_end, at_step}
use block_storage_api.Application.Interleaved.Ends.Methods.{budget, program-Within}
use block_storage_api.Application.Interleaved.System.{
  System, Move, arrive, start, take, cancel, receive, advance, advance_nth, started, play, schedule,
}

abbrev pub is_turn : ℕ → Move → Bool
is_turn n (take i) = eqb i n
is_turn n _ = false

-- How many turns the n-th thread takes.
abbrev pub turns : ℕ → List Move → ℕ
turns n [] = 0
turns n (m ∷ ms) = if is_turn n m then suc (turns n ms) else turns n ms

module _ {D B : Type 0} where
  pub advance_nth-own :
      (ps : List (Program D B (Unit {0}))) (n : ℕ) (w : World D B) (p : Program D B (Unit {0}))
      → get_elem? ps n ≡ some p
      → get_elem? (advance_nth n ps w).threads n ≡ some (advance p w).1
  unfolding advance_nth
  advance_nth-own [] n w p h = absurd (cc)
  advance_nth-own (q ∷ ps) zero w p h = ap (λ r. some (advance r w).1) (cc)
  advance_nth-own (q ∷ ps) (suc n) w p h = advance_nth-own ps n w p h

  advance_nth-other :
      (ps : List (Program D B (Unit {0}))) (i n : ℕ) (w : World D B) (p : Program D B (Unit {0}))
      → eqb i n ≡ false
      → get_elem? ps n ≡ some p
      → get_elem? (advance_nth i ps w).threads n ≡ some p
  unfolding advance_nth
  advance_nth-other [] i n w p e h = absurd (cc)
  advance_nth-other (q ∷ ps) zero zero w p e h = absurd (cc)
  advance_nth-other (q ∷ ps) zero (suc n) w p e h = h
  advance_nth-other (q ∷ ps) (suc i) zero w p e h = h
  advance_nth-other (q ∷ ps) (suc i) (suc n) w p e h =
      advance_nth-other ps i n w p (ground (arith, e)) h

  advance-Within :
      {n m : ℕ} (p : Program D B (Unit {0})) (w : World D B)
      → Within n p
      → n ≤ suc m
      → (k : ℕ) × Within k (advance p w).1 × (k ≤ m)
  unfolding advance
  advance-Within (ended r) w at_end h = (0, at_end, omega arith)
  advance-Within (step t k) w (at_step {n} c f) h = (n, f w, omega arith)

module _ {D B M : Type 0} (app : Application D B M) where
  started-other :
      (ts : List Task) (s : System D B) (n : ℕ) (p : Program D B (Unit {0}))
      → get_elem? s.threads n ≡ some p
      → get_elem? (started app ts s).threads n ≡ some p
  unfolding started
  started-other [] s n p h = h
  started-other (t ∷ ts) s n p h = get_elem?-append s.threads _ n p h

  pub play-other :
      (m : Move) (s : System D B) (n : ℕ) (p : Program D B (Unit {0}))
      → is_turn n m ≡ false
      → get_elem? s.threads n ≡ some p
      → get_elem? (play app m s).threads n ≡ some p
  unfolding play
  play-other (arrive r) s n p e h = get_elem?-append s.threads _ n p h
  play-other start s n p e h = started-other s.world.tasks s n p h
  play-other (take i) s n p e h = advance_nth-other s.threads i n s.world p e h
  play-other cancel s n p e h = h
  play-other (receive c) s n p e h = h

  pub play-own :
      (m : Move) (s : System D B) (n : ℕ) (p : Program D B (Unit {0}))
      → is_turn n m ≡ true
      → get_elem? s.threads n ≡ some p
      → get_elem? (play app m s).threads n ≡ some (advance p s.world).1
  unfolding play
  play-own (arrive r) s n p e h = absurd (cc)
  play-own start s n p e h = absurd (cc)
  play-own (take i) s n p e h =
      let same : n ≡ i = ground (arith, e) in
      subst
        (λ j. get_elem? (advance_nth j s.threads s.world).threads n ≡ some (advance p s.world).1)
        same (advance_nth-own s.threads n s.world p h)
  play-own cancel s n p e h = absurd (cc)
  play-own (receive c) s n p e h = absurd (cc)

  finishes :
      (ms : List Move) (s : System D B) (n b : ℕ) (p : Program D B (Unit {0}))
      → get_elem? s.threads n ≡ some p
      → Within b p
      → b ≤ turns n ms
      → (r : Result (Unit {0})) × (get_elem? (schedule app ms s).threads n ≡ some (ended r))
  unfolding schedule
  finishes [] s n b (ended r) h at_end k = (r, h)
  finishes [] s n b (step t f) h (at_step c g) k = absurd (omega arith)
  finishes (m ∷ ms) s n b p h within k = elim (Bool-cases (is_turn n m)) [
    | inl e ↦
        let (b', within', k') =
          advance-Within p s.world within
            (subst (λ c. b ≤ (if c then suc (turns n ms) else turns n ms)) e k) in
        finishes ms (play app m s) n b' _ (play-own m s n p e h) within' k'
    | inr e ↦
        finishes ms (play app m s) n b p (play-other m s n p e h) within
          (subst (λ c. b ≤ (if c then suc (turns n ms) else turns n ms)) e k)
  ]

  -- A thread that serves a request, or runs the goroutine of an operation, has ended once it has taken
  -- ten steps, or 16 for each attempt that the retry policy allows: whatever other requests and
  -- goroutines do between its steps, whatever fails, and whenever the context is cancelled.
  pub schedule-ended :
      (ms : List Move) (s : System D B) (n : ℕ) (r : Request)
      → get_elem? s.threads n ≡ some (program app r)
      → budget app r ≤ turns n ms
      → (x : Result (Unit {0})) × (get_elem? (schedule app ms s).threads n ≡ some (ended x))
  schedule-ended ms s n r h k =
      finishes ms s n (budget app r) (program app r) h (program-Within app r) k
