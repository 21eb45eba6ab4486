-- ===== src/Application/Interleaved/System/Cancelled.antt =====
-- After the lifecycle context was cancelled.
use block_storage_api.Prelude.{
  ℕ, zero, suc, ◌≤◌, ◌≡◌, refl, ◌∙◌, ap, subst, Bool-cases, inl, inr, some, List, [], ◌∷◌, ◌++◌,
  All, All-append, All-map, get_elem?, if◌then◌else◌, arith,
}
use block_storage_api.Errors.{Result}
use block_storage_api.Application.World.{Application, World, Task}
use block_storage_api.Application.History.{Request}
use block_storage_api.Application.Interleaved.{Program, ended, step}
use block_storage_api.Application.Interleaved.Programs.{program}
use block_storage_api.Application.Interleaved.Shutdown.{
  Soon, now, later, Prompt, over, on_the_way, program-Prompt, run_with_retry-Prompt,
}
use block_storage_api.Application.Interleaved.System.{
  System, Move, arrive, start, take, cancel, receive, advance, advance_nth, started, play, schedule,
  serving,
}
use block_storage_api.Application.Interleaved.System.Ends.{is_turn, turns, play-own, play-other}

module _ {D B : Type 0} where
  advance_nth-Prompt :
      (n : ℕ) (ps : List (Program D B (Unit {0}))) (w : World D B)
      → All (Prompt 16) ps
      → All (Prompt 16) (advance_nth n ps w).threads
  unfolding advance_nth advance
  advance_nth-Prompt n [] w h = tt
  advance_nth-Prompt zero (ended r ∷ ps) w h = h
  advance_nth-Prompt zero (step t k ∷ ps) w (on_the_way c s f, h) = (f w, h)
  advance_nth-Prompt (suc n) (p ∷ ps) w h = (h.0, advance_nth-Prompt n ps w h.1)

  advance_nth-cancelled :
      (n : ℕ) (ps : List (Program D B (Unit {0}))) (w : World D B)
      → All (Prompt 16) ps
      → w.done_after ≡ some 0
      → (advance_nth n ps w).world.done_after ≡ some 0
  unfolding advance_nth advance
  advance_nth-cancelled n [] w h e = e
  advance_nth-cancelled zero (ended r ∷ ps) w h e = e
  advance_nth-cancelled zero (step t k ∷ ps) w (on_the_way c s f, h) e = c w e
  advance_nth-cancelled (suc n) (p ∷ ps) w h e = advance_nth-cancelled n ps w h.1 e

  advance-Soon :
      {n m : ℕ} (p : Program D B (Unit {0})) (w : World D B)
      → w.done_after ≡ some 0
      → Soon n p
      → n ≤ suc m
      → (k : ℕ) × Soon k (advance p w).1 × (k ≤ m)
  unfolding advance
  advance-Soon (ended r) w e now h = (0, now, omega arith)
  advance-Soon (step t k) w e (later {n} f) h = (n, f w e, omega arith)

  Prompt-Soon : (p : Program D B (Unit {0})) → Prompt 16 p → Soon 16 p
  Prompt-Soon p over = now
  Prompt-Soon p (on_the_way c s f) = s

  nth-Prompt :
      (ps : List (Program D B (Unit {0}))) (n : ℕ) (p : Program D B (Unit {0}))
      → get_elem? ps n ≡ some p
      → All (Prompt 16) ps
      → Prompt 16 p
  nth-Prompt [] n p e h = absurd (cc)
  nth-Prompt (q ∷ ps) zero p e h = subst (Prompt 16) (cc) h.0
  nth-Prompt (q ∷ ps) (suc n) p e h = nth-Prompt ps n p e h.1

module _ {D B M : Type 0} (app : Application D B M) where
  started-Prompt :
      (ts : List Task) (s : System D B)
      → All (Prompt 16) s.threads
      → All (Prompt 16) (started app ts s).threads
  unfolding started
  started-Prompt [] s h = h
  started-Prompt (t ∷ ts) s h = All-append _ s.threads _ h (run_with_retry-Prompt app t, tt)

  started-cancelled :
      (ts : List Task) (s : System D B)
      → s.world.done_after ≡ some 0
      → (started app ts s).world.done_after ≡ some 0
  unfolding started
  started-cancelled [] s e = e
  started-cancelled (t ∷ ts) s e = e

  play-Prompt :
      (m : Move) (s : System D B)
      → All (Prompt 16) s.threads
      → All (Prompt 16) (play app m s).threads
  unfolding play
  play-Prompt (arrive r) s h = All-append _ s.threads _ h (program-Prompt app r, tt)
  play-Prompt start s h = started-Prompt s.world.tasks s h
  play-Prompt (take n) s h = advance_nth-Prompt n s.threads s.world h
  play-Prompt cancel s h = h
  play-Prompt (receive c) s h = h

  play-cancelled :
      (m : Move) (s : System D B)
      → All (Prompt 16) s.threads
      → s.world.done_after ≡ some 0
      → (play app m s).world.done_after ≡ some 0
  unfolding play
  play-cancelled (arrive r) s h e = e
  play-cancelled start s h e = started-cancelled s.world.tasks s e
  play-cancelled (take n) s h e = advance_nth-cancelled n s.threads s.world h e
  play-cancelled cancel s h e = refl
  play-cancelled (receive c) s h e = e

  schedule-Prompt :
      (ms : List Move) (s : System D B)
      → All (Prompt 16) s.threads
      → All (Prompt 16) (schedule app ms s).threads
  unfolding schedule
  schedule-Prompt [] s h = h
  schedule-Prompt (m ∷ ms) s h = schedule-Prompt ms (play app m s) (play-Prompt m s h)

  schedule-append :
      (ms ns : List Move) (s : System D B)
      → schedule app (ms ++ ns) s ≡ schedule app ns (schedule app ms s)
  unfolding schedule
  schedule-append [] ns s = refl
  schedule-append (m ∷ ms) ns s = schedule-append ms ns (play app m s)

  finishes-Soon :
      (ms : List Move) (s : System D B) (n b : ℕ) (p : Program D B (Unit {0}))
      → s.world.done_after ≡ some 0
      → All (Prompt 16) s.threads
      → get_elem? s.threads n ≡ some p
      → Soon b p
      → b ≤ turns n ms
      → (x : Result (Unit {0})) × (get_elem? (schedule app ms s).threads n ≡ some (ended x))
  unfolding schedule
  finishes-Soon [] s n b (ended r) e all h now k = (r, h)
  finishes-Soon [] s n b (step t f) e all h (later g) k = absurd (omega arith)
  finishes-Soon (m ∷ ms) s n b p e all h soon k = elim (Bool-cases (is_turn n m)) [
    | inl own ↦
        let (b', soon', k') =
          advance-Soon p s.world e soon
            (subst (λ c. b ≤ (if c then suc (turns n ms) else turns n ms)) own k) in
        finishes-Soon ms (play app m s) n b' _ (play-cancelled m s all e) (play-Prompt m s all)
          (play-own app m s n p own h) soon' k'
    | inr other ↦
        finishes-Soon ms (play app m s) n b p (play-cancelled m s all e) (play-Prompt m s all)
          (play-other app m s n p other h) soon
          (subst (λ c. b ≤ (if c then suc (turns n ms) else turns n ms)) other k)
  ]

  -- A request or goroutine that is running when the lifecycle context is cancelled has ended once it has
  -- taken 16 steps more, however many attempts the retry policy allows, in whatever place it was, and
  -- whatever the others do meanwhile.
  pub cancelled-ended :
      (rs : List Request) (before after : List Move) (w : World D B) (n : ℕ)
      (p : Program D B (Unit {0}))
      → get_elem? (schedule app before (serving app rs w)).threads n ≡ some p
      → 16 ≤ turns n after
      → (x : Result (Unit {0})) × (get_elem?
            (schedule app (before ++ cancel ∷ after) (serving app rs w)).threads
            n
          ≡ some (ended x))
  unfolding schedule play
  cancelled-ended rs before after w n p h k =
      let s = schedule app before (serving app rs w) in
      let all =
        schedule-Prompt before (serving app rs w)
          (All-map _ (program app) rs (program-Prompt app)) in
      let (x, e) =
        finishes-Soon after (play app cancel s) n 16 p refl all h
          (Prompt-Soon p (nth-Prompt s.threads n p h all)) k in
      (
        x,
        ap (λ z. get_elem? z.threads n) (schedule-append before (cancel ∷ after) (serving app rs w))
            ∙ e,
      )
