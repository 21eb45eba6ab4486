-- ===== src/Application/Interleaved/Shutdown.antt =====
-- How soon a program ends once the lifecycle context is cancelled.
use block_storage_api.Prelude.{
  ℕ, zero, suc, ◌+◌, ◌≤◌, ◌≡◌, ap, some, Bool, true, false, arith, if◌then◌else◌,
}
use block_storage_api.Errors.{Result, ok, err}
use block_storage_api.Application.World.{Application, World, Task, is_done, tick, ◌>>=◌ as bind}
use block_storage_api.Application.Retry.{Flow, stop, again}
use block_storage_api.Application.History.{Request}
use block_storage_api.Application.Operations.{task_of}
use block_storage_api.Application.Interleaved.{Program, ended, step, ◌>>=◌, pure}
use block_storage_api.Application.Interleaved.Programs.{
  round, after_flow, attempts, run_with_retry, program,
}
use block_storage_api.Application.Interleaved.Ends.{
  Within, at_end, at_step, Within-bind, Within-catch, Within-backend,
}
use block_storage_api.Application.Interleaved.Ends.Methods.{outcome-Within, program-Within}

-- With the context cancelled, the program ends after at most so many steps.
pub data Soon {D B A : Type 0} : ℕ → Program D B A → Type 0 where
  now : {n : ℕ} {r : Result A} → Soon n (ended r)
  later :
      {n : ℕ} {t : World D B → World D B} {k : World D B → Program D B A}
      → ((w : World D B) → w.done_after ≡ some 0 → Soon n (k w))
      → Soon (suc n) (step t k)

-- Wherever the program is when the context is cancelled, it ends after at most `m` steps more.
pub data Prompt {D B A : Type 0} (m : ℕ) : Program D B A → Type 0 where
  over : {r : Result A} → Prompt m (ended r)
  on_the_way :
      {t : World D B → World D B} {k : World D B → Program D B A}
      → ((w : World D B) → w.done_after ≡ some 0 → (t w).done_after ≡ some 0)
      → Soon m (step t k)
      → ((w : World D B) → Prompt m (k w))
      → Prompt m (step t k)

module _ {D B : Type 0} where
  Soon-more : {A : Type 0} {n m : ℕ} {p : Program D B A} → n ≤ m → Soon n p → Soon m p
  Soon-more h now = now
  Soon-more {m = zero} h (later k) = absurd (omega arith)
  Soon-more {m = suc m} h (later k) = later (λ w e. Soon-more (omega arith) (k w e))

  Within-Soon : {A : Type 0} {n m : ℕ} {p : Program D B A} → n ≤ m → Within n p → Soon m p
  Within-Soon h at_end = now
  Within-Soon {m = zero} h (at_step c k) = absurd (omega arith)
  Within-Soon {m = suc m} h (at_step c k) = later (λ w e. Within-Soon (omega arith) (k w))

  Within-Prompt : {A : Type 0} {n m : ℕ} {p : Program D B A} → n ≤ m → Within n p → Prompt m p
  Within-Prompt h at_end = over
  Within-Prompt h (at_step {n} c k) =
      on_the_way c (Within-Soon h (at_step c k)) (λ w. Within-Prompt (omega arith) (k w))

  -- A short program, and then one that ends at once if the context is cancelled.
  Soon-bind :
      {A C : Type 0} {n m : ℕ} {p : Program D B A} (f : A → Program D B C)
      → n + 1 ≤ m
      → Within n p
      → ((a : A) → Soon 1 (f a))
      → Soon m (p >>= f)
  unfolding ◌>>=◌
  Soon-bind f h (at_end {r = ok a}) k = Soon-more (omega arith) (k a)
  Soon-bind f h (at_end {r = err e}) k = now
  Soon-bind {m = zero} f h (at_step c g) k = absurd (omega arith)
  Soon-bind {m = suc m} f h (at_step c g) k = later (λ w e. Soon-bind f (omega arith) (g w) k)

  Prompt-bind :
      {A C : Type 0} {n m : ℕ} {p : Program D B A} (f : A → Program D B C)
      → n + 1 ≤ m
      → Within n p
      → ((a : A) → Soon 1 (f a))
      → ((a : A) → Prompt m (f a))
      → Prompt m (p >>= f)
  unfolding ◌>>=◌
  Prompt-bind f h (at_end {r = ok a}) k l = l a
  Prompt-bind f h (at_end {r = err e}) k l = over
  Prompt-bind {m = m} f h (at_step {n} c g) k l =
      on_the_way c (Soon-bind f h (at_step c g) k) (λ w. Prompt-bind f (omega arith) (g w) k l)

module _ {D B M : Type 0} (app : Application D B M) where
  stopped :
      (rest : ℕ → Program D B (Unit {0})) (b : Bool) (q : Program D B Flow)
      → b ≡ true
      → Soon 0 ((if b then pure stop else q) >>= after_flow app rest)
  unfolding ◌>>=◌
  stopped rest true q h = now
  stopped rest false q h = absurd (cc)

  stops : (rest : ℕ → Program D B (Unit {0})) → Prompt 16 (pure stop >>= after_flow app rest)
  unfolding ◌>>=◌
  stops rest = over

  after_flow-Soon :
      (rest : ℕ → Program D B (Unit {0}))
      → ((wait : ℕ) → Soon 1 (rest wait))
      → (flow : Flow) → Soon 1 (after_flow app rest flow)
  after_flow-Soon rest h stop = now
  after_flow-Soon rest h (again wait) = h wait

  after_flow-Prompt :
      (rest : ℕ → Program D B (Unit {0}))
      → ((wait : ℕ) → Prompt 16 (rest wait))
      → (flow : Flow) → Prompt 16 (after_flow app rest flow)
  after_flow-Prompt rest h stop = over
  after_flow-Prompt rest h (again wait) = h wait

  going :
      (rest : ℕ → Program D B (Unit {0})) (b : Bool) (q : Program D B Flow)
      → Within 15 q
      → ((flow : Flow) → Soon 1 (after_flow app rest flow))
      → ((flow : Flow) → Prompt 16 (after_flow app rest flow))
      → Prompt 16 ((if b then pure stop else q) >>= after_flow app rest)
  going rest true q h k l = stops rest
  going rest false q h k l = Prompt-bind (after_flow app rest) (omega arith) h k l

  -- A round begins with a look at the context.
  round-Soon :
      (t : Task) (bound attempt wait : ℕ) (rest : ℕ → Program D B (Unit {0}))
      → Soon 1 (round app t bound attempt wait >>= after_flow app rest)
  unfolding round ◌>>=◌ bind
  round-Soon t bound attempt wait rest =
      later (λ w e. stopped rest (is_done w.done_after) _ (ap is_done e))

  round-Prompt :
      (t : Task) (bound attempt wait : ℕ) (rest : ℕ → Program D B (Unit {0}))
      → ((flow : Flow) → Soon 1 (after_flow app rest flow))
      → ((flow : Flow) → Prompt 16 (after_flow app rest flow))
      → Prompt 16 (round app t bound attempt wait >>= after_flow app rest)
  unfolding round ◌>>=◌ bind
  round-Prompt t bound attempt wait rest k l =
      on_the_way (λ w e. ap tick e) (Soon-more (omega arith) (round-Soon t bound attempt wait rest))
        (λ w.
          going rest (is_done w.done_after) _
            (Within-bind {n = 1} {m = 14} (Within-catch (Within-backend _))
              λ r. outcome-Within app t bound attempt wait r)
            k l)

  attempts-Prompt :
      (t : Task) (bound left attempt wait : ℕ)
      → Soon 1 (attempts app t bound left attempt wait)
        × Prompt 16 (attempts app t bound left attempt wait)
  unfolding attempts
  attempts-Prompt t bound zero attempt wait = (now, over)
  attempts-Prompt t bound (suc left) attempt wait =
      let rest = λ (w : ℕ). attempts app t bound left (attempt + 1) w in
      (
        round-Soon t bound attempt wait rest,
        round-Prompt t bound attempt wait rest
            (after_flow-Soon rest (λ w. (attempts-Prompt t bound left (attempt + 1) w).0))
            (after_flow-Prompt rest (λ w. (attempts-Prompt t bound left (attempt + 1) w).1)),
      )

  pub run_with_retry-Prompt : (t : Task) → Prompt 16 (run_with_retry app t)
  unfolding run_with_retry
  run_with_retry-Prompt t = (attempts-Prompt t _ _ 1 app.policy.initial_wait).1

  -- Every request is over in ten steps anyway.
  pub program-Prompt : (r : Request) → Prompt 16 (program app r)
  unfolding program
  program-Prompt (Request.goroutine o) = run_with_retry-Prompt (task_of o)
  program-Prompt r = Within-Prompt (omega arith) (program-Within app r)
