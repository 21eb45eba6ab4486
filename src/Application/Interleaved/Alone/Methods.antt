-- ===== src/Application/Interleaved/Alone/Methods.antt =====
-- Each program, run without an interruption, beside its method.
use block_storage_api.Prelude.{ℕ, zero, suc, ◌+◌, String, ◌≡◌, refl, ◌∙◌, ap, Option, none, some, ℤ}
use block_storage_api.Errors.{Result, ok, err, Outcome}
use block_storage_api.Storage.{Volume}
use block_storage_api.Fsm.{Event}
use block_storage_api.Application.World.{World, Action, Application, Task, attempt}
use block_storage_api.Application.Operations
use block_storage_api.Application.Operations.{task_of}
use block_storage_api.Application.Retry
use block_storage_api.Application.History.{Request, serve}
use block_storage_api.Application.Interleaved.{Program, ended, step, run, ◌>>=◌}
use block_storage_api.Application.Interleaved.Programs
use block_storage_api.Application.Interleaved.Alone.{Same, bind-Same, Same-atom, Same-pure, alone}

module _ {D B M : Type 0} (app : Application D B M) where
  load_or_not_found-Same :
      (name : String)
      → Same {B = B} (Programs.load_or_not_found app name) (Operations.load_or_not_found app name)
  unfolding Programs.load_or_not_found Operations.load_or_not_found
  load_or_not_found-Same name = search alone

  apply_event-Same :
      (v : Volume) (e : Event)
      → Same {B = B} (Programs.apply_event app v e) (Operations.apply_event app v e)
  unfolding Programs.apply_event Operations.apply_event
  apply_event-Same v e = search alone depth 12

  create_volume-Same :
      (name : String) (size_mb : ℤ)
      → Same {B = B}
          (Programs.create_volume app name size_mb)
          (Operations.create_volume app name size_mb)
  unfolding Programs.create_volume Operations.create_volume
  create_volume-Same name size_mb =
      search (alone, load_or_not_found-Same, apply_event-Same) depth 12

  delete_volume-Same :
      (name : String)
      → Same {B = B} (Programs.delete_volume app name) (Operations.delete_volume app name)
  unfolding Programs.delete_volume Operations.delete_volume
  delete_volume-Same name = search (alone, load_or_not_found-Same, apply_event-Same) depth 12

  attach_volume-Same :
      (name node_id : String)
      → Same {B = B}
          (Programs.attach_volume app name node_id)
          (Operations.attach_volume app name node_id)
  unfolding Programs.attach_volume Operations.attach_volume
  attach_volume-Same name node_id =
      search (alone, load_or_not_found-Same, apply_event-Same) depth 12

  detach_volume-Same :
      (name : String)
      → Same {B = B} (Programs.detach_volume app name) (Operations.detach_volume app name)
  unfolding Programs.detach_volume Operations.detach_volume
  detach_volume-Same name = search (alone, load_or_not_found-Same, apply_event-Same) depth 12

  reconcile_volume-Same :
      (name : String)
      → Same {B = B} (Programs.reconcile_volume app name) (Operations.reconcile_volume app name)
  unfolding Programs.reconcile_volume Operations.reconcile_volume
  reconcile_volume-Same name = search (alone, load_or_not_found-Same, apply_event-Same) depth 12

  subscribe-Same :
      (name : String) → Same {B = B} (Programs.subscribe app name) (Operations.subscribe app name)
  unfolding Programs.subscribe Operations.subscribe
  subscribe-Same name = search (alone, load_or_not_found-Same, apply_event-Same) depth 12

  load_again-Same :
      (name : String) → Same {B = B} (Programs.load_again app name) (Retry.load_again app name)
  unfolding Programs.load_again Retry.load_again
  load_again-Same name = search (alone) depth 12

  succeed-Same : (t : Task) → Same {B = B} (Programs.succeed app t) (Retry.succeed app t)
  unfolding Programs.succeed Retry.succeed
  succeed-Same t = search (alone, load_again-Same, apply_event-Same) depth 12

  apply_if_some-Same :
      (o : Option Volume) (e : Event)
      → Same {B = B} (Programs.apply_if_some app o e) (Retry.apply_if_some app o e)
  unfolding Programs.apply_if_some Retry.apply_if_some
  apply_if_some-Same none e = Same-pure tt
  apply_if_some-Same (some v) e = search (alone, apply_event-Same)

  give_up-Same : (t : Task) → Same {B = B} (Programs.give_up app t) (Retry.give_up app t)
  unfolding Programs.give_up Retry.give_up
  give_up-Same t = search (alone, apply_if_some-Same) depth 12

  back_off-Same :
      (t : Task) (wait : ℕ)
      → Same {B = B} (Programs.back_off app t wait) (Retry.back_off app t wait)
  unfolding Programs.back_off Retry.back_off
  back_off-Same t wait = search (alone, apply_if_some-Same) depth 12

  fail_attempt-Same :
      (t : Task) (bound attempt wait : ℕ)
      → Same {B = B}
          (Programs.fail_attempt app t bound attempt wait)
          (Retry.fail_attempt app t bound attempt wait)
  unfolding Programs.fail_attempt Retry.fail_attempt
  fail_attempt-Same t bound attempt wait =
      search (alone, load_again-Same, apply_event-Same, give_up-Same, back_off-Same) depth 12

  outcome-Same :
      (t : Task) (bound attempt wait : ℕ) (r : Outcome)
      → Same {B = B}
          (Programs.outcome app t bound attempt wait r)
          (Retry.outcome app t bound attempt wait r)
  outcome-Same t bound attempt wait (ok a) = succeed-Same t
  outcome-Same t bound attempt wait (err e) = fail_attempt-Same t bound attempt wait

  round-Same :
      (t : Task) (bound attempt wait : ℕ)
      → Same {B = B}
          (Programs.round app t bound attempt wait)
          (Retry.round app t bound attempt wait)
  unfolding Programs.round Retry.round Retry.run_operation
  round-Same t bound attempt wait = search (alone, outcome-Same) depth 12

  after_round-run :
      (rest : ℕ → Program D B (Unit {0})) (later : ℕ → World D B → World D B)
      (x : Result Retry.Flow × World D B)
      → ((wait : ℕ) (w : World D B) → (run (rest wait) w).1 ≡ later wait w)
      → (elim x.0 as (λ _. Result (Unit {0}) × World D B) [
        | ok flow ↦ run (Programs.after_flow app rest flow) x.1
        | err e ↦ (err e, x.1)
      ]).1
        ≡ Retry.after_round app later x
  unfolding run
  after_round-run rest later (ok Retry.Flow.stop, w) k = refl
  after_round-run rest later (ok (Retry.Flow.again wait), w) k = k wait w
  after_round-run rest later (err e, w) k = refl

  attempts-run :
      (t : Task) (bound left attempt wait : ℕ) (w : World D B)
      → (run (Programs.attempts app t bound left attempt wait) w).1
        ≡ Retry.attempts app t bound left attempt wait w
  unfolding Programs.attempts Retry.attempts run
  attempts-run t bound zero attempt wait w = refl
  attempts-run t bound (suc left) attempt wait w =
      let rest = Programs.attempts app t bound left (attempt + 1) in
      ap (λ x. x.1)
        (bind-Same (Programs.after_flow app rest) (λ flow. run (Programs.after_flow app rest flow))
          (λ _ _. refl) (Programs.round app t bound attempt wait) w
          (Retry.round app t bound attempt wait w) (round-Same t bound attempt wait w))
      ∙ after_round-run rest (Retry.attempts app t bound left (attempt + 1))
          (Retry.round app t bound attempt wait w) (attempts-run t bound left (attempt + 1))

  run-answered :
      {A : Type 0} (p : Program D B A) (w : World D B)
      → (run (Programs.answered app p) w).1 ≡ (run p w).1
  unfolding run ◌>>=◌
  run-answered (ended (ok a)) w = refl
  run-answered (ended (err e)) w = refl
  run-answered (step t k) w = run-answered (k w) (t w)

  answered-Same :
      {A : Type 0} (p : Program D B A) (m : Action D B A) (w : World D B)
      → Same p m
      → (run (Programs.answered app p) w).1 ≡ (m w).1
  answered-Same p m w h = run-answered p w ∙ ap (λ x. x.1) (h w)

  -- A program that nothing interrupts changes the world as its method does.
  program_alone : (r : Request) (w : World D B) → (run (Programs.program app r) w).1 ≡ serve app r w
  unfolding Programs.program serve Programs.run_with_retry Retry.run_with_retry run
      Operations.get_volume Operations.list_volumes Operations.health_check Operations.unsubscribe
  program_alone (Request.create name size_mb) w =
      answered-Same _ _ w (create_volume-Same name size_mb)
  program_alone (Request.delete name) w = ap (λ x. x.1) (delete_volume-Same name w)
  program_alone (Request.get name) w = answered-Same _ _ w (load_or_not_found-Same name)
  program_alone (Request.detach name) w = ap (λ x. x.1) (detach_volume-Same name w)
  program_alone (Request.reconcile name) w = answered-Same _ _ w (reconcile_volume-Same name)
  program_alone (Request.subscribe name) w = answered-Same _ _ w (subscribe-Same name)
  program_alone (Request.attach name node_id) w = ap (λ x. x.1) (attach_volume-Same name node_id w)
  program_alone Request.list w = answered-Same _ _ w (Same-atom _)
  program_alone Request.health w = refl
  program_alone (Request.unsubscribe name ch) w = refl
  program_alone (Request.goroutine o) w = attempts-run (task_of o) _ _ 1 app.policy.initial_wait w
