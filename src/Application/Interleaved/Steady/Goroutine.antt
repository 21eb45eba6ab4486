-- ===== src/Application/Interleaved/Steady/Goroutine.antt =====
-- `runWithRetry` is steady, and so is every program.
use block_storage_api.Prelude.{ℕ, zero, suc, ◌+◌, String, refl, Option, none, some, eqb}
use block_storage_api.Errors.{Result, ok, err, Outcome}
use block_storage_api.Storage.{Volume}
use block_storage_api.Fsm.{Event}
use block_storage_api.Broker.Laws.{unsubscribe-IsValid}
use block_storage_api.Dependency.Contract.{DatabaseContract}
use block_storage_api.Application.World.{Application, Task, context_done, sleep, ◌>>=◌ as bind}
use block_storage_api.Application.Operations.{task_of}
use block_storage_api.Application.Retry.{Flow, stop, again, or_nil}
use block_storage_api.Application.Safety.{Gives}
use block_storage_api.Application.Safety.Methods.Retries.{IsPostSuccess}
use block_storage_api.Application.History.{Request, task_of-IsPostSuccess}
use block_storage_api.Application.Interleaved.{Program, atom}
use block_storage_api.Application.Interleaved.Programs.{
  load_again, succeed, apply_if_some, give_up, back_off, fail_attempt, outcome, round, after_flow,
  attempts, run_with_retry, answered, program,
}
use block_storage_api.Application.Interleaved.Steady.{Known, Known-as, Holds, at_end, Holds-bind}
use block_storage_api.Application.Interleaved.Steady.Calls.{
  Holds-catch, Holds-or_raise, Holds-if, Holds-silent,
}
use block_storage_api.Application.Interleaved.Steady.Database.{Loaded, load-Holds, list-Holds}
use block_storage_api.Application.Interleaved.Steady.Methods.{
  loaded_again, backend-Holds, broker-Holds, load_or_not_found-Holds, apply_event-Holds,
  create_volume-Holds, delete_volume-Holds, attach_volume-Holds, detach_volume-Holds,
  reconcile_volume-Holds, subscribe-Holds,
}

module _ {D B M : Type 0} (app : Application D B M) (c : DatabaseContract app.database) where
  -- What holds of a program of whose result nothing is said.
  abbrev Kept : {A : Type 0} → D → Program D B A → Type 0
  Kept d p = Holds c (λ _ _. Unit) d p

  context_done-Holds : {d : D} → Kept d (atom context_done)
  unfolding bind
  context_done-Holds = Holds-silent _ (λ w. (refl, refl, λ h. h))

  sleep-Holds : (wait : ℕ) {d : D} → Kept d (atom (sleep wait))
  unfolding bind
  sleep-Holds wait = Holds-silent _ (λ w. (refl, refl, λ h. h))

  load_again-Holds : (name : String) {d : D} → Holds {B = B} c (Known c) d (load_again app name)
  unfolding load_again
  load_again-Holds name =
      Holds-bind _ (load-Holds c name)
        λ o d _ h. Holds-or_raise o _ λ v e. loaded_again app c o name v d h e

  succeed-Holds : (t : Task) → IsPostSuccess t.post_success → {d : D} → Kept d (succeed app t)
  unfolding succeed
  succeed-Holds t h = Holds-bind _ (load_again-Holds t.name) λ v _ _ k.
      Holds-bind _
        (apply_event-Holds app c (t.post_success v) t.success_event (Known-as (h.same v) k))
        λ _ _ _ _. at_end tt

  apply_if_some-Holds :
      (r : Result (Option Volume)) (name : String) (e : Event) {d : D}
      → Gives (Loaded c name) r d
      → Kept d (apply_if_some app (or_nil r) e)
  unfolding apply_if_some
  apply_if_some-Holds (err x) name e h = at_end tt
  apply_if_some-Holds (ok none) name e h = at_end tt
  apply_if_some-Holds (ok (some v)) name e h =
      Holds-bind _ (apply_event-Holds app c v e h.0) λ _ _ _ _. at_end tt

  give_up-Holds : (t : Task) {d : D} → Kept d (give_up app t)
  unfolding give_up
  give_up-Holds t =
      Holds-bind _ (Holds-catch (load-Holds c t.name))
        λ r _ _ h. Holds-bind _ (apply_if_some-Holds r t.name Event.fail h) λ _ _ _ _. at_end tt

  back_off-Holds : (t : Task) (wait : ℕ) {d : D} → Kept d (back_off app t wait)
  unfolding back_off
  back_off-Holds t wait = Holds-bind _ context_done-Holds λ finished _ _ _.
      Holds-if finished (at_end tt) (
        Holds-bind _ (sleep-Holds wait) λ _ _ _ _.
          Holds-bind _ (Holds-catch (load-Holds c t.name)) λ r _ _ h.
            Holds-bind _ (apply_if_some-Holds r t.name Event.retry h) λ _ _ _ _. at_end tt)

  outcome-Holds :
      (t : Task) (bound attempt wait : ℕ) (r : Outcome)
      → IsPostSuccess t.post_success
      → {d : D} → Kept d (outcome app t bound attempt wait r)
  unfolding fail_attempt
  outcome-Holds t bound attempt wait (ok a) h = succeed-Holds t h
  outcome-Holds t bound attempt wait (err e) h = Holds-bind _ (load_again-Holds t.name) λ v _ _ k.
      Holds-bind _ (apply_event-Holds app c v Event.error k)
        λ _ _ _ _. Holds-if (eqb attempt bound) (give_up-Holds t) (back_off-Holds t wait)

  round-Holds :
      (t : Task) (bound attempt wait : ℕ)
      → IsPostSuccess t.post_success
      → {d : D} → Kept d (round app t bound attempt wait)
  unfolding round
  round-Holds t bound attempt wait h = Holds-bind _ context_done-Holds λ finished _ _ _.
      Holds-if finished (at_end tt) (
        Holds-bind _ (Holds-catch (backend-Holds app c _))
          λ r _ _ _. outcome-Holds t bound attempt wait r h)

  after_flow-Holds :
      (rest : ℕ → Program D B (Unit {0})) (flow : Flow) {d : D}
      → ((wait : ℕ) → Kept d (rest wait))
      → Kept d (after_flow app rest flow)
  after_flow-Holds rest stop h = at_end tt
  after_flow-Holds rest (again wait) h = h wait

  attempts-Holds :
      (t : Task) (bound left attempt wait : ℕ)
      → IsPostSuccess t.post_success
      → {d : D} → Kept d (attempts app t bound left attempt wait)
  unfolding attempts
  attempts-Holds t bound zero attempt wait h = at_end tt
  attempts-Holds t bound (suc left) attempt wait h =
      Holds-bind _ (round-Holds t bound attempt wait h)
        λ flow _ _ _. after_flow-Holds _ flow (λ w. attempts-Holds t bound left (attempt + 1) w h)

  pub run_with_retry-Holds :
      (t : Task) → IsPostSuccess t.post_success → {d : D} → Kept d (run_with_retry app t)
  unfolding run_with_retry
  run_with_retry-Holds t h = attempts-Holds t _ _ 1 app.policy.initial_wait h

  answered-Holds :
      {A : Type 0} {Q : A → D → Type 0} (p : Program D B A) {d : D}
      → Holds c Q d p
      → Kept d (answered app p)
  answered-Holds p h = Holds-bind _ h λ _ _ _ _. at_end tt

  pub program-Holds : (r : Request) {d : D} → Kept d (program app r)
  unfolding program
  program-Holds (Request.create name size_mb) =
      answered-Holds _ (create_volume-Holds app c name size_mb)
  program-Holds (Request.delete name) = delete_volume-Holds app c name
  program-Holds (Request.get name) = answered-Holds _ (load_or_not_found-Holds app c name)
  program-Holds (Request.detach name) = detach_volume-Holds app c name
  program-Holds (Request.reconcile name) = answered-Holds _ (reconcile_volume-Holds app c name)
  program-Holds (Request.subscribe name) = answered-Holds _ (subscribe-Holds app c name)
  program-Holds (Request.attach name node_id) = attach_volume-Holds app c name node_id
  program-Holds Request.list = answered-Holds _ (list-Holds c)
  program-Holds Request.health = backend-Holds app c _
  program-Holds (Request.unsubscribe name ch) = broker-Holds app c _ (unsubscribe-IsValid name ch)
  program-Holds (Request.goroutine o) = run_with_retry-Holds (task_of o) (task_of-IsPostSuccess o)
