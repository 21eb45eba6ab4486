-- ===== src/Application/Interleaved/Ends/Methods.antt =====
-- The bounds of the methods and of `runWithRetry`.
use block_storage_api.Prelude.{
  ℕ, zero, suc, ◌+◌, ◌*◌, String, ◌≡◌, subst, Option, none, some, arith, ℤ, pos_part, eqb,
}
use block_storage_api.Errors.{Result, ok, err, Outcome}
use block_storage_api.Storage.{Volume}
use block_storage_api.Fsm.{Event}
use block_storage_api.Application.World.{Application, spawn, Task}
use block_storage_api.Application.Retry.{Flow, stop, again}
use block_storage_api.Application.History.{Request}
use block_storage_api.Application.Interleaved.{Program, ended, atom, ◌>>=◌}
use block_storage_api.Application.Interleaved.Programs.{
  load_or_not_found, apply_event, create_volume, delete_volume, attach_volume, detach_volume,
  reconcile_volume, subscribe, load_again, succeed, apply_if_some, give_up, back_off, fail_attempt,
  outcome, round, after_flow, attempts, run_with_retry, answered, program,
}
use block_storage_api.Application.Interleaved.Ends.{
  Within, at_end, Within-more, Within-bind, Within-map_error, Within-catch, Within-attempt,
  Within-db, Within-backend, Within-broker, Within-subscription, Within-clock, Within-uuid,
  Within-spawn, Within-sleep, Within-context_done, Within-check, Within-or_raise, Within-if,
}

-- The most steps that a request, or the goroutine of an operation, takes.
abbrev pub budget : {D B M : Type 0} → Application D B M → Request → ℕ
budget app (Request.goroutine o) = pos_part app.policy.max_attempts * 16
budget app _ = 10

module _ {D B M : Type 0} (app : Application D B M) where
  given :
      {A C : Type 0} {n : ℕ} (r : Result A) {f : A → Program D B C}
      → ((a : A) → Within n (f a))
      → Within n (ended r >>= f)
  unfolding ◌>>=◌
  given (ok a) h = h a
  given (err e) h = at_end

  load_or_not_found-Within : (name : String) → Within 1 (load_or_not_found app name)
  unfolding load_or_not_found
  load_or_not_found-Within name =
      Within-bind {n = 1} {m = 0} (Within-map_error _ (Within-db _)) λ o. Within-or_raise o _

  apply_event-Within : (v : Volume) (e : Event) → Within 5 (apply_event app v e)
  unfolding apply_event
  apply_event-Within v e = Within-check _ _ (
      given _ λ t. Within-bind {n = 1} {m = 4} (Within-clock _) λ now.
        Within-bind {n = 1} {m = 3} (Within-map_error _ (Within-db _)) λ _.
          Within-bind {n = 1} {m = 2} (Within-attempt (Within-db _)) λ _.
            Within-bind {n = 1} {m = 1} (Within-clock _)
              λ _. Within-bind {n = 1} {m = 0} (Within-broker _) λ _. at_end)

  create_volume-Within : (name : String) (size_mb : ℤ) → Within 10 (create_volume app name size_mb)
  unfolding create_volume
  create_volume-Within name size_mb = Within-check _ _ (
      Within-bind {n = 1} {m = 9} (Within-map_error _ (Within-db _)) λ o. Within-check _ _ (
        Within-bind {n = 1} {m = 8} (Within-clock _) λ now.
          Within-bind {n = 1} {m = 7} (Within-uuid _) λ id.
            Within-bind {n = 1} {m = 6} (Within-map_error _ (Within-db _)) λ _.
              Within-bind {n = 5} {m = 1} (apply_event-Within _ Event.create)
                λ v'. Within-bind {n = 1} {m = 0} (Within-spawn _) λ _. at_end))

  fire_and_spawn-Within :
      (v : Volume) (e : Event) (k : Volume → Task)
      → Within 6 (apply_event app v e >>= λ v'. atom (spawn (k v')))
  fire_and_spawn-Within v e k =
      Within-bind {n = 5} {m = 1} (apply_event-Within v e) λ v'. Within-spawn (k v')

  delete_volume-Within : (name : String) → Within 10 (delete_volume app name)
  unfolding delete_volume
  delete_volume-Within name =
      Within-more 3 (
        Within-bind {n = 1} {m = 6} (load_or_not_found-Within name)
          λ v. fire_and_spawn-Within v _ _)

  detach_volume-Within : (name : String) → Within 10 (detach_volume app name)
  unfolding detach_volume
  detach_volume-Within name =
      Within-more 3 (
        Within-bind {n = 1} {m = 6} (load_or_not_found-Within name)
          λ v. fire_and_spawn-Within v _ _)

  attach_volume-Within : (name node_id : String) → Within 10 (attach_volume app name node_id)
  unfolding attach_volume
  attach_volume-Within name node_id = Within-more 2 (
      Within-bind {n = 1} {m = 7} (load_or_not_found-Within name) λ v.
        Within-bind {n = 1} {m = 6} (Within-map_error _ (Within-db _))
          λ _. fire_and_spawn-Within _ _ _)

  reconcile_volume-Within : (name : String) → Within 10 (reconcile_volume app name)
  unfolding reconcile_volume
  reconcile_volume-Within name = Within-more 5 (
      Within-bind {n = 1} {m = 4} (load_or_not_found-Within name) λ v. Within-check _ _ (
        Within-bind {n = 1} {m = 3} (Within-map_error _ (Within-backend _)) λ real.
          Within-bind {n = 1} {m = 2} (Within-clock _) λ now.
            Within-bind {n = 1} {m = 1} (Within-map_error _ (Within-db _))
              λ _. Within-bind {n = 1} {m = 0} (Within-attempt (Within-db _)) λ _. at_end))

  subscribe-Within : (name : String) → Within 10 (subscribe app name)
  unfolding subscribe
  subscribe-Within name =
      Within-more 8
        (Within-bind {n = 1} {m = 1} (load_or_not_found-Within name) λ v. Within-subscription _)

  -- The goroutine.
  load_again-Within : (name : String) → Within 1 (load_again app name)
  unfolding load_again
  load_again-Within name = Within-bind {n = 1} {m = 0} (Within-db _) λ o. Within-or_raise o _

  succeed-Within : (t : Task) → Within 6 (succeed app t)
  unfolding succeed
  succeed-Within t =
      Within-bind {n = 1} {m = 5} (load_again-Within t.name)
        λ v. Within-bind {n = 5} {m = 0} (apply_event-Within _ t.success_event) λ _. at_end

  apply_if_some-Within : (o : Option Volume) (e : Event) → Within 5 (apply_if_some app o e)
  unfolding apply_if_some
  apply_if_some-Within none e = at_end
  apply_if_some-Within (some v) e = Within-bind {n = 5} {m = 0} (apply_event-Within v e) λ _. at_end

  give_up-Within : (t : Task) → Within 8 (give_up app t)
  unfolding give_up
  give_up-Within t = Within-more 2 (
      Within-bind {n = 1} {m = 5} (Within-catch (Within-db _))
        λ r. Within-bind {n = 5} {m = 0} (apply_if_some-Within _ Event.fail) λ _. at_end)

  back_off-Within : (t : Task) (wait : ℕ) → Within 8 (back_off app t wait)
  unfolding back_off
  back_off-Within t wait = Within-bind {n = 1} {m = 7} (Within-context_done) λ finished.
      Within-if finished at_end (
        Within-bind {n = 1} {m = 6} (Within-sleep _) λ _.
          Within-bind {n = 1} {m = 5} (Within-catch (Within-db _))
            λ r. Within-bind {n = 5} {m = 0} (apply_if_some-Within _ Event.retry) λ _. at_end)

  pub outcome-Within :
      (t : Task) (bound attempt wait : ℕ) (r : Outcome)
      → Within 14 (outcome app t bound attempt wait r)
  unfolding fail_attempt
  outcome-Within t bound attempt wait (ok a) = Within-more 8 (succeed-Within t)
  outcome-Within t bound attempt wait (err e) =
      Within-bind {n = 1} {m = 13} (load_again-Within t.name) λ v.
        Within-bind {n = 5} {m = 8} (apply_event-Within v Event.error)
          λ _. Within-if (eqb attempt bound) (give_up-Within t) (back_off-Within t wait)

  round-Within : (t : Task) (bound attempt wait : ℕ) → Within 16 (round app t bound attempt wait)
  unfolding round
  round-Within t bound attempt wait = Within-bind {n = 1} {m = 15} (Within-context_done) λ finished.
      Within-if finished at_end (
        Within-bind {n = 1} {m = 14} (Within-catch (Within-backend _))
          λ r. outcome-Within t bound attempt wait r)

  after_flow-Within :
      {n : ℕ} (rest : ℕ → Program D B (Unit {0})) (flow : Flow)
      → ((wait : ℕ) → Within n (rest wait))
      → Within n (after_flow app rest flow)
  after_flow-Within rest stop h = at_end
  after_flow-Within rest (again wait) h = h wait

  attempts-Within :
      (t : Task) (bound left attempt wait : ℕ)
      → Within (left * 16) (attempts app t bound left attempt wait)
  unfolding attempts
  attempts-Within t bound zero attempt wait = at_end
  attempts-Within t bound (suc left) attempt wait =
      let regroup : 16 + left * 16 ≡ suc left * 16 = omega arith in
      subst (λ n. Within n (attempts app t bound (suc left) attempt wait)) regroup
        (Within-bind {n = 16} {m = left * 16} (round-Within t bound attempt wait)
          λ flow. after_flow-Within _ flow (λ w. attempts-Within t bound left (attempt + 1) w))

  run_with_retry-Within :
      (t : Task) → Within (pos_part app.policy.max_attempts * 16) (run_with_retry app t)
  unfolding run_with_retry
  run_with_retry-Within t = attempts-Within t _ _ 1 app.policy.initial_wait

  answered-Within : {A : Type 0} {p : Program D B A} → Within 10 p → Within 10 (answered app p)
  answered-Within h = Within-bind {n = 10} {m = 0} h λ _. at_end

  pub program-Within : (r : Request) → Within (budget app r) (program app r)
  unfolding program
  program-Within (Request.create name size_mb) = answered-Within (create_volume-Within name size_mb)
  program-Within (Request.delete name) = delete_volume-Within name
  program-Within (Request.get name) =
      answered-Within (Within-more 9 (load_or_not_found-Within name))
  program-Within (Request.detach name) = detach_volume-Within name
  program-Within (Request.reconcile name) = answered-Within (reconcile_volume-Within name)
  program-Within (Request.subscribe name) = answered-Within (subscribe-Within name)
  program-Within (Request.attach name node_id) = attach_volume-Within name node_id
  program-Within Request.list = answered-Within (Within-more 9 (Within-db _))
  program-Within Request.health = Within-more 9 (Within-backend _)
  program-Within (Request.unsubscribe name ch) = Within-more 9 (Within-broker _)
  program-Within (Request.goroutine o) = run_with_retry-Within _
