-- ===== src/Application/Safety/Methods/Retries.antt =====
-- The goroutine of `runWithRetry` is safe, however often the backend fails.
use block_storage_api.Prelude.{
  ℕ, zero, suc, ◌+◌, String, ◌≡◌, ap, sym, subst, ◌∙◌, Option, none, some, Bool, true, false, eqb,
  if◌then◌else◌,
}
use block_storage_api.Errors.{Result, ok, err, Outcome}
use block_storage_api.Storage.{Volume}
use block_storage_api.Fsm.{Event}
use block_storage_api.Dependency.Contract.{DatabaseContract, SameRow}
use block_storage_api.Application.World.{Application, World, Action, Task, Operation}
use block_storage_api.Application.Retry.{
  Flow, stop, again, run_operation, load_again, succeed, apply_if_some, give_up, back_off,
  next_wait, fail_attempt, outcome, or_nil, round, attempts, after_round, run_with_retry,
}
use block_storage_api.Application.Safety.{
  Safe, Good, Safe-bind, Safe-pure, Safe-after, Safe-before, Safe-or_raise, Safe-catch, IsSound,
  Evolves, Evolves-refl, Evolves-trans, Gives,
}
use block_storage_api.Application.Safety.Silent.{on_backend-Safe, context_done-Safe, sleep-Safe}
use block_storage_api.Application.Safety.Database.{Current, load-Safe}
use block_storage_api.Application.Safety.Methods.{fire, apply_event-Safe, Current-Allowed}

-- What `postSuccess` may do: nothing to the fixed fields and the state.
pub record IsPostSuccess (f : Volume → Volume) : Type 0 where
  pub same : (v : Volume) → SameRow v (f v)
  pub state : (v : Volume) → v.state ≡ (f v).state

abbrev Always : {D : Type 0} → D → Type 0
Always _ = Unit

module _ {D B M : Type 0} (app : Application D B M) (c : DatabaseContract app.database)
    (may : String → Event → Type 0) where
  -- The events of the goroutine, on its own name.
  pub record IsPermitted (t : Task) : Type 0 where
    pub success : may t.name t.success_event
    pub error : may t.name Event.error
    pub retry : may t.name Event.retry
    pub fail : may t.name Event.fail

  load_again-Safe :
      (name : String)
      → Safe {B = B} c may Always (load_again app name) (λ v d. Current c v d × (v.name ≡ name))
  unfolding load_again
  load_again-Safe name = Safe-bind _ _ (load-Safe c name) λ o.
      Safe-after _
        (λ v d s h.
          let there = h.0 ∙ h.1 in
          let at_name = s.keyed name v there in
          ((v.updated_at, ap (c.view d) at_name ∙ there), at_name))
        (Safe-or_raise o _)

  succeed-Safe :
      (t : Task)
      → IsPermitted t
      → IsPostSuccess t.post_success
      → Safe {B = B} c may Always (succeed app t) (λ _. Always)
  unfolding succeed
  succeed-Safe t a h = Safe-bind _ _ (load_again-Safe t.name) λ v.
      Safe-bind _ _
        (Safe-before _
          (λ d _ here. (
            Current-Allowed app c may v (t.post_success v) d (h.same v).name (h.same v) (h.state v)
                here.0,
            subst (λ n. may n t.success_event) (sym here.1 ∙ (h.same v).name) a.success,
          ))
          (apply_event-Safe app c may (t.post_success v) t.success_event))
        λ _. Safe-pure stop (λ _ _. tt)

  apply_if_some-Safe :
      (r : Result (Option Volume)) (name : String) (e : Event)
      → may name e
      → Safe {B = B} c may
          (Gives (λ p d. c.view d name ≡ p) r)
          (apply_if_some app (or_nil r) e)
          (λ _. Always)
  unfolding apply_if_some
  apply_if_some-Safe (err x) name e a = Safe-pure tt (λ _ _. tt)
  apply_if_some-Safe (ok none) name e a = Safe-pure tt (λ _ _. tt)
  apply_if_some-Safe (ok (some v)) name e a =
      Safe-bind _ _
        (Safe-before _
          (λ d s h.
            let at_name = s.keyed name v h in
            ((v.updated_at, ap (c.view d) at_name ∙ h), subst (λ n. may n e) (sym at_name) a))
          (fire app c may v e))
        λ _. Safe-pure tt (λ _ _. tt)

  give_up-Safe :
      (t : Task) → IsPermitted t → Safe {B = B} c may Always (give_up app t) (λ _. Always)
  unfolding give_up
  give_up-Safe t a = Safe-bind _ _ (Safe-catch _ (load-Safe c t.name)) λ r.
      Safe-bind _ _ (apply_if_some-Safe r t.name Event.fail a.fail) λ _. Safe-pure stop (λ _ _. tt)

  Safe-if :
      {A : Type 0} {P : D → Type 0} {Q : A → D → Type 0} (b : Bool) {m n : Action D B A}
      → Safe c may P m Q
      → Safe c may P n Q
      → Safe c may P (if b then m else n) Q
  Safe-if true h k = h
  Safe-if false h k = k

  back_off-Safe :
      (t : Task) (wait : ℕ)
      → IsPermitted t
      → Safe {B = B} c may Always (back_off app t wait) (λ _. Always)
  unfolding back_off
  back_off-Safe t wait a = Safe-bind _ _ context_done-Safe λ finished.
      Safe-if finished (Safe-pure stop (λ _ _. tt)) (
        Safe-bind _ _ (sleep-Safe wait) λ _. Safe-bind _ _ (Safe-catch _ (load-Safe c t.name)) λ r.
          Safe-bind _ _ (apply_if_some-Safe r t.name Event.retry a.retry)
            λ _. Safe-pure (again (next_wait app.policy wait)) (λ _ _. tt))

  fail_attempt-Safe :
      (t : Task) (bound attempt wait : ℕ)
      → IsPermitted t
      → Safe {B = B} c may Always (fail_attempt app t bound attempt wait) (λ _. Always)
  unfolding fail_attempt
  fail_attempt-Safe t bound attempt wait a = Safe-bind _ _ (load_again-Safe t.name) λ v.
      Safe-bind _ _
        (Safe-before _ (λ d _ h. (h.0, subst (λ n. may n Event.error) (sym h.1) a.error))
          (fire app c may v Event.error))
        λ _.
          Safe-if (eqb attempt bound) (Safe-before _ (λ _ _ _. tt) (give_up-Safe t a))
            (Safe-before _ (λ _ _ _. tt) (back_off-Safe t wait a))

  outcome-Safe :
      (t : Task) (bound attempt wait : ℕ) (r : Outcome)
      → IsPermitted t
      → IsPostSuccess t.post_success
      → Safe {B = B} c may Always (outcome app t bound attempt wait r) (λ _. Always)
  outcome-Safe t bound attempt wait (ok _) a h = succeed-Safe t a h
  outcome-Safe t bound attempt wait (err e) a h = fail_attempt-Safe t bound attempt wait a

  run_operation-Safe :
      (o : Operation) → Safe {B = B} c may Always (run_operation app o) (λ _. Always)
  unfolding run_operation
  run_operation-Safe o = on_backend-Safe _

  round-Safe :
      (t : Task) (bound attempt wait : ℕ)
      → IsPermitted t
      → IsPostSuccess t.post_success
      → Safe {B = B} c may Always (round app t bound attempt wait) (λ _. Always)
  unfolding round
  round-Safe t bound attempt wait a h = Safe-bind _ _ context_done-Safe λ finished.
      Safe-if finished (Safe-pure stop (λ _ _. tt)) (
        Safe-bind _ _ (Safe-catch _ (run_operation-Safe t.operation))
          λ r. Safe-before _ (λ _ _ _. tt) (outcome-Safe t bound attempt wait r a h))

  -- A sound database is kept, and its rows change by the events that `may` fire.
  pub record Kept (d d' : D) : Type 0 where
    pub sound : IsSound c d'
    pub evolves : Evolves c may d d'

  Kept-after : {d d' d'' : D} → Evolves c may d d' → Kept d' d'' → Kept d d''
  Kept-after h k = record { sound = k.sound; evolves = Evolves-trans h k.evolves }

  after_round-Kept :
      (rest : ℕ → World D B → World D B) {d : D} (x : Result Flow × World D B)
      → ((wait : ℕ) (w : World D B) → IsSound c w.db → Kept w.db (rest wait w).db)
      → Good {B = B} c may (λ _. Always) d x
      → Kept d (after_round app rest x).db
  after_round-Kept rest (ok stop, w) k g = record { sound = g.sound; evolves = g.evolves }
  after_round-Kept rest (ok (again wait), w) k g = Kept-after g.evolves (k wait w g.sound)
  after_round-Kept rest (err e, w) k g = record { sound = g.sound; evolves = g.evolves }

  attempts-Kept :
      (t : Task) (bound left attempt wait : ℕ) (w : World D B)
      → IsPermitted t
      → IsPostSuccess t.post_success
      → IsSound c w.db
      → Kept w.db (attempts app t bound left attempt wait w).db
  unfolding attempts
  attempts-Kept t bound zero attempt wait w a h s = record {
    sound = s;
    evolves = Evolves-refl w.db;
  }
  attempts-Kept t bound (suc left) attempt wait w a h s =
      after_round-Kept (attempts app t bound left (attempt + 1)) (round app t bound attempt wait w)
        (λ wait' w' s'. attempts-Kept t bound left (attempt + 1) wait' w' a h s')
        ((round-Safe t bound attempt wait a h).at w s tt)

  pub run_with_retry-Kept :
      (t : Task) (w : World D B)
      → IsPermitted t
      → IsPostSuccess t.post_success
      → IsSound c w.db
      → Kept w.db (run_with_retry app t w).db
  unfolding run_with_retry
  run_with_retry-Kept t w a h s = attempts-Kept t _ _ 1 app.policy.initial_wait w a h s
