-- ===== src/Application/Local/Retries/Finishes.antt =====
-- Every goroutine ends its work, whatever the backend answers.
use block_storage_api.Prelude.{
  ℕ, zero, suc, ◌<◌, ◌≤◌, String, ◌≡◌, refl, ap, ◌⊎◌, inl, inr, none, some, List, ◌++◌, arith,
  pos_part, length, All,
}
use block_storage_api.Prelude.Dict.{lookup}
use block_storage_api.Errors.{Error, Outcome, ok, err}
use block_storage_api.Storage.{State, Volume}
use block_storage_api.Application.World.{Operation, RetryPolicy}
use block_storage_api.Application.Operations.{task_of, name_of}
use block_storage_api.Application.Retry.{call, next_wait, run_with_retry}
use block_storage_api.Application.Local.{Setting, local}
use block_storage_api.Application.Local.Retries.{working, finished, LocalWorld}
use block_storage_api.Application.Local.Retries.Endings.{
  Ends, AllFail, calls, backoffs, run_with_retry-succeeds, run_with_retry-exhausts,
}

next_wait-le : (policy : RetryPolicy) (wait : ℕ) → next_wait policy wait ≤ policy.max_wait
unfolding next_wait
next_wait-le policy wait = ground arith

length-backoffs : (policy : RetryPolicy) (k wait : ℕ) → length (backoffs policy k wait) ≡ k
length-backoffs policy zero wait = refl
length-backoffs policy (suc k) wait = ap suc (length-backoffs policy k (next_wait policy wait))

-- Every wait is under a limit that holds for the first wait and the ceiling.
backoffs-le :
    (policy : RetryPolicy) (limit k wait : ℕ)
    → policy.max_wait ≤ limit
    → wait ≤ limit
    → All (λ x. x ≤ limit) (backoffs policy k wait)
backoffs-le policy limit zero wait m h = tt
backoffs-le policy limit (suc k) wait m h =
    let next = next_wait-le policy wait in
    (h, backoffs-le policy limit k (next_wait policy wait) m (omega arith))

module _ {B M : Type 0} (s : Setting B M) where
  -- Of the first `n` calls, some is the first to succeed, or they all fail.
  abbrev FirstSuccess : Operation → ℕ → B → Type 0
  FirstSuccess o n b =
      ((k : ℕ) × (k < n) × AllFail s o k b × ((call (local s) o (calls s o k b)).0 ≡ ok tt))
      ⊎ AllFail s o n b

  later_success :
      (o : Operation) (n : ℕ) (b : B) (e : Error)
      → (call (local s) o b).0 ≡ err e
      → FirstSuccess o n (call (local s) o b).1
      → FirstSuccess o (suc n) b
  later_success o n b e h (inl (k, less, fails, good)) =
      inl (suc k, omega arith, ((e, h), fails), good)
  later_success o n b e h (inr fails) = inr ((e, h), fails)

  first_success : (o : Operation) (n : ℕ) (b : B) → FirstSuccess o n b
  first_success o zero b = inr tt
  first_success o (suc n) b =
      let later = first_success o n (call (local s) o b).1 in
      by_first (call (local s) o b).0 refl later
    where
      by_first :
          (r : Outcome)
          → (call (local s) o b).0 ≡ r
          → FirstSuccess o n (call (local s) o b).1
          → FirstSuccess o (suc n) b
      by_first (ok _) h later = inl (0, omega arith, tt, h)
      by_first (err e) h later = later_success o n b e h later

  -- The row of `o` is in the state of success or in the error state, and the back-off has made fewer
  -- waits than there are attempts, none of them longer than `limit`.
  pub record Finishes (o : Operation) (limit : ℕ) (w w' : LocalWorld s) : Type 0 where
    pub row : Volume
    pub stored : lookup (name_of o) w'.db.volumes ≡ some row
    pub state : (row.state ≡ finished o) ⊎ (row.state ≡ State.error)
    pub added : List ℕ
    pub waits : w'.waits ≡ w.waits ++ added
    pub few : length added < pos_part s.policy.max_attempts
    pub short : All (λ x. x ≤ limit) added

  Ends-Finishes :
      (o : Operation) (v : Volume) (t : State) (node_id : String) {es : _} (k limit : ℕ)
      (w w' : LocalWorld s)
      → (t ≡ finished o) ⊎ (t ≡ State.error)
      → k < pos_part s.policy.max_attempts
      → s.policy.max_wait ≤ limit
      → s.policy.initial_wait ≤ limit
      → Ends s o v t node_id es (backoffs s.policy k s.policy.initial_wait) w w'
      → Finishes o limit w w'
  Ends-Finishes o v t node_id k limit w w' done less m i h = record {
    row = record v { state = t; node_id = node_id; updated_at = h.updated_at };
    stored = h.row;
    state = done;
    added = backoffs s.policy k s.policy.initial_wait;
    waits = h.waits;
    few = rw (length-backoffs s.policy k s.policy.initial_wait) less;
    short = backoffs-le s.policy limit k s.policy.initial_wait m i;
  }

  -- Over the repository in memory, with at least one attempt and a process that is not shut down, the
  -- goroutine of a row in its working state ends, whatever the backend answers to each call, with the row in the
  -- state of success or in the error state. It has waited fewer times than there are attempts, and
  -- never longer than a limit that holds for the first wait and the ceiling.
  pub run_with_retry-Finishes :
      (o : Operation) (v : Volume) (limit : ℕ) (w : LocalWorld s)
      → name_of o ≡ v.name
      → lookup v.name w.db.volumes ≡ some v
      → v.state ≡ working o
      → w.done_after ≡ none
      → 1 ≤ pos_part s.policy.max_attempts
      → s.policy.max_wait ≤ limit
      → s.policy.initial_wait ≤ limit
      → Finishes o limit w (run_with_retry (local s) (task_of o) w)
  run_with_retry-Finishes o v limit w n h at live some_left m i =
      by_bound (pos_part s.policy.max_attempts) refl
    where
      by_bound :
          (bound : ℕ)
          → pos_part s.policy.max_attempts ≡ bound
          → Finishes o limit w (run_with_retry (local s) (task_of o) w)
      by_bound zero e = absurd (omega arith)
      by_bound (suc bound) e = elim (first_success o (suc bound) w.storage) [
        | inl (k, less, fails, good) ↦
            Ends-Finishes o v (finished o) _ k limit w _ (inl refl) (omega arith) m i
              (run_with_retry-succeeds s o k v w n h at live fails good (omega arith))
        | inr fails ↦
            Ends-Finishes o v State.error _ bound limit w _ (inr refl) (omega arith) m i
              (run_with_retry-exhausts s o bound v w n h at live fails e)
      ]
