-- ===== src/Application/Local/Retries/Endings.antt =====
-- The end of a goroutine, by induction on how often the backend fails.
use mathlib.Core.List.{append_assoc, append-nil}
use block_storage_api.Prelude.{
  ℕ, zero, suc, ◌+◌, ◌<◌, String, ◌≡◌, refl, sym, ◌∙◌, ap, none, some, List, [], ◌∷◌, ◌++◌, arith,
  pos_part,
}
use block_storage_api.Prelude.Dict.{lookup, insert}
use block_storage_api.Errors.{Error, ok, err}
use block_storage_api.Storage.{State, Volume}
use block_storage_api.Fsm.{Event}
use block_storage_api.Fsm.Graph.{edge}
use block_storage_api.Dependency.{VolumeEvent}
use block_storage_api.Application.World.{Operation, RetryPolicy}
use block_storage_api.Application.Operations.{task_of, name_of, success_of}
use block_storage_api.Application.Retry.{call, next_wait, attempts, run_with_retry}
use block_storage_api.Application.Local.{Setting, local, stamped, fired}
use block_storage_api.Application.Local.Methods.{lookup-insert_self, lookup-insert_named}
use block_storage_api.Application.Local.Retries.{
  working, failed, finished, node_after, error_edge, retry_edge, fail_edge, success_edge,
  post_success_lem, LocalWorld, retried, again_row, round-again, round-stop, round-exhausted,
}

abbrev pub entry : String → Event → State → State → VolumeEvent
entry id e from to = record { volume_id = id; event = e; from_state = from; to_state = to }

-- The audit trail of `k` failed attempts that are each followed by another.
abbrev pub failures : String → Operation → ℕ → List VolumeEvent
failures id o zero = []
failures id o (suc k) =
    entry id Event.error (working o) (failed o)
    ∷ entry id Event.retry (failed o) (working o)
    ∷ failures id o k

-- The first `k` waits of the back-off.
abbrev pub backoffs : RetryPolicy → ℕ → ℕ → List ℕ
backoffs policy zero wait = []
backoffs policy (suc k) wait = wait ∷ backoffs policy k (next_wait policy wait)

module _ {B M : Type 0} (s : Setting B M) where
  -- The backend after `k` calls, and that they all fail.
  abbrev pub calls : Operation → ℕ → B → B
  calls o zero b = b
  calls o (suc k) b = calls o k (call (local s) o b).1

  abbrev pub AllFail : Operation → ℕ → B → Type 0
  AllFail o zero b = Unit
  AllFail o (suc k) b =
      ((e : Error) × ((call (local s) o b).0 ≡ err e)) × AllFail o k (call (local s) o b).1

  -- A goroutine for `o` on the row `v` leaves `w'`: the row is `v` in the state `t` and on the node
  -- `node_id`, and `es` was added to the audit trail and `ws` to the waits.
  pub record Ends (o : Operation) (v : Volume) (t : State) (node_id : String)
      (es : List VolumeEvent) (ws : List ℕ) (w w' : LocalWorld s) : Type 0 where
    pub updated_at : ℕ
    pub row :
        lookup (name_of o) w'.db.volumes
        ≡ some (record v { state = t; node_id = node_id; updated_at = updated_at })
    pub events : w'.db.events ≡ w.db.events ++ es
    pub waits : w'.waits ≡ w.waits ++ ws

  -- A failed attempt before the others.
  Ends-again :
      (o : Operation) (v : Volume) (t : State) (node_id : String) (es : List VolumeEvent)
      (ws : List ℕ) (wait : ℕ) (b : B) (w w' : LocalWorld s)
      → v.state ≡ working o
      → Ends o
          (again_row s v (failed o) wait b w)
          t
          node_id
          es
          ws
          (retried s v (failed o) v.state wait b w)
          w'
      → Ends o v t node_id
          (entry v.id Event.error (working o) (failed o)
            ∷ entry v.id Event.retry (failed o) (working o)
            ∷ es)
          (wait ∷ ws)
          w
          w'
  Ends-again o v t node_id es ws wait b w w' at h = record {
    updated_at = h.updated_at;
    row = h.row;
    events =
        h.events
        ∙ append_assoc (w.db.events ++ first ∷ []) (second ∷ []) es
        ∙ append_assoc w.db.events (first ∷ []) (second ∷ es)
        ∙ ap
            (λ q.
              w.db.events
              ++ entry v.id Event.error q (failed o) ∷ entry v.id Event.retry (failed o) q ∷ es)
            at;
    waits = h.waits ∙ append_assoc w.waits (wait ∷ []) ws;
  }
    where
      first : VolumeEvent
      first = entry v.id Event.error v.state (failed o)

      second : VolumeEvent
      second = entry v.id Event.retry (failed o) v.state

  -- The last entries of the audit trail.
  abbrev pub succeeded : Operation → Volume → VolumeEvent
  succeeded o v = entry v.id (success_of o) (working o) (finished o)

  abbrev pub lost : Operation → Volume → List VolumeEvent
  lost o v =
      entry v.id Event.error (working o) (failed o)
      ∷ entry v.id Event.fail (failed o) State.error
      ∷ []

  -- With `k` failures before a success, and attempts enough.
  attempts-succeed :
      (o : Operation) (k left bound attempt wait : ℕ) (v : Volume) (w : LocalWorld s)
      → name_of o ≡ v.name
      → lookup v.name w.db.volumes ≡ some v
      → v.state ≡ working o
      → w.done_after ≡ none
      → AllFail o k w.storage
      → (call (local s) o (calls o k w.storage)).0 ≡ ok tt
      → k < left
      → attempt + left ≡ bound + 1
      → Ends o v
          (finished o)
          (node_after o v.node_id)
          (failures v.id o k ++ succeeded o v ∷ [])
          (backoffs s.policy k wait)
          w
          (attempts (local s) (task_of o) bound left attempt wait w)
  unfolding attempts
  attempts-succeed o zero (suc left) bound attempt wait v w n h at live fails good few enough =
      let v' = record v { node_id = node_after o v.node_id } in
      rw
        (round-stop s (task_of o) v v' (finished o) bound attempt wait
          (call (local s) o w.storage).1 w n h (post_success_lem o v) refl
          (ap (λ q. edge q (success_of o)) at ∙ success_edge o) live
          (ap (λ r. (r, (call (local s) o w.storage).1)) good))
        (record {
          updated_at = s.clock w.readings;
          row = lookup-insert_named (name_of o) (stamped s v' (finished o) w) w.db.volumes n;
          events = ap (λ q. w.db.events ++ entry v.id (success_of o) q (finished o) ∷ []) at;
          waits = sym (append-nil w.waits);
        })
  attempts-succeed o (suc k) (suc left) bound attempt wait v w n h at live fails good few enough =
      let b = (call (local s) o w.storage).1 in
      let w' = retried s v (failed o) v.state wait b w in
      let v' = again_row s v (failed o) wait b w in
      rw
        (round-again s (task_of o) v (failed o) bound attempt wait fails.0.0 b w n h
          (ap (λ q. edge q Event.error) at ∙ error_edge o) (retry_edge o ∙ ap some (sym at)) live
          (ap (λ r. (r, b)) fails.0.1) (ground arith))
        (Ends-again o v (finished o) (node_after o v.node_id) _ _ wait b w _ at (
          attempts-succeed o k left bound (attempt + 1) (next_wait s.policy wait) v' w' n
            (lookup-insert_self v' _) at refl fails.1 good (omega arith) (omega arith)))
  attempts-succeed o k zero bound attempt wait v w n h at live fails good few enough =
      absurd (omega arith)

  -- With failures only, as many as there are attempts.
  attempts-exhaust :
      (o : Operation) (k bound attempt wait : ℕ) (v : Volume) (w : LocalWorld s)
      → name_of o ≡ v.name
      → lookup v.name w.db.volumes ≡ some v
      → v.state ≡ working o
      → w.done_after ≡ none
      → AllFail o (suc k) w.storage
      → attempt + k ≡ bound
      → Ends o v State.error v.node_id
          (failures v.id o k ++ lost o v)
          (backoffs s.policy k wait)
          w
          (attempts (local s) (task_of o) bound (suc k) attempt wait w)
  unfolding attempts
  attempts-exhaust o zero bound attempt wait v w n h at live fails enough =
      let b = (call (local s) o w.storage).1 in
      rw
        (round-exhausted s (task_of o) v (failed o) bound attempt wait fails.0.0 b w n h
          (ap (λ q. edge q Event.error) at ∙ error_edge o) (fail_edge o) live
          (ap (λ r. (r, b)) fails.0.1) (ground arith))
        (record {
          updated_at = s.clock (suc (suc w.readings));
          row =
              lookup-insert_named (name_of o)
                (stamped s v State.error (fired s v Event.error (failed o) w))
                (insert v.name (stamped s v (failed o) w) w.db.volumes) n;
          events =
              append_assoc w.db.events (entry v.id Event.error v.state (failed o) ∷ []) _
              ∙ ap
                  (λ q.
                    w.db.events
                    ++ entry v.id Event.error q (failed o)
                      ∷ entry v.id Event.fail (failed o) State.error
                      ∷ [])
                  at;
          waits = sym (append-nil w.waits);
        })
  attempts-exhaust o (suc k) bound attempt wait v w n h at live fails enough =
      let b = (call (local s) o w.storage).1 in
      let w' = retried s v (failed o) v.state wait b w in
      let v' = again_row s v (failed o) wait b w in
      rw
        (round-again s (task_of o) v (failed o) bound attempt wait fails.0.0 b w n h
          (ap (λ q. edge q Event.error) at ∙ error_edge o) (retry_edge o ∙ ap some (sym at)) live
          (ap (λ r. (r, b)) fails.0.1) (ground arith))
        (Ends-again o v State.error v.node_id _ _ wait b w _ at (
          attempts-exhaust o k bound (attempt + 1) (next_wait s.policy wait) v' w' n
            (lookup-insert_self v' _) at refl fails.1 (omega arith)))

  -- If the backend fails `k` times and then succeeds, and there are more than `k` attempts, then the
  -- goroutine takes the row from its working state to the state of success: a create ends
  -- available, a delete deleted, an attach attached, and a detach available with no node. Nothing
  -- else of the row changes but its update time; the audit trail gets an error and a retry for each
  -- failure and then the success; and the waits are the first `k` of the back-off.
  pub run_with_retry-succeeds :
      (o : Operation) (k : ℕ) (v : Volume) (w : LocalWorld s)
      → name_of o ≡ v.name
      → lookup v.name w.db.volumes ≡ some v
      → v.state ≡ working o
      → w.done_after ≡ none
      → AllFail o k w.storage
      → (call (local s) o (calls o k w.storage)).0 ≡ ok tt
      → k < pos_part s.policy.max_attempts
      → Ends o v
          (finished o)
          (node_after o v.node_id)
          (failures v.id o k ++ succeeded o v ∷ [])
          (backoffs s.policy k s.policy.initial_wait)
          w
          (run_with_retry (local s) (task_of o) w)
  unfolding run_with_retry
  run_with_retry-succeeds o k v w n h at live fails good few =
      attempts-succeed o k _ _ 1 s.policy.initial_wait v w n h at live fails good few (omega arith)

  -- If the backend fails at each of the `k + 1` attempts, then the row ends in the error state, on the node that
  -- it had; the audit trail gets an error and a retry for each of the first `k` failures and an error
  -- and a fail for the last; and there were `k` waits.
  pub run_with_retry-exhausts :
      (o : Operation) (k : ℕ) (v : Volume) (w : LocalWorld s)
      → name_of o ≡ v.name
      → lookup v.name w.db.volumes ≡ some v
      → v.state ≡ working o
      → w.done_after ≡ none
      → AllFail o (suc k) w.storage
      → pos_part s.policy.max_attempts ≡ suc k
      → Ends o v State.error v.node_id
          (failures v.id o k ++ lost o v)
          (backoffs s.policy k s.policy.initial_wait)
          w
          (run_with_retry (local s) (task_of o) w)
  unfolding run_with_retry
  run_with_retry-exhausts o k v w n h at live fails e =
      rw e (attempts-exhaust o k _ 1 s.policy.initial_wait v w n h at live fails (omega arith))
