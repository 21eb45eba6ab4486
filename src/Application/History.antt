-- ===== src/Application/History.antt =====
-- Histories: requests, and goroutines that a request has started, one after the other.
use block_storage_api.Prelude.{ℕ, String, ◌≡◌, refl, List, [], ◌∷◌, ℤ, arith}
use block_storage_api.Fsm.{Event}
use block_storage_api.Dependency.Contract.{DatabaseContract}
use block_storage_api.Application.World.{Application, World, Action, Operation}
use block_storage_api.Application.Operations
use block_storage_api.Application.Operations.{task_of}
use block_storage_api.Application.Retry.{run_with_retry}
use block_storage_api.Application.Safety.{IsSound, Safe}
use block_storage_api.Application.Safety.Rows.{SameRow-refl}
use block_storage_api.Application.Safety.Methods.{
  create_volume-Safe, delete_volume-Safe, attach_volume-Safe, detach_volume-Safe,
  reconcile_volume-Safe, health_check-Safe, list_volumes-Safe, subscribe-Safe, unsubscribe-Safe,
  get_volume-Safe,
}
use block_storage_api.Application.Safety.Methods.Retries.{
  IsPostSuccess, IsPermitted, Kept, run_with_retry-Kept,
}

-- The events of a goroutine, where its operation ends with the event `end`.
pub data Ends (end : Event) : Event → Type 0 where
  succeeds : Ends end end
  errs : Ends end Event.error
  retries : Ends end Event.retry
  fails : Ends end Event.fail

-- The methods of `ApplicationContract`, and the goroutine of an operation.
pub data Request : Type 0 where
  create : String → ℤ → Request
  delete get detach reconcile subscribe : String → Request
  attach : String → String → Request
  list health : Request
  unsubscribe : String → ℕ → Request
  goroutine : Operation → Request

module _ {D B M : Type 0} (app : Application D B M) where
  unfoldable pub serve : Request → World D B → World D B
  serve (create name size_mb) w = (Operations.create_volume app name size_mb w).1
  serve (delete name) w = (Operations.delete_volume app name w).1
  serve (get name) w = (Operations.get_volume app name w).1
  serve (detach name) w = (Operations.detach_volume app name w).1
  serve (reconcile name) w = (Operations.reconcile_volume app name w).1
  serve (subscribe name) w = (Operations.subscribe app name w).1
  serve (attach name node_id) w = (Operations.attach_volume app name node_id w).1
  serve list w = (Operations.list_volumes app w).1
  serve health w = (Operations.health_check app w).1
  serve (unsubscribe name ch) w = (Operations.unsubscribe app name ch w).1
  serve (goroutine o) w = run_with_retry app (task_of o) w

  unfoldable pub history : List Request → World D B → World D B
  history [] w = w
  history (r ∷ rs) w = history rs (serve r w)

pub task_of-IsPostSuccess : (o : Operation) → IsPostSuccess (task_of o).post_success
task_of-IsPostSuccess (Operation.create_volume name size_mb) = record {
  same = SameRow-refl;
  state = λ v. refl;
}
task_of-IsPostSuccess (Operation.delete_volume name) = record {
  same = SameRow-refl;
  state = λ v. refl;
}
task_of-IsPostSuccess (Operation.attach_volume name node_id) = record {
  same = SameRow-refl;
  state = λ v. refl;
}
task_of-IsPostSuccess (Operation.detach_volume name) = record {
  same = λ v. ground arith;
  state = λ v. refl;
}

-- The events that a request may fire on the row of a name. A method fires its own event on its own name,
-- and a goroutine the end of its operation, an error, a retry and a failure.
abbrev pub MayFire : Request → String → Event → Type 0
MayFire (create name _) n e = (name ≡ n) × (e ≡ Event.create)
MayFire (delete name) n e = (name ≡ n) × (e ≡ Event.delete)
MayFire (attach name _) n e = (name ≡ n) × (e ≡ Event.attach)
MayFire (detach name) n e = (name ≡ n) × (e ≡ Event.detach)
MayFire (reconcile name) n e = (name ≡ n) × (e ≡ Event.reconcile)
MayFire (goroutine (Operation.create_volume name _)) n e = (name ≡ n) × Ends Event.ready e
MayFire (goroutine (Operation.delete_volume name)) n e = (name ≡ n) × Ends Event.deleted e
MayFire (goroutine (Operation.attach_volume name _)) n e = (name ≡ n) × Ends Event.attached e
MayFire (goroutine (Operation.detach_volume name)) n e = (name ≡ n) × Ends Event.detached e
MayFire (get _) n e = ⊥
MayFire (subscribe _) n e = ⊥
MayFire list n e = ⊥
MayFire health n e = ⊥
MayFire (unsubscribe _ _) n e = ⊥

module _ {D B M : Type 0} (app : Application D B M) (c : DatabaseContract app.database) where
  kept :
      {may : String → Event → Type 0} {A : Type 0} {Q : A → D → Type 0} {m : Action D B A}
      → Safe c may (λ _. Unit) m Q
      → (w : World D B) → IsSound c w.db
      → Kept app c may w.db (m w).1.db
  kept h w s = let g = h.at w s tt in record { sound = g.sound; evolves = g.evolves }

  permitted : (o : Operation) → IsPermitted app c (MayFire (goroutine o)) (task_of o)
  permitted (Operation.create_volume name size_mb) = record {
    success = (refl, succeeds);
    error = (refl, errs);
    retry = (refl, retries);
    fail = (refl, fails);
  }
  permitted (Operation.delete_volume name) = record {
    success = (refl, succeeds);
    error = (refl, errs);
    retry = (refl, retries);
    fail = (refl, fails);
  }
  permitted (Operation.attach_volume name node_id) = record {
    success = (refl, succeeds);
    error = (refl, errs);
    retry = (refl, retries);
    fail = (refl, fails);
  }
  permitted (Operation.detach_volume name) = record {
    success = (refl, succeeds);
    error = (refl, errs);
    retry = (refl, retries);
    fail = (refl, fails);
  }

  -- What a request makes of a sound database.
  abbrev pub Serves : Request → World D B → Type 0
  Serves r w = Kept app c (MayFire r) w.db (serve app r w).db

  serve-Kept : (r : Request) (w : World D B) → IsSound c w.db → Serves r w
  unfolding serve
  serve-Kept (create name size_mb) w s =
      kept (create_volume-Safe app c _ name size_mb (refl, refl)) w s
  serve-Kept (delete name) w s = kept (delete_volume-Safe app c _ name (refl, refl)) w s
  serve-Kept (get name) w s = kept (get_volume-Safe app c _ name) w s
  serve-Kept (detach name) w s = kept (detach_volume-Safe app c _ name (refl, refl)) w s
  serve-Kept (reconcile name) w s = kept (reconcile_volume-Safe app c _ name (refl, refl)) w s
  serve-Kept (subscribe name) w s = kept (subscribe-Safe app c _ name) w s
  serve-Kept (attach name node_id) w s =
      kept (attach_volume-Safe app c _ name node_id (refl, refl)) w s
  serve-Kept list w s = kept (list_volumes-Safe app c _) w s
  serve-Kept health w s = kept (health_check-Safe app c _) w s
  serve-Kept (unsubscribe name ch) w s = kept (unsubscribe-Safe app c _ name ch) w s
  serve-Kept (goroutine o) w s =
      run_with_retry-Kept app c _ (task_of o) w (permitted o) (task_of-IsPostSuccess o) s

  history-IsSound :
      (rs : List Request) (w : World D B) → IsSound c w.db → IsSound c (history app rs w).db
  unfolding history
  history-IsSound [] w s = s
  history-IsSound (r ∷ rs) w s = history-IsSound rs (serve app r w) (serve-Kept r w s).sound

  -- After any history over any database that meets the contract, failures included, the next request
  -- leaves each volume under its own name and each entry of the audit trail an arrow of the state
  -- diagram or a reconciliation out of the error state. It changes each row at most by its own events on
  -- its own name: only a create inserts a row, no row is removed, the id, name, size, backend and creation
  -- time of a row never change, and its state moves only along the arrows of the events of the request, or,
  -- for a reconcile, from the error state to pending, available or attached. The events of a goroutine are the end of
  -- its operation, error, retry and fail. Every other row keeps its state.
  pub history-Kept :
      (rs : List Request) (r : Request) (w : World D B)
      → IsSound c w.db
      → Serves r (history app rs w)
  history-Kept rs r w s = serve-Kept r (history app rs w) (history-IsSound rs w s)
