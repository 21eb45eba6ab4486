-- ===== src/Application/World.antt =====
-- What the methods of `application` read and change, and the monad in which they are written.
-- Logging, tracing and the deadlines of contexts are left out: a call that runs out of time is a
-- call that returns an error.
use block_storage_api.Prelude.{
  ℕ, zero, suc, String, Bool, true, false, Option, none, some, List, [], ◌∷◌, ◌++◌, ℤ,
}
use block_storage_api.Errors.{Error, Result, ok, err}
use block_storage_api.Storage.{Volume, VolumeBackend}
use block_storage_api.Fsm.{Event, FsmLibrary}
use block_storage_api.Dependency.{DatabaseDependency}
use block_storage_api.Broker.{EventBroker}

-- `RetryPolicy` of volume/fsm.go. Durations are nanoseconds; `scale` is the product of a duration
-- with the float `Multiplier`.
pub record RetryPolicy : Type 0 where
  pub max_attempts : ℤ
  pub initial_wait : ℕ
  pub scale : ℕ → ℕ
  pub max_wait : ℕ

-- The closure `op` of a goroutine.
pub data Operation : Type 0 where
  create_volume : String → ℤ → Operation
  delete_volume : String → Operation
  attach_volume : String → String → Operation
  detach_volume : String → Operation

-- A goroutine that runs `runWithRetry`.
pub record Task : Type 0 where
  pub name : String
  pub operation : Operation
  pub success_event : Event
  pub post_success : Volume → Volume

-- The struct `application`, with the packages that it calls beside it: looplab/fsm, the clock
-- (the n-th reading of `time.Now`) and the generator of identifiers (the n-th `uuid.New`).
pub record Application (D B M : Type 0) : Type 0 where
  pub database : DatabaseDependency D
  pub backend : VolumeBackend B
  pub policy : RetryPolicy
  pub fsm : FsmLibrary M
  pub clock : ℕ → ℕ
  pub uuids : ℕ → String

-- What changes: the two stores, the broker, how often the clock and the generator were read, the
-- goroutines that were started and are tracked by the wait group, the back-off waits that were
-- made, and after how many more looks at `ctx.Done()` the lifecycle context is cancelled.
pub record World (D B : Type 0) : Type 0 where
  pub db : D
  pub storage : B
  pub broker : EventBroker
  pub readings : ℕ
  pub issued : ℕ
  pub tasks : List Task
  pub waits : List ℕ
  pub done_after : Option ℕ

-- What was written before an error stays written, so the world comes back beside it.
abbrev pub Action : Type 0 → Type 0 → Type 0 → Type 0
Action D B A = World D B → Result A × World D B

abbrev pub map_result : {A : Type 0} → (Error → Error) → Result A → Result A
map_result f (ok a) = ok a
map_result f (err e) = err (f e)

abbrev pub is_done : Option ℕ → Bool
is_done (some zero) = true
is_done _ = false

abbrev pub tick : Option ℕ → Option ℕ
tick (some (suc n)) = some n
tick o = o

module _ {D B : Type 0} where
  unfoldable pub pure : {A : Type 0} → A → Action D B A
  pure a w = (ok a, w)

  unfoldable pub raise : {A : Type 0} → Error → Action D B A
  raise e w = (err e, w)

  unfoldable pub lift : {A : Type 0} → Result A → Action D B A
  lift r w = (r, w)

  -- `if cond { return err }`
  unfoldable pub refuse_if : Bool → Error → Action D B (Unit {0})
  refuse_if true e w = (err e, w)
  refuse_if false e w = (ok tt, w)

  -- The value behind a pointer, or an error if it is nil.
  unfoldable pub or_raise : {A : Type 0} → Option A → Error → Action D B A
  or_raise none e w = (err e, w)
  or_raise (some a) e w = (ok a, w)

  -- `if err != nil { return f(err) }`
  unfoldable pub map_error : {A : Type 0} → (Error → Error) → Action D B A → Action D B A
  map_error f m w = let (r, w') = m w in (map_result f r, w')

  -- The result, error or not, as a value.
  unfoldable pub catch : {A : Type 0} → Action D B A → Action D B (Result A)
  catch m w = let (r, w') = m w in (ok r, w')

  -- An error is logged and dropped.
  unfoldable pub attempt : {A : Type 0} → Action D B A → Action D B (Unit {0})
  attempt m w = let (r, w') = m w in (ok tt, w')

  unfoldable pub on_db : {A : Type 0} → (D → Result A × D) → Action D B A
  on_db f w = let (r, d) = f w.db in (r, record w { db = d })

  unfoldable pub on_backend : {A : Type 0} → (B → Result A × B) → Action D B A
  on_backend f w = let (r, b) = f w.storage in (r, record w { storage = b })

  unfoldable pub on_broker : {A : Type 0} → (EventBroker → A × EventBroker) → Action D B A
  on_broker f w = let (a, b) = f w.broker in (ok a, record w { broker = b })

  unfoldable pub modify_broker : (EventBroker → EventBroker) → Action D B (Unit {0})
  modify_broker f w = (ok tt, record w { broker = f w.broker })

  -- `a.wg.Add(1); go func() { … }()`
  unfoldable pub spawn : Task → Action D B (Unit {0})
  spawn t w = (ok tt, record w { tasks = w.tasks ++ t ∷ [] })

  unfoldable pub time_now : (ℕ → ℕ) → Action D B ℕ
  time_now clock w = (ok (clock w.readings), record w { readings = suc w.readings })

  unfoldable pub new_uuid : (ℕ → String) → Action D B String
  new_uuid uuids w = (ok (uuids w.issued), record w { issued = suc w.issued })

  -- `case <-ctx.Done()`: a cancelled context stays cancelled.
  unfoldable pub context_done : Action D B Bool
  context_done w = (ok (is_done w.done_after), record w { done_after = tick w.done_after })

  -- `time.After(wait)`
  unfoldable pub sleep : ℕ → Action D B (Unit {0})
  sleep wait w = (ok tt, record w { waits = w.waits ++ wait ∷ [] })

module _ {D B A C : Type 0} where
  infixl 5 ◌>>=◌
  -- To open this is to open the actions above.
  unfoldable pub ◌>>=◌ : Action D B A → (A → Action D B C) → Action D B C
  unfolding pure raise lift refuse_if or_raise map_error catch attempt on_db on_backend on_broker
      modify_broker spawn time_now new_uuid context_done sleep
  ◌>>=◌ m f w = let (r, w') = m w in elim r [ ok a ↦ f a w' | err e ↦ (err e, w') ]

module _ {D B C : Type 0} where
  infixl 5 ◌>>◌
  abbrev pub ◌>>◌ : Action D B (Unit {0}) → Action D B C → Action D B C
  m >> k = m >>= λ _. k
