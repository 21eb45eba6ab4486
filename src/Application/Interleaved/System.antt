-- ===== src/Application/Interleaved/System.antt =====
-- The process: the requests and goroutines of volume/application.go that run at the same time.
pub mod Kept
pub mod Ends
pub mod Apart
pub mod Creates
pub mod Cancelled
use block_storage_api.Prelude.{ℕ, zero, suc, Option, some, List, [], ◌∷◌, ◌++◌, map}
use block_storage_api.Broker
use block_storage_api.Application.World.{Application, World, Task}
use block_storage_api.Application.History.{Request}
use block_storage_api.Application.Interleaved.{Program, ended, step}
use block_storage_api.Application.Interleaved.Programs.{program, run_with_retry}

-- The world, and what each thread has left to do.
pub record System (D B : Type 0) : Type 0 where
  pub world : World D B
  pub threads : List (Program D B (Unit {0}))

-- A request arrives, the oldest goroutine that is to be started is started, a thread takes a step, `Close`
-- cancels the lifecycle context, or a client reads from its channel.
pub data Move : Type 0 where
  arrive : Request → Move
  start : Move
  take : ℕ → Move
  cancel : Move
  receive : ℕ → Move

module _ {D B : Type 0} where
  -- One step of a program, which has no effect once it has ended.
  unfoldable pub advance : Program D B (Unit {0}) → World D B → World D B × Program D B (Unit {0})
  advance (ended r) w = (w, ended r)
  advance (step t k) w = (t w, k w)

  -- One step of the n-th thread, if there is one.
  unfoldable pub advance_nth : ℕ → List (Program D B (Unit {0})) → World D B → System D B
  advance_nth n [] w = record { world = w; threads = [] }
  advance_nth zero (p ∷ ps) w =
      let (w', p') = advance p w in record { world = w'; threads = p' ∷ ps }
  advance_nth (suc n) (p ∷ ps) w =
      let s = advance_nth n ps w in record { world = s.world; threads = p ∷ s.threads }

module _ {D B M : Type 0} (app : Application D B M) where
  unfoldable pub started : List Task → System D B → System D B
  started [] s = s
  started (t ∷ ts) s = record {
    world = record s.world { tasks = ts };
    threads = s.threads ++ run_with_retry app t ∷ [];
  }

  unfoldable pub play : Move → System D B → System D B
  play (arrive r) s = record { world = s.world; threads = s.threads ++ program app r ∷ [] }
  play start s = started s.world.tasks s
  play (take n) s = advance_nth n s.threads s.world
  play cancel s = record { world = record s.world { done_after = some 0 }; threads = s.threads }
  play (receive c) s = record {
    world = record s.world { broker = Broker.receive c s.world.broker };
    threads = s.threads;
  }

  unfoldable pub schedule : List Move → System D B → System D B
  schedule [] s = s
  schedule (m ∷ ms) s = schedule ms (play m s)

  -- The requests that are served to begin with.
  abbrev pub serving : List Request → World D B → System D B
  serving rs w = record { world = w; threads = map (program app) rs }
