-- ===== src/Tests/Interleaved.antt =====
-- Requests and goroutines of the repository in memory and the mock backend that take turns.
use block_storage_api.Prelude.{
  ℕ, zero, suc, ◌≡◌, refl, some, List, [], ◌∷◌, ◌++◌, get_elem?, pos, arith,
}
use block_storage_api.Errors.{Result, ok, err, wrap, external}
use block_storage_api.Repository.InMemory.Laws.{in_memory_contract}
use block_storage_api.Application.World.{
  on_db, time_now, new_uuid, modify_broker, spawn, context_done, on_backend,
}
use block_storage_api.Broker.Laws.{IsValid}
use block_storage_api.Application.Safety.{IsSound}
use block_storage_api.Application.History.{Request}
use block_storage_api.Application.Local.{local}
use block_storage_api.Application.Interleaved.{ended, ◌>>=◌, map_error, attempt}
use block_storage_api.Application.Interleaved.Programs.{program, create_volume, apply_event}
use block_storage_api.Application.Interleaved.Steady.{Steady}
use block_storage_api.Application.Interleaved.System.{
  Move, start, take, cancel, System, schedule, serving, play, advance_nth, started, advance,
}
use block_storage_api.Application.Interleaved.System.Kept.{schedule-Steady}
use block_storage_api.Application.Interleaved.System.Ends.{schedule-ended}
use block_storage_api.Application.Interleaved.System.Creates.{two_creations}
use block_storage_api.Application.Interleaved.System.Cancelled.{cancelled-ended}
use block_storage_api.Application.World.{Operation}
use block_storage_api.Repository.InMemory.{
  InMemoryRepository, load_volume, save_volume, update_volume, save_event,
}
use block_storage_api.Prelude.Dict.{lookup, insert}
use block_storage_api.Fsm.{can_transition, transition, targets, volume_events}
use block_storage_api.Broker.{publish, send_all}
use block_storage_api.Storage.Mock.{MockBackend}
use block_storage_api.Tests.Fixtures.{setting, world, volumes}
use block_storage_api.Tests.Witnesses.{empty-IsSound}

-- Two creations of one name.
abbrev rivals : List Request
rivals = Request.create "vol-01" (pos 1024) ∷ Request.create "vol-01" (pos 2048) ∷ []

abbrev turn : ℕ → ℕ → List Move
turn zero i = []
turn (suc n) i = take i ∷ turn n i

-- Both look for the name before either saves it, and the second saves it first.
abbrev overlap : List Move
overlap = turn 3 0 ++ turn 10 1 ++ turn 7 0

-- Then the goroutine of the creation runs, and the context is cancelled meanwhile.
abbrev moves : List Move
moves = overlap ++ start ∷ turn 3 2 ++ cancel ∷ turn 45 2

-- Nothing is stored to begin with.
abbrev first : System InMemoryRepository MockBackend
first = serving (local setting) rivals (world [] (volumes []))

abbrev last : System InMemoryRepository MockBackend
last = schedule (local setting) moves first

quiet-IsValid : IsValid first.world.broker
unfolding lookup
quiet-IsValid = record {
  opened = λ n c h. refl;
  below = λ n c h. ground arith;
  once = λ n c. omega arith;
  apart = λ n m c h k. ground arith;
  bounded = λ c. omega arith;
  calm = refl;
}

schedule-Steady_example :
    IsSound in_memory_contract last.world.db
    × Steady in_memory_contract first.world.db last.world.db
    × IsValid last.world.broker
schedule-Steady_example =
    schedule-Steady (local setting) in_memory_contract rivals moves (world [] (volumes [])) refl
      empty-IsSound quiet-IsValid

two_creations_example : ¬ (
    (get_elem? last.threads 0 ≡ some (ended (ok tt)))
    × (get_elem? last.threads 1 ≡ some (ended (ok tt))))
two_creations_example =
    two_creations (local setting) in_memory_contract "vol-01" (pos 1024) (pos 2048) rivals 0 1 moves
      (world [] (volumes [])) refl refl (omega arith) refl empty-IsSound quiet-IsValid

schedule-ended_example : (x : Result (Unit {0})) × (get_elem? last.threads 0 ≡ some (ended x))
schedule-ended_example =
    schedule-ended (local setting) moves first 0 (Request.create "vol-01" (pos 1024)) refl
      (omega arith)

-- The first creation is refused by the database, and the second succeeds.
overlap_answers :
    (get_elem? (schedule (local setting) overlap first).threads 0
      ≡ some (ended (err (wrap "save volume" (external "already exists")))))
    × (get_elem? (schedule (local setting) overlap first).threads 1 ≡ some (ended (ok tt)))
unfolding schedule play advance_nth advance started program ◌>>=◌ map_error attempt create_volume
    apply_event on_db load_volume lookup time_now new_uuid save_volume can_transition targets
    volume_events transition update_volume insert save_event modify_broker publish send_all spawn
    context_done on_backend
overlap_answers = (refl, refl)

-- The goroutine of a creation, beside the two requests.
abbrev goroutine : Request
goroutine = Request.goroutine (Operation.create_volume "vol-02" (pos 1024))

-- It has looked at the context, and is about to call the backend.
cancelled-ended_example :
    (x : Result (Unit {0})) × (get_elem?
        (schedule
          (local setting)
          (take 1 ∷ take 0 ∷ cancel ∷ take 1 ∷ turn 16 0)
          (serving (local setting) (goroutine ∷ rivals) (world [] (volumes [])))).threads
        0
      ≡ some (ended x))
unfolding schedule play advance_nth
cancelled-ended_example =
    cancelled-ended (local setting) (goroutine ∷ rivals) (take 1 ∷ take 0 ∷ []) (take 1 ∷ turn 16 0)
      (world [] (volumes [])) 0 _ refl (omega arith)
