-- ===== src/Application/Interleaved/System/Kept.antt =====
-- However the requests and goroutines interleave, the rows stay and the audit trail is legal.
use block_storage_api.Prelude.{
  ℕ, zero, suc, ◌≡◌, subst, sym, List, [], ◌∷◌, All, All-append, All-map,
}
use block_storage_api.Broker.Laws.{IsValid, receive-IsValid}
use block_storage_api.Dependency.Contract.{DatabaseContract}
use block_storage_api.Application.World.{Application, World, Task}
use block_storage_api.Application.Safety.{IsSound}
use block_storage_api.Application.Safety.Methods.Retries.{IsPostSuccess}
use block_storage_api.Application.History.{Request}
use block_storage_api.Application.Interleaved.Programs.{program}
use block_storage_api.Application.Interleaved.{Program, ended, step}
use block_storage_api.Application.Interleaved.Steady.{
  Steady, Steady-refl, Steady-trans, IsFine, Holds, at_step, Holds-later,
}
use block_storage_api.Application.Interleaved.Steady.Goroutine.{program-Holds, run_with_retry-Holds}
use block_storage_api.Application.Interleaved.System.{
  System, Move, arrive, start, take, cancel, receive, advance, advance_nth, started, play, schedule,
  serving,
}

module _ {D B : Type 0} {db : _} (c : DatabaseContract {D = D} db) where
  -- A thread keeps what it has to, from the database `d` on.
  abbrev Runs : D → Program D B (Unit {0}) → Type 0
  Runs d p = Holds c (λ _ _. Unit) d p

  pub record IsRunning (s : System D B) : Type 0 where
    pub fine : IsFine c s.world
    pub threads : All (Runs s.world.db) s.threads

  -- What a change of the system that began with the database `d` has come to.
  pub record Leads (d : D) (s : System D B) : Type 0 where
    pub running : IsRunning s
    pub steady : Steady c d s.world.db

  threads-later :
      (ps : List (Program D B (Unit {0}))) (d d' : D)
      → Steady c d d'
      → All (Runs d) ps
      → All (Runs d') ps
  threads-later [] d d' s h = tt
  threads-later (p ∷ ps) d d' s h =
      (Holds-later (record { at = λ _ _ _ _ q. q }) s h.0, threads-later ps d d' s h.1)

  advance-Runs :
      (p : Program D B (Unit {0})) (w : World D B)
      → IsFine c w
      → Runs w.db p
      → IsFine c (advance p w).0
        × Steady c w.db (advance p w).0.db
        × Runs (advance p w).0.db (advance p w).1
  unfolding advance
  advance-Runs (ended r) w fine h = (fine, Steady-refl w.db, h)
  advance-Runs (step t k) w fine (at_step g s h) =
      let here = Steady-refl w.db in (g w fine here, s w fine here, h w fine here)

  advance_nth-Leads :
      (n : ℕ) (ps : List (Program D B (Unit {0}))) (w : World D B)
      → IsFine c w
      → All (Runs w.db) ps
      → Leads w.db (advance_nth n ps w)
  unfolding advance_nth
  advance_nth-Leads n [] w fine h = record {
    running = record { fine = fine; threads = tt };
    steady = Steady-refl w.db;
  }
  advance_nth-Leads zero (p ∷ ps) w fine h =
      let (f, s, k) = advance-Runs p w fine h.0 in
      record {
        running = record { fine = f; threads = (k, threads-later ps _ _ s h.1) };
        steady = s;
      }
  advance_nth-Leads (suc n) (p ∷ ps) w fine h =
      let rest = advance_nth-Leads n ps w fine h.1 in
      record {
        running = record {
          fine = rest.running.fine;
          threads =
              (Holds-later (record { at = λ _ _ _ _ q. q }) rest.steady h.0, rest.running.threads);
        };
        steady = rest.steady;
      }

module _ {D B M : Type 0} (app : Application D B M) (c : DatabaseContract app.database) where
  started-Leads :
      (ts : List Task) (s : System D B)
      → All (λ t. IsPostSuccess t.post_success) ts
      → IsRunning c s
      → Leads c s.world.db (started app ts s)
  unfolding started
  started-Leads [] s ok h = record { running = h; steady = Steady-refl s.world.db }
  started-Leads (t ∷ ts) s ok h = record {
    running = record {
      fine = record { sound = h.fine.sound; tasks = ok.1; calm = h.fine.calm };
      threads = All-append _ s.threads _ h.threads (run_with_retry-Holds app c t ok.0, tt);
    };
    steady = Steady-refl s.world.db;
  }

  pub play-Leads : (m : Move) (s : System D B) → IsRunning c s → Leads c s.world.db (play app m s)
  unfolding play
  play-Leads (arrive r) s h = record {
    running = record {
      fine = h.fine;
      threads = All-append _ s.threads _ h.threads (program-Holds app c r, tt);
    };
    steady = Steady-refl s.world.db;
  }
  play-Leads start s h = started-Leads s.world.tasks s h.fine.tasks h
  play-Leads (take n) s h = advance_nth-Leads c n s.threads s.world h.fine h.threads
  play-Leads cancel s h = record {
    running = record {
      fine = record { sound = h.fine.sound; tasks = h.fine.tasks; calm = h.fine.calm };
      threads = h.threads;
    };
    steady = Steady-refl s.world.db;
  }
  play-Leads (receive ch) s h = record {
    running = record {
      fine = record {
        sound = h.fine.sound;
        tasks = h.fine.tasks;
        calm = receive-IsValid ch s.world.broker h.fine.calm;
      };
      threads = h.threads;
    };
    steady = Steady-refl s.world.db;
  }

  schedule-Leads :
      (ms : List Move) (s : System D B) → IsRunning c s → Leads c s.world.db (schedule app ms s)
  unfolding schedule
  schedule-Leads [] s h = record { running = h; steady = Steady-refl s.world.db }
  schedule-Leads (m ∷ ms) s h =
      let first = play-Leads m s h in
      let later = schedule-Leads ms (play app m s) first.running in
      record { running = later.running; steady = Steady-trans first.steady later.steady }

  pub serving-IsRunning :
      (rs : List Request) (w : World D B)
      → w.tasks ≡ []
      → IsSound c w.db
      → IsValid w.broker
      → IsRunning c (serving app rs w)
  serving-IsRunning rs w none_started sound calm = record {
    fine = record { sound = sound; tasks = subst (All _) (sym none_started) tt; calm = calm };
    threads = All-map _ (program app) rs (λ r. program-Holds app c r);
  }

  -- Requests and goroutines that run at the same time and take their steps in any order, with failures of
  -- any dependency and a cancellation at any time, over any database that meets the contract, from a sound
  -- database and a valid event broker: each volume stays stored under its own name, every entry of the
  -- audit trail is an arrow of the state diagram or a reconciliation out of the error state, the trail
  -- only grows at its end, no row is ever removed, the id, the name, the size, the backend and the
  -- creation time of a row never change, and the broker stays valid, so no event is sent to a channel
  -- that an unsubscription has closed.
  pub schedule-Steady :
      (rs : List Request) (ms : List Move) (w : World D B)
      → w.tasks ≡ []
      → IsSound c w.db
      → IsValid w.broker
      → IsSound c (schedule app ms (serving app rs w)).world.db
        × Steady c w.db (schedule app ms (serving app rs w)).world.db
        × IsValid (schedule app ms (serving app rs w)).world.broker
  schedule-Steady rs ms w none_started sound calm =
      let end =
        schedule-Leads ms (serving app rs w) (serving-IsRunning rs w none_started sound calm) in
      (end.running.fine.sound, end.steady, end.running.fine.calm)
