-- ===== src/Tests/Postgres.antt =====
-- The PostgreSQL repository over a server whose table has room for one row.
use block_storage_api.Prelude.{
  ℕ, String, ◌≡◌, ◌⊎◌, refl, true, false, Option, none, some, [], ◌∷◌, ◌++◌, List, pos, arith,
  eq_iff, ◌==◌, inl, inr, if◌then◌else◌,
}
use block_storage_api.Errors.{Error, Failed, Outcome, Result, ok, err, external}
use block_storage_api.Storage.{State}
use block_storage_api.Storage.Mock.{MockBackend}
use block_storage_api.Repository.Postgres.{
  VolumeRow, EventRow, Server, PostgresRepository, new_postgres_repository, row_of, set_where,
}
use block_storage_api.Repository.Postgres.Refinement.{
  stored, postgres_contract, postgres_history-Kept,
}
use block_storage_api.Application.World.{World}
use block_storage_api.Application.Safety.{IsSound}
use block_storage_api.Application.History.{Request, Serves, history}
use block_storage_api.Tests.Fixtures.{setting, clock, row, volumes}

abbrev Table : Type 0
Table = Option VolumeRow × List EventRow

abbrev by_name : Option VolumeRow → String → Option VolumeRow
by_name none n = none
by_name (some r) n = if r.name == n then some r else none

abbrev inserted : VolumeRow → Table → Outcome × Table
inserted r (none, es) = (ok tt, (some r, es))
inserted r (some q, es) = (err (external "the table is full"), (some q, es))

abbrev selected : Option VolumeRow → Result VolumeRow
selected none = err (external "no rows in result set")
selected (some r) = ok r

abbrev listed : Option VolumeRow → List (Result VolumeRow)
listed none = []
listed (some r) = ok r ∷ []

by_name-names :
    (o : Option VolumeRow) (n : String) (r : VolumeRow) → by_name o n ≡ some r → r.name ≡ n
by_name-names none n r h = absurd (cc)
by_name-names (some q) n r h = ground (arith, eq_iff q.name n)

by_name-key :
    (o : Option VolumeRow) (m n : String) (q r : VolumeRow)
    → by_name o m ≡ some q
    → by_name o n ≡ some r
    → m ≡ n
by_name-key none m n q r h k = absurd (cc)
by_name-key (some x) m n q r h k = ground (arith, eq_iff x.name m, eq_iff x.name n)

inserted-writes :
    (r : VolumeRow) (s : Table)
    → ((j : String)
        → by_name (inserted r s).1.0 j ≡ (if r.name == j then some r else by_name s.0 j))
      ⊎ (Failed (inserted r s).0 × (by_name (inserted r s).1.0 ≡ by_name s.0))
inserted-writes r (none, es) = inl λ j. refl
inserted-writes r (some q, es) = inr ((_, refl), refl)

inserted-refuses :
    (q r : VolumeRow) (s : Table)
    → by_name s.0 r.name ≡ some q
    → Failed (inserted r s).0 × (by_name (inserted r s).1.0 ≡ by_name s.0)
inserted-refuses q r (none, es) h = absurd (cc)
inserted-refuses q r (some x, es) h = ((_, refl), refl)

inserted-keeps : (r : VolumeRow) (s : Table) → (inserted r s).1.1 ≡ s.1
inserted-keeps r (none, es) = refl
inserted-keeps r (some q, es) = refl

set_where-by_name :
    (state : State) (node_id : String) (now : ℕ) (id : String) (o : Option VolumeRow) (j : String)
    → by_name (set_where state node_id now id o) j ≡ set_where state node_id now id (by_name o j)
set_where-by_name state node_id now id none j = refl
set_where-by_name state node_id now id (some r) j = ground arith

selected-finds : (o : Option VolumeRow) (r : VolumeRow) → selected o ≡ ok r → o ≡ some r
selected-finds none r h = absurd (cc)
selected-finds (some q) r h = cc

selected-misses : (o : Option VolumeRow) (e : Error) → selected o ≡ err e → o ≡ none
selected-misses none e h = refl
selected-misses (some q) e h = absurd (cc)

abbrev server : Server Table
server = record {
  insert_volume = inserted;
  update_volume = λ state node_id now id s. (ok tt, (set_where state node_id now id s.0, s.1));
  select_by_name = λ n s. (selected (by_name s.0 n), s);
  select_all = λ s. (ok (record { scanned = listed s.0; error = ok tt }), s);
  select_by_states = λ states s. (ok (record { scanned = listed s.0; error = ok tt }), s);
  delete_by_name = λ n s. (err (external "read only"), s);
  insert_event = λ e s. (ok tt, (s.0, s.1 ++ e ∷ []));
  is_no_rows = λ e. true;
  by_name = λ s. by_name s.0;
  events = λ s. s.1;
  names = λ s. by_name-names s.0;
  primary_key = λ s m n q r h k _. by_name-key s.0 m n q r h k;
  insert_writes = λ r s h. inserted-writes r s;
  insert_refuses = inserted-refuses;
  insert_keeps = inserted-keeps;
  update_writes = λ state node_id now id s. inl (set_where-by_name state node_id now id s.0);
  update_keeps = λ state node_id now id s. refl;
  select_keeps = λ n s. (refl, refl);
  select_finds = λ n s r. selected-finds (by_name s.0 n) r;
  select_misses = λ n s e h _. selected-misses (by_name s.0 n) e h;
  select_all_keeps = λ s. (refl, refl);
  insert_event_keeps = λ e s. refl;
  insert_event_appends = λ e s. inl refl;
}

abbrev empty : PostgresRepository Table
empty = new_postgres_repository (none, [])

abbrev one_row : PostgresRepository Table
one_row = new_postgres_repository (some (row_of (row State.available "")), [])

abbrev world : World (PostgresRepository Table) MockBackend
world = record {
  db = empty;
  storage = volumes [];
  broker = record {
    subscribers = [];
    channels = λ _. record { buffer = []; closed = false };
    next_channel = 0;
    panicked = false;
  };
  readings = 0;
  issued = 0;
  tasks = [];
  waits = [];
  done_after = none;
}

abbrev requests : List Request
requests = Request.create "vol-01" (pos 1024) ∷ Request.attach "vol-01" "node-1" ∷ []

world-IsSound : IsSound (postgres_contract server clock) world.db
unfolding postgres_contract new_postgres_repository
world-IsSound = record { keyed = λ n v h. absurd (cc); legal = tt }

postgres_history-Kept_example :
    Serves
      (stored server clock setting)
      (postgres_contract server clock)
      (Request.delete "vol-01")
      (history (stored server clock setting) requests world)
postgres_history-Kept_example =
    postgres_history-Kept server clock setting requests (Request.delete "vol-01") world
      world-IsSound
