-- ===== src/Repository/Postgres.antt =====
-- volume/repository/postgres.go: the database in PostgreSQL, behind the pool of pgx. An instant is a
-- number of microseconds, the resolution of TIMESTAMPTZ: the nanoseconds that a reading of the clock
-- has beyond it, which the driver drops, are left out here and in all of the model.
pub mod Laws
pub mod Refinement
use block_storage_api.Prelude.{
  ℕ, suc, String, ◌≡◌, ◌⊎◌, Bool, true, false, not, Option, none, some, List, [], ◌∷◌, ◌++◌, ℤ,
  ◌==◌, if◌then◌else◌,
}
use block_storage_api.Errors.{Error, Result, ok, err, Outcome, Failed, wrap}
use block_storage_api.Storage.{State, Volume}
use block_storage_api.Fsm.{Event}
use block_storage_api.Dependency.{VolumeEvent, DatabaseDependency}

-- The variables that `Scan` fills from a row: `nodeID` is a `sql.NullString`.
pub record VolumeRow : Type 0 where
  pub id : String
  pub name : String
  pub size_mb : ℤ
  pub state : State
  pub backend : String
  pub node_id : Option String
  pub created_at : ℕ
  pub updated_at : ℕ

-- The columns that SaveEvent fills.
pub record EventRow : Type 0 where
  pub event : VolumeEvent
  pub created_at : ℕ

-- `pgx.Rows`: what `Scan` makes of each row, and what `Err` says after the last.
pub record Rows : Type 0 where
  pub scanned : List (Result VolumeRow)
  pub error : Outcome

-- A string that is sent for a column comes back as a valid `NullString`.
abbrev pub row_of : Volume → VolumeRow
row_of v = record {
  id = v.id;
  name = v.name;
  size_mb = v.size_mb;
  state = v.state;
  backend = v.backend;
  node_id = some v.node_id;
  created_at = v.created_at;
  updated_at = v.updated_at;
}

-- What `UPDATE volumes SET state, node_id, updated_at WHERE id` makes of what is stored under a name.
abbrev pub set_where : State → String → ℕ → String → Option VolumeRow → Option VolumeRow
set_where state node_id now id none = none
set_where state node_id now id (some r) =
    if r.id == id
    then some (record r { state = state; node_id = some node_id; updated_at = now })
    else some r

-- The server behind the pool, over its state `S`: its statements, the row of each name and the
-- rows of volume_events, and what the schema and the statements promise. Any statement may fail,
-- and one that fails may have been carried out or not.
pub record Server (S : Type 0) : Type 0 where
  pub insert_volume : VolumeRow → S → Outcome × S
  pub update_volume : State → String → ℕ → String → S → Outcome × S
  pub select_by_name : String → S → Result VolumeRow × S
  pub select_all : S → Result Rows × S
  pub select_by_states : List State → S → Result Rows × S
  pub delete_by_name : String → S → Outcome × S
  pub insert_event : EventRow → S → Outcome × S
  pub is_no_rows : Error → Bool
  pub by_name : S → String → Option VolumeRow
  pub events : S → List EventRow
  pub names : (s : S) (n : String) (r : VolumeRow) → by_name s n ≡ some r → r.name ≡ n
  pub primary_key :
      (s : S) (m n : String) (q r : VolumeRow)
      → by_name s m ≡ some q
      → by_name s n ≡ some r
      → q.id ≡ r.id
      → m ≡ n
  pub insert_writes :
      (r : VolumeRow) (s : S)
      → by_name s r.name ≡ none
      → ((j : String)
          → by_name (insert_volume r s).1 j ≡ (if r.name == j then some r else by_name s j))
        ⊎ (Failed (insert_volume r s).0 × (by_name (insert_volume r s).1 ≡ by_name s))
  pub insert_refuses :
      (q r : VolumeRow) (s : S)
      → by_name s r.name ≡ some q
      → Failed (insert_volume r s).0 × (by_name (insert_volume r s).1 ≡ by_name s)
  pub insert_keeps : (r : VolumeRow) (s : S) → events (insert_volume r s).1 ≡ events s
  pub update_writes :
      (state : State) (node_id : String) (now : ℕ) (id : String) (s : S)
      → ((j : String)
          → by_name (update_volume state node_id now id s).1 j
            ≡ set_where state node_id now id (by_name s j))
        ⊎ (Failed (update_volume state node_id now id s).0
            × (by_name (update_volume state node_id now id s).1 ≡ by_name s))
  pub update_keeps :
      (state : State) (node_id : String) (now : ℕ) (id : String) (s : S)
      → events (update_volume state node_id now id s).1 ≡ events s
  pub select_keeps :
      (n : String) (s : S)
      → (by_name (select_by_name n s).1 ≡ by_name s) × (events (select_by_name n s).1 ≡ events s)
  pub select_finds :
      (n : String) (s : S) (r : VolumeRow) → (select_by_name n s).0 ≡ ok r → by_name s n ≡ some r
  pub select_misses :
      (n : String) (s : S) (e : Error)
      → (select_by_name n s).0 ≡ err e
      → is_no_rows e ≡ true
      → by_name s n ≡ none
  pub select_all_keeps :
      (s : S) → (by_name (select_all s).1 ≡ by_name s) × (events (select_all s).1 ≡ events s)
  pub insert_event_keeps : (e : EventRow) (s : S) → by_name (insert_event e s).1 ≡ by_name s
  pub insert_event_appends :
      (e : EventRow) (s : S)
      → (events (insert_event e s).1 ≡ events s ++ e ∷ [])
        ⊎ (Failed (insert_event e s).0 × (events (insert_event e s).1 ≡ events s))

-- The pool, and how often the repository has read the clock.
pub record PostgresRepository (S : Type 0) : Type 0 where
  pub pool : S
  pub readings : ℕ

unfoldable pub new_postgres_repository : {S : Type 0} → S → PostgresRepository S
new_postgres_repository pool = record { pool = pool; readings = 0 }

-- `fmt.Errorf` around an error, if there is one.
abbrev pub wrapped : {A : Type 0} → String → Result A → Result A
wrapped text (ok x) = ok x
wrapped text (err e) = err (wrap text e)

-- `NodeID.String` is empty for NULL.
abbrev pub string_of : Option String → String
string_of none = ""
string_of (some s) = s

abbrev pub volume_of : VolumeRow → Volume
volume_of r = record {
  id = r.id;
  name = r.name;
  size_mb = r.size_mb;
  state = r.state;
  backend = r.backend;
  node_id = string_of r.node_id;
  created_at = r.created_at;
  updated_at = r.updated_at;
}

unfoldable pub scan_rows : List Volume → List (Result VolumeRow) → Outcome → Result (List Volume)
scan_rows volumes [] (ok _) = ok volumes
scan_rows volumes [] (err e) = err e
scan_rows volumes (ok r ∷ rows) end = scan_rows (volumes ++ volume_of r ∷ []) rows end
scan_rows volumes (err e ∷ rows) end = err (wrap "scan volume" e)

unfoldable pub scan_volumes : Rows → Result (List Volume)
unfolding scan_rows
scan_volumes rows = scan_rows [] rows.scanned rows.error

module _ {S : Type 0} (server : Server S) (clock : ℕ → ℕ) where
  unfoldable pub save_volume : Volume → PostgresRepository S → Outcome × PostgresRepository S
  save_volume v r =
      let (o, s) = server.insert_volume (row_of v) r.pool in
      (wrapped "save volume" o, record r { pool = s })

  -- The volume that the pointer holds afterwards, but for the nanoseconds of its stamp, comes back beside the
  -- outcome.
  unfoldable pub update_stamped :
      Volume → PostgresRepository S → (Outcome × Volume) × PostgresRepository S
  update_stamped v r =
      let now = clock r.readings in
      let (o, s) = server.update_volume v.state v.node_id now v.id r.pool in
      (
        (wrapped "update volume" o, record v { updated_at = now }),
        record { pool = s; readings = suc r.readings },
      )

  -- The interface passes the outcome on.
  unfoldable pub update_volume : Volume → PostgresRepository S → Outcome × PostgresRepository S
  unfolding update_stamped
  update_volume v r = let ((o, _), r') = update_stamped v r in (o, r')

  abbrev pub loaded : Result VolumeRow → Result (Option Volume)
  loaded (ok r) = ok (some (volume_of r))
  loaded (err e) = if server.is_no_rows e then ok none else err (wrap "load volume" e)

  unfoldable pub load_volume :
      String → PostgresRepository S → Result (Option Volume) × PostgresRepository S
  load_volume name r =
      let (o, s) = server.select_by_name name r.pool in (loaded o, record r { pool = s })

  abbrev listed : String → Result Rows → Result (List Volume)
  listed text (ok rows) = scan_volumes rows
  listed text (err e) = err (wrap text e)

  unfoldable pub list_volumes : PostgresRepository S → Result (List Volume) × PostgresRepository S
  list_volumes r =
      let (o, s) = server.select_all r.pool in (listed "list volumes" o, record r { pool = s })

  unfoldable pub list_volumes_by_state :
      List State → PostgresRepository S → Result (List Volume) × PostgresRepository S
  list_volumes_by_state states r =
      let (o, s) = server.select_by_states states r.pool in
      (listed "list volumes by state" o, record r { pool = s })

  unfoldable pub delete_volume : String → PostgresRepository S → Outcome × PostgresRepository S
  delete_volume name r =
      let (o, s) = server.delete_by_name name r.pool in
      (wrapped "delete volume" o, record r { pool = s })

  unfoldable pub save_event : VolumeEvent → PostgresRepository S → Outcome × PostgresRepository S
  save_event e r =
      let (o, s) =
        server.insert_event (record { event = e; created_at = clock r.readings }) r.pool in
      (wrapped "save event" o, record { pool = s; readings = suc r.readings })

  abbrev pub postgres : DatabaseDependency (PostgresRepository S)
  postgres = record {
    save_volume = save_volume;
    update_volume = update_volume;
    load_volume = load_volume;
    list_volumes = list_volumes;
    list_volumes_by_state = list_volumes_by_state;
    delete_volume = delete_volume;
    save_event = save_event;
  }
