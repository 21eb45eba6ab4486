-- ===== src/Repository/Postgres/Refinement.antt =====
-- The PostgreSQL repository meets the contract of the database.
use block_storage_api.Prelude.{ℕ, ap, map, List}
use block_storage_api.Dependency.Contract.{DatabaseContract}
use block_storage_api.Repository.Postgres.{
  Server, PostgresRepository, postgres, save_volume, update_stamped, update_volume, load_volume,
  list_volumes, save_event,
}
use block_storage_api.Repository.Postgres.Laws.{
  view, trail, volume_at, save_volume-Written, save_volume-refused, update_volume-Written,
  load_volume-reads, save_event-appends,
}
use block_storage_api.Application.World.{Application, World}
use block_storage_api.Application.Local.{Setting}
use block_storage_api.Application.Safety.{IsSound}
use block_storage_api.Application.History.{Request, Serves, history, history-Kept}

module _ {S : Type 0} (server : Server S) (clock : ℕ → ℕ) where
  open server use {events, by_name}

  unfoldable pub postgres_contract : DatabaseContract (postgres server clock)
  unfolding save_volume update_volume update_stamped load_volume list_volumes save_event
  postgres_contract = record {
    view = view server clock;
    trail = trail server clock;
    load_keeps = λ n r.
        let h = server.select_keeps n r.pool in
        (ap (λ g j. volume_at (g j)) h.0, ap (map (λ e. e.event)) h.1);
    load_reads = load_volume-reads server clock;
    save_trail = λ v r. ap (map (λ e. e.event)) (server.insert_keeps _ r.pool);
    save_writes = save_volume-Written server clock;
    save_refuses = save_volume-refused server clock;
    update_trail = λ v r. ap (map (λ e. e.event)) (server.update_keeps _ _ _ _ r.pool);
    update_writes = update_volume-Written server clock;
    save_event_view = λ e r. ap (λ g j. volume_at (g j)) (server.insert_event_keeps _ r.pool);
    save_event_appends = save_event-appends server clock;
    list_keeps = λ r.
        let h = server.select_all_keeps r.pool in
        (ap (λ g j. volume_at (g j)) h.0, ap (map (λ e. e.event)) h.1);
  }

  -- The application that cmd/api/setup.go makes with a DATABASE_URL.
  abbrev pub stored : {B M : Type 0} → Setting B M → Application (PostgresRepository S) B M
  stored s = record {
    database = postgres server clock;
    backend = s.backend;
    policy = s.policy;
    fsm = s.fsm;
    clock = s.clock;
    uuids = s.uuids;
  }

  -- Over the PostgreSQL repository, with any backend, after any history of requests and goroutines from a
  -- database in which each row stood under its own name and the trail was legal, the next request keeps
  -- this so, whatever statements of the server fail. It changes each row at most by its own events on its own
  -- name: only a create inserts a row, no row is removed, the id, name, size, backend and creation time of a
  -- row never change, and its state moves only along the arrows of the events of the request, or, for a
  -- reconcile, from the error state to pending, available or attached.
  pub postgres_history-Kept :
      {B M : Type 0} (s : Setting B M) (rs : List Request) (r : Request)
      (w : World (PostgresRepository S) B)
      → IsSound postgres_contract w.db
      → Serves (stored s) postgres_contract r (history (stored s) rs w)
  postgres_history-Kept s rs r w sound = history-Kept (stored s) postgres_contract rs r w sound
