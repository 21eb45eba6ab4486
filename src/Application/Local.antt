-- ===== src/Application/Local.antt =====
-- The application over the repository in memory, with any backend: the configuration that
-- cmd/api/setup.go makes without a DATABASE_URL. Here the database does not fail, and what each
-- method does is known exactly.
pub mod Answers
pub mod Methods
pub mod Retries
use block_storage_api.Prelude.{
  ℕ, suc, String, ◌≡◌, refl, ap, Bool, true, false, Option, none, some, List, [], ◌∷◌, ◌++◌, arith,
  not, ◌∙◌, sym,
}
use block_storage_api.Prelude.Dict.{lookup, insert}
use block_storage_api.Errors.{ok, err, sentinel, detail, invalid_transition}
use block_storage_api.Storage.{State, Volume, VolumeBackend}
use block_storage_api.Fsm.{Event, FsmLibrary, can_transition, transition}
use block_storage_api.Fsm.Graph.{edge, is_allowed, can_transition-edge, transition-edge}
use block_storage_api.Dependency.{VolumeEvent}
use block_storage_api.Broker.{publish}
use block_storage_api.Repository.InMemory.{InMemoryRepository, in_memory, update_volume, save_event}
use block_storage_api.Application.World.{Application, World, RetryPolicy, ◌>>=◌}
use block_storage_api.Application.Operations.{apply_event}

-- What the application is built from beside the repository.
pub record Setting (B M : Type 0) : Type 0 where
  pub backend : VolumeBackend B
  pub policy : RetryPolicy
  pub fsm : FsmLibrary M
  pub clock : ℕ → ℕ
  pub uuids : ℕ → String

module _ {B M : Type 0} (s : Setting B M) where
  abbrev pub local : Application InMemoryRepository B M
  local = record {
    database = in_memory;
    backend = s.backend;
    policy = s.policy;
    fsm = s.fsm;
    clock = s.clock;
    uuids = s.uuids;
  }

  abbrev pub stamped : Volume → State → World InMemoryRepository B → Volume
  stamped v t w = record v { state = t; updated_at = s.clock w.readings }

  -- The world after an event that took `v` to the state `t`: the row is replaced, the event is
  -- recorded and published, and the clock was read twice.
  abbrev pub fired :
      Volume → Event → State → World InMemoryRepository B → World InMemoryRepository B
  fired v e t w = record w {
    db = record {
      volumes = insert v.name (stamped v t w) w.db.volumes;
      events =
          w.db.events
          ++ record { volume_id = v.id; event = e; from_state = v.state; to_state = t } ∷ [];
    };
    readings = suc (suc w.readings);
    broker =
        publish v.name
          (record { name = v.name; state = t; event = e; timestamp = s.clock (suc w.readings) })
          w.broker;
  }

  pub apply_event-fired :
      (v u : Volume) (e : Event) (t : State) (w : World InMemoryRepository B)
      → edge v.state e ≡ some t
      → lookup v.name w.db.volumes ≡ some u
      → apply_event local v e w ≡ (ok (stamped v t w), fired v e t w)
  unfolding apply_event ◌>>=◌ update_volume save_event
  apply_event-fired v u e t w arrow stored =
      ground (arith, can_transition-edge s.fsm v.state e, transition-edge s.fsm v.state t e arrow)

  pub apply_event-refused :
      (v : Volume) (e : Event) (w : World InMemoryRepository B)
      → edge v.state e ≡ none
      → apply_event local v e w ≡ (err (detail (sentinel invalid_transition) "cannot"), w)
  unfolding apply_event ◌>>=◌
  apply_event-refused v e w no_arrow = rw (can_transition-edge s.fsm v.state e, no_arrow) refl
