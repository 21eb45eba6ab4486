-- ===== src/Dependency.antt =====
-- volume/dependency.go: what the application asks of the database, and the records that it emits.
pub mod Contract
use block_storage_api.Prelude.{ℕ, String, List, Option}
use block_storage_api.Errors.{Result, Outcome}
use block_storage_api.Storage.{State, Volume}
use block_storage_api.Fsm.{Event}

pub record VolumeEvent : Type 0 where
  pub volume_id : String
  pub event : Event
  pub from_state : State
  pub to_state : State

pub record VolumeStateEvent : Type 0 where
  pub name : String
  pub state : State
  pub event : Event
  pub timestamp : ℕ

-- `DatabaseDependency` over the state `D` of an implementation. A `*Volume` result may be nil.
pub record DatabaseDependency (D : Type 0) : Type 0 where
  pub save_volume : Volume → D → Outcome × D
  pub update_volume : Volume → D → Outcome × D
  pub load_volume : String → D → Result (Option Volume) × D
  pub list_volumes : D → Result (List Volume) × D
  pub list_volumes_by_state : List State → D → Result (List Volume) × D
  pub delete_volume : String → D → Outcome × D
  pub save_event : VolumeEvent → D → Outcome × D
