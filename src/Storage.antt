-- ===== src/Storage.antt =====
-- storage/backend.go: the states of a volume, the volume, and what a storage backend offers.
pub mod Ceph
pub mod Mock
use block_storage_api.Prelude.{ℕ, String, List, Option, ℤ}
use block_storage_api.Errors.{Result, Outcome}

-- The string constants `StatePending`, …; volume/fsm.go renames them.
pub data State : Type 0 where
  pending creating creating_failed available attaching attaching_failed attached : State
  detaching detaching_failed deleting deleting_failed deleted error : State

unfoldable pub State-discrete : Discrete State
State-discrete = hlevel

-- `time.Time` is the number of microseconds of an instant, which is all that the database keeps of it.
pub record Volume : Type 0 where
  pub id : String
  pub name : String
  pub size_mb : ℤ
  pub state : State
  pub backend : String
  pub node_id : String
  pub created_at : ℕ
  pub updated_at : ℕ

-- `VolumeBackend` over the state `B` of an implementation. A `*Volume` result may be nil.
pub record VolumeBackend (B : Type 0) : Type 0 where
  pub create_volume : String → ℤ → B → Result (Option Volume) × B
  pub delete_volume : String → B → Outcome × B
  pub list_volumes : B → Result (List Volume) × B
  pub get_volume : String → B → Result (Option Volume) × B
  pub attach_volume : String → String → B → Outcome × B
  pub detach_volume : String → B → Outcome × B
  pub health_check : B → Outcome × B
  pub backend_name : String
  pub close : B → Outcome × B
