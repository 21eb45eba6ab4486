-- ===== src/Repository/InMemory.antt =====
-- volume/repository/inmemory.go. The mutex makes each method one step; the copies that it makes
-- on the way in and out keep the stored volumes apart from the callers', as values are here.
pub mod Laws
use block_storage_api.Prelude.{
  String, Bool, true, false, ◌||◌, Option, none, some, List, [], ◌∷◌, ◌++◌, ite,
}
use block_storage_api.Prelude.Dict.{Dict, lookup, insert, erase, values}
use block_storage_api.Errors.{Result, ok, err, Outcome, external}
use block_storage_api.Storage.{State, State-discrete, Volume}
use block_storage_api.Dependency.{VolumeEvent, DatabaseDependency}

pub record InMemoryRepository : Type 0 where
  pub volumes : Dict Volume
  pub events : List VolumeEvent

unfoldable pub new_in_memory_repository : InMemoryRepository
new_in_memory_repository = record { volumes = []; events = [] }

abbrev put : Volume → InMemoryRepository → InMemoryRepository
put v r = record r { volumes = insert v.name v r.volumes }

abbrev save_at : Option Volume → Volume → InMemoryRepository → Outcome × InMemoryRepository
save_at (some _) v r = (err (external "already exists"), r)
save_at none v r = (ok tt, put v r)

unfoldable pub save_volume : Volume → InMemoryRepository → Outcome × InMemoryRepository
save_volume v r = save_at (lookup v.name r.volumes) v r

abbrev update_at : Option Volume → Volume → InMemoryRepository → Outcome × InMemoryRepository
update_at none v r = (err (external "not found"), r)
update_at (some _) v r = (ok tt, put v r)

unfoldable pub update_volume : Volume → InMemoryRepository → Outcome × InMemoryRepository
update_volume v r = update_at (lookup v.name r.volumes) v r

unfoldable pub load_volume :
    String → InMemoryRepository → Result (Option Volume) × InMemoryRepository
load_volume name r = (ok (lookup name r.volumes), r)

unfoldable pub list_volumes : InMemoryRepository → Result (List Volume) × InMemoryRepository
list_volumes r = (ok (values r.volumes), r)

-- `want[s]`
unfoldable pub wants : List State → State → Bool
wants [] s = false
wants (x ∷ xs) s = ite (State-discrete x s) true false || wants xs s

unfoldable pub in_states : List State → List Volume → List Volume
unfolding wants
in_states states [] = []
in_states states (v ∷ vs) =
    let rest = in_states states vs in elim (wants states v.state) [ true ↦ v ∷ rest | false ↦ rest ]

unfoldable pub list_volumes_by_state :
    List State → InMemoryRepository → Result (List Volume) × InMemoryRepository
unfolding in_states
list_volumes_by_state states r = (ok (in_states states (values r.volumes)), r)

unfoldable pub delete_volume : String → InMemoryRepository → Outcome × InMemoryRepository
delete_volume name r = (ok tt, record r { volumes = erase name r.volumes })

unfoldable pub save_event : VolumeEvent → InMemoryRepository → Outcome × InMemoryRepository
save_event e r = (ok tt, record r { events = r.events ++ e ∷ [] })

abbrev pub in_memory : DatabaseDependency InMemoryRepository
in_memory = record {
  save_volume = save_volume;
  update_volume = update_volume;
  load_volume = load_volume;
  list_volumes = list_volumes;
  list_volumes_by_state = list_volumes_by_state;
  delete_volume = delete_volume;
  save_event = save_event;
}
