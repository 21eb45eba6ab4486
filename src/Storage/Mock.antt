-- ===== src/Storage/Mock.antt =====
-- storage/mock/mock.go: the backend in memory. The mutex makes each method one step; `AttachVolume`
-- and `DetachVolume` write through the stored pointer, and no other pointer to it leaves the map.
-- Its sentinels are values of its own, which `errors.Is` tells apart from those of the application.
pub mod Laws
use block_storage_api.Prelude.{
  ℕ, suc, String, Bool, true, false, Option, none, some, List, [], ◌∷◌, ite, ℤ, is_not_positive,
  if◌then◌else◌,
}
use block_storage_api.Prelude.Dict.{Dict, lookup, insert, erase, values}
use block_storage_api.Errors.{Error, Result, ok, err, Outcome, external, detail}
use block_storage_api.Storage.{State, State-discrete, Volume, VolumeBackend}

-- The map, and how often the clock and the generator of identifiers were read.
pub record MockBackend : Type 0 where
  pub volumes : Dict Volume
  pub readings : ℕ
  pub issued : ℕ

unfoldable pub new : MockBackend
new = record { volumes = []; readings = 0; issued = 0 }

abbrev pub err_volume_not_found : Error
err_volume_not_found = external "volume not found"

abbrev pub err_volume_exists : Error
err_volume_exists = external "volume already exists"

abbrev pub err_invalid_size : Error
err_invalid_size = external "size must be > 0 MB"

abbrev pub err_invalid_transition : Error
err_invalid_transition = external "invalid state transition"

module _ (clock : ℕ → ℕ) (uuids : ℕ → String) where
  abbrev created : String → ℤ → MockBackend → Volume
  created name size_mb m = record {
    id = uuids m.issued;
    name = name;
    size_mb = size_mb;
    state = State.available;
    backend = "mock";
    node_id = "";
    created_at = clock m.readings;
    updated_at = clock m.readings;
  }

  abbrev create_at : Option Volume → String → ℤ → MockBackend → Result (Option Volume) × MockBackend
  create_at (some _) name size_mb m = (err (detail err_volume_exists name), m)
  create_at none name size_mb m =
      let v = created name size_mb m in
      (
        ok (some v),
        record m {
          volumes = insert name v m.volumes;
          readings = suc m.readings;
          issued = suc m.issued;
        },
      )

  unfoldable pub create_volume : String → ℤ → MockBackend → Result (Option Volume) × MockBackend
  create_volume name size_mb m =
      if is_not_positive size_mb
      then (err err_invalid_size, m)
      else create_at (lookup name m.volumes) name size_mb m

  abbrev delete_at : Option Volume → String → MockBackend → Outcome × MockBackend
  delete_at none name m = (err (detail err_volume_not_found name), m)
  delete_at (some v) name m =
      ite (State-discrete v.state State.attached)
        (err (detail err_invalid_transition "attached"), m)
        (ok tt, record m { volumes = erase name m.volumes })

  unfoldable pub delete_volume : String → MockBackend → Outcome × MockBackend
  delete_volume name m = delete_at (lookup name m.volumes) name m

  unfoldable pub list_volumes : MockBackend → Result (List Volume) × MockBackend
  list_volumes m = (ok (values m.volumes), m)

  abbrev get_at : Option Volume → String → Result (Option Volume)
  get_at none name = err (detail err_volume_not_found name)
  get_at (some v) name = ok (some v)

  unfoldable pub get_volume : String → MockBackend → Result (Option Volume) × MockBackend
  get_volume name m = (get_at (lookup name m.volumes) name, m)

  -- `v.NodeID, v.State, v.UpdatedAt = node_id, state, now` through the stored pointer
  abbrev pub assign : String → Volume → String → State → MockBackend → MockBackend
  assign name v node_id state m = record m {
    volumes =
        insert name (record v { node_id = node_id; state = state; updated_at = clock m.readings })
          m.volumes;
    readings = suc m.readings;
  }

  abbrev pub attach_at : Option Volume → String → String → MockBackend → Outcome × MockBackend
  attach_at none name node_id m = (err (detail err_volume_not_found name), m)
  attach_at (some v) name node_id m =
      ite (State-discrete v.state State.available) (ok tt, assign name v node_id State.attached m)
        (err (detail err_invalid_transition "attach"), m)

  unfoldable pub attach_volume : String → String → MockBackend → Outcome × MockBackend
  attach_volume name node_id m = attach_at (lookup name m.volumes) name node_id m

  abbrev pub detach_at : Option Volume → String → MockBackend → Outcome × MockBackend
  detach_at none name m = (err (detail err_volume_not_found name), m)
  detach_at (some v) name m =
      ite (State-discrete v.state State.attached) (ok tt, assign name v "" State.available m)
        (err (detail err_invalid_transition "detach"), m)

  unfoldable pub detach_volume : String → MockBackend → Outcome × MockBackend
  detach_volume name m = detach_at (lookup name m.volumes) name m

  abbrev pub mock : VolumeBackend MockBackend
  mock = record {
    create_volume = create_volume;
    delete_volume = delete_volume;
    list_volumes = list_volumes;
    get_volume = get_volume;
    attach_volume = attach_volume;
    detach_volume = detach_volume;
    health_check = λ m. (ok tt, m);
    backend_name = "mock";
    close = λ m. (ok tt, m);
  }
