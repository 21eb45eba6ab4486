-- ===== src/Dependency/Contract.antt =====
-- What the application relies on of a database: of its state it needs the volume under each name
-- and the audit trail. Any call may fail, and a write that fails may have been made or not.
use block_storage_api.Prelude.{
  ℕ, String, ◌≡◌, ◌⊎◌, Option, none, some, List, [], ◌∷◌, ◌++◌, ◌==◌, if◌then◌else◌,
}
use block_storage_api.Errors.{ok, Failed}
use block_storage_api.Storage.{Volume}
use block_storage_api.Dependency.{VolumeEvent, DatabaseDependency}

-- The fields of a row that no update changes.
pub record SameRow (u v : Volume) : Type 0 where
  pub id : u.id ≡ v.id
  pub name : u.name ≡ v.name
  pub size_mb : u.size_mb ≡ v.size_mb
  pub backend : u.backend ≡ v.backend
  pub created_at : u.created_at ≡ v.created_at

-- `view'` is `view` with `v` under its name. The database may stamp the row with a time of its own.
abbrev pub Written : Volume → (String → Option Volume) → (String → Option Volume) → Type 0
Written v view view' =
    (t : ℕ) × ((j : String)
      → view' j ≡ (if v.name == j then some (record v { updated_at = t }) else view j))

pub record DatabaseContract {D : Type 0} (db : DatabaseDependency D) : Type 0 where
  pub view : D → String → Option Volume
  pub trail : D → List VolumeEvent
  pub load_keeps :
      (n : String) (d : D)
      → (view (db.load_volume n d).1 ≡ view d) × (trail (db.load_volume n d).1 ≡ trail d)
  pub load_reads :
      (n : String) (d : D)
      → ((db.load_volume n d).0 ≡ ok (view d n)) ⊎ Failed (db.load_volume n d).0
  pub save_trail : (v : Volume) (d : D) → trail (db.save_volume v d).1 ≡ trail d
  pub save_writes :
      (v : Volume) (d : D)
      → (view d v.name ≡ none)
      → Written v (view d) (view (db.save_volume v d).1)
        ⊎ (Failed (db.save_volume v d).0 × (view (db.save_volume v d).1 ≡ view d))
  pub save_refuses :
      (u v : Volume) (d : D)
      → view d v.name ≡ some u
      → Failed (db.save_volume v d).0 × (view (db.save_volume v d).1 ≡ view d)
  pub update_trail : (v : Volume) (d : D) → trail (db.update_volume v d).1 ≡ trail d
  pub update_writes :
      (u v : Volume) (d : D)
      → view d v.name ≡ some u
      → SameRow u v
      → Written v (view d) (view (db.update_volume v d).1)
        ⊎ (Failed (db.update_volume v d).0 × (view (db.update_volume v d).1 ≡ view d))
  pub save_event_view : (e : VolumeEvent) (d : D) → view (db.save_event e d).1 ≡ view d
  pub save_event_appends :
      (e : VolumeEvent) (d : D)
      → (trail (db.save_event e d).1 ≡ trail d ++ e ∷ [])
        ⊎ (Failed (db.save_event e d).0 × (trail (db.save_event e d).1 ≡ trail d))
  pub list_keeps :
      (d : D) → (view (db.list_volumes d).1 ≡ view d) × (trail (db.list_volumes d).1 ≡ trail d)
