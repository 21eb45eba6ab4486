-- ===== src/Storage/Ceph/Histories.antt =====
-- The Ceph backend over any sequence of calls, and after a restart.
use block_storage_api.Prelude.{
  ℕ, ◌*◌, ◌<◌, ◌^◌, String, ◌≡◌, refl, ap, Option, none, some, List, [], ◌∷◌, ℤ, pos, arith,
}
use block_storage_api.Prelude.Dict.{lookup}
use block_storage_api.Errors.{wrap, ok, err, Failed}
use block_storage_api.Storage.{Volume}
use block_storage_api.Storage.Ceph.{
  Cluster, CephConfig, CephBackend, size_bytes, new, create_volume, delete_volume, get_volume,
  attach_volume, detach_volume, list_volumes, health_check, remove, err_not_found,
}
use block_storage_api.Storage.Ceph.Laws.{IsDoubtedBy, size_bytes-exact}

-- The calls of the backend's methods.
pub data Command : Type 0 where
  creates : String → ℤ → Command
  deletes gets detaches : String → Command
  attaches : String → String → Command
  lists checks : Command

module _ {R : Type 0} (api : Cluster R) (clock : ℕ → ℕ) (uuids : ℕ → String) where
  abbrev pub obey : Command → CephBackend R → CephBackend R
  obey (creates name size_mb) c = (create_volume api clock uuids name size_mb c).1
  obey (deletes name) c = (delete_volume api clock uuids name c).1
  obey (gets name) c = (get_volume api clock uuids name c).1
  obey (detaches name) c = (detach_volume api clock uuids name c).1
  obey (attaches name node_id) c = (attach_volume api clock uuids name node_id c).1
  obey lists c = (list_volumes api clock uuids c).1
  obey checks c = (health_check api clock uuids c).1

  abbrev pub run_calls : List Command → CephBackend R → CephBackend R
  run_calls [] c = c
  run_calls (x ∷ xs) c = run_calls xs (obey x c)

  -- The names of which a call of `RemoveImage` has failed.
  abbrev DoubtedBy : Command → CephBackend R → (String → Type 0) → String → Type 0
  DoubtedBy (deletes name) c doubtful = IsDoubtedBy api clock uuids name c.cluster doubtful
  DoubtedBy _ c doubtful = doubtful

  abbrev pub DoubtedAfter : List Command → CephBackend R → (String → Type 0) → String → Type 0
  DoubtedAfter [] c doubtful = doubtful
  DoubtedAfter (x ∷ xs) c doubtful = DoubtedAfter xs (obey x c) (DoubtedBy x c doubtful)

  -- A creation that succeeds, of less than 2 ^ 44 MiB, makes an image of that many bytes.
  pub create_volume-image :
      (name : String) (n : ℕ) (c : CephBackend R) (v : Option Volume)
      → n < 2 ^ 44
      → (create_volume api clock uuids name (pos n) c).0 ≡ ok v
      → api.image (create_volume api clock uuids name (pos n) c).1.cluster name
        ≡ some (n * 1_048_576)
  unfolding create_volume
  create_volume-image name n c v h good =
      ground (arith, api.create_makes name (size_bytes (pos n)) c.cluster, size_bytes-exact n h)

  new-empty : (config : CephConfig) (c : CephBackend R) → new api config ≡ ok c → c.volumes ≡ []
  unfolding new
  new-empty config c h = ground arith

  -- A new backend knows no volume: whatever images the cluster holds, a get, a delete, an attach and a
  -- detach of any name answer not found and leave the backend and the cluster as they are.
  new-forgets :
      (config : CephConfig) (c : CephBackend R) (name node_id : String)
      → new api config ≡ ok c
      → (get_volume api clock uuids name c ≡ (err (err_not_found name), c))
        × (delete_volume api clock uuids name c ≡ (err (err_not_found name), c))
        × (attach_volume api clock uuids name node_id c ≡ (err (err_not_found name), c))
        × (detach_volume api clock uuids name c ≡ (err (err_not_found name), c))
  unfolding get_volume delete_volume attach_volume detach_volume new lookup
  new-forgets config c name node_id h =
      let absent : lookup name c.volumes ≡ none = ap (lookup name) (new-empty config c h) in
      rw absent (refl, refl, refl, refl)

  -- A cached volume whose image is gone cannot be deleted: the delete fails and the volume stays cached.
  delete_volume-gone :
      (name : String) (v : Volume) (c : CephBackend R)
      → lookup name c.volumes ≡ some v
      → api.image c.cluster name ≡ none
      → Failed (delete_volume api clock uuids name c).0
        × ((delete_volume api clock uuids name c).1.volumes ≡ c.volumes)
  unfolding delete_volume remove
  delete_volume-gone name v c h gone =
      let (e, q) = api.open_missing name c.cluster gone in
      ((wrap "rbd.OpenImage" e, ground arith), ground arith)
