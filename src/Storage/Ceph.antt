-- ===== src/Storage/Ceph.antt =====
-- storage/ceph/ceph.go, over go-ceph as the parameter `Cluster`, and storage/ceph/stub.go. The mutex
-- makes each method one step; attaching and detaching write through the pointer of the cache.
pub mod Removal
pub mod Laws
pub mod Histories
use block_storage_api.Prelude.{
  ℕ, suc, ◌*◌, ◌-◌, ◌%◌, ◌^◌, String, Bool, true, false, Option, none, some, List, [], ◌∷◌, ℤ, pos,
  negsuc, ◌==◌, ◌≡◌, if◌then◌else◌,
}
use block_storage_api.Prelude.Dict.{Dict, lookup, insert, erase, values}
use block_storage_api.Errors.{Error, Result, ok, err, Outcome, external, detail, wrap, Failed}
use block_storage_api.Storage.{State, Volume, VolumeBackend}

-- What the program relies on of a cluster in the state `R`. An image that was created has the size that
-- was asked for; no call changes an image of another name; an image that was removed is gone, and one
-- that is not there cannot be opened. Of a call that fails on its own image nothing is known.
pub record Cluster (R : Type 0) : Type 0 where
  pub new_conn : Result R
  pub read_config_file : String → R → Outcome × R
  pub set_config_option : String → String → R → R
  pub connect : R → Outcome × R
  pub open_io_context : String → R → Outcome × R
  pub cluster_stats : R → Outcome × R
  pub destroy : R → R
  pub create : String → ℕ → R → Outcome × R
  pub open_image : String → R → Outcome × R
  pub close_image : String → R → Outcome × R
  pub remove_image : String → R → Outcome × R
  pub image : R → String → Option ℕ
  pub create_makes :
      (n : String) (size : ℕ) (r : R)
      → (create n size r).0 ≡ ok tt
      → image (create n size r).1 n ≡ some size
  pub create_others :
      (n j : String) (size : ℕ) (r : R) → n == j ≡ false → image (create n size r).1 j ≡ image r j
  pub open_keeps : (n j : String) (r : R) → image (open_image n r).1 j ≡ image r j
  pub open_missing : (n : String) (r : R) → image r n ≡ none → Failed (open_image n r).0
  pub close_keeps : (n j : String) (r : R) → image (close_image n r).1 j ≡ image r j
  pub remove_others :
      (n j : String) (r : R) → n == j ≡ false → image (remove_image n r).1 j ≡ image r j
  pub remove_removes :
      (n : String) (r : R) → (remove_image n r).0 ≡ ok tt → image (remove_image n r).1 n ≡ none
  pub stats_keep : (j : String) (r : R) → image (cluster_stats r).1 j ≡ image r j

pub record CephConfig : Type 0 where
  pub monitors : List String
  pub pool : String
  pub keyring : String

-- The cache and the cluster, and how often the clock and the generator of identifiers were read.
pub record CephBackend (R : Type 0) : Type 0 where
  pub volumes : Dict Volume
  pub cluster : R
  pub readings : ℕ
  pub issued : ℕ

abbrev pub word : ℕ
word = 2 ^ 64

-- `uint64(sizeMB)` of an `int`.
abbrev pub uint64 : ℤ → ℕ
uint64 (pos n) = n % word
uint64 (negsuc n) = word - 1 - n % word

-- `uint64(sizeMB) * 1024 * 1024`
unfoldable pub size_bytes : ℤ → ℕ
size_bytes size_mb = uint64 size_mb * 1024 % word * 1024 % word

-- `New` without the build tag.
abbrev pub stub_new : {R : Type 0} → CephConfig → Result (CephBackend R)
stub_new config = err (external "ceph backend requires -tags ceph (librados-dev + librbd-dev)")

abbrev pub err_not_found : String → Error
err_not_found name = detail (external "ceph: volume not found") name

module _ {R : Type 0} (api : Cluster R) where
  unfoldable pub set_monitors : List String → R → R
  set_monitors [] r = r
  set_monitors (m ∷ ms) r = set_monitors ms (api.set_config_option "mon_host" m r)

  -- The monitors are set if there is no configuration file.
  abbrev configured : CephConfig → Outcome × R → R
  configured config (ok _, r) = r
  configured config (err _, r) = set_monitors config.monitors r

  abbrev with_keyring : CephConfig → R → R
  with_keyring config r =
      if config.keyring == "" then r else api.set_config_option "keyring" config.keyring r

  -- A connection that is given up, and here shut down, is not kept.
  abbrev opened : CephConfig → Outcome × R → Result (CephBackend R)
  opened config (ok _, r) = ok (record { volumes = []; cluster = r; readings = 0; issued = 0 })
  opened config (err e, r) = err (wrap "open IO context" e)

  abbrev connected : CephConfig → Outcome × R → Result (CephBackend R)
  connected config (ok _, r) = opened config (api.open_io_context config.pool r)
  connected config (err e, r) = err (wrap "rados connect" e)

  abbrev with_conn : CephConfig → Result R → Result (CephBackend R)
  with_conn config (ok r) = connected config (
      api.connect
        (with_keyring config (configured config (api.read_config_file "/etc/ceph/ceph.conf" r))))
  with_conn config (err e) = err (wrap "rados.NewConn" e)

  unfoldable pub new : CephConfig → Result (CephBackend R)
  unfolding set_monitors
  new config = with_conn config api.new_conn

  -- `if err != nil { return fmt.Errorf("text: %w", err) }`, and the rest.
  abbrev pub step : String → Outcome × R → (R → Outcome × R) → Outcome × R
  step text (ok _, r) rest = rest r
  step text (err e, r) rest = (err (wrap text e), r)

  unfoldable pub remove : String → R → Outcome × R
  remove name r = step "rbd.OpenImage" (api.open_image name r) λ r.
      step "rbd close" (api.close_image name r)
        λ r. step "rbd.RemoveImage" (api.remove_image name r) λ r. (ok tt, r)

module _ {R : Type 0} (api : Cluster R) (clock : ℕ → ℕ) (uuids : ℕ → String) where
  abbrev pub created : String → ℤ → CephBackend R → Volume
  created name size_mb c = record {
    id = uuids c.issued;
    name = name;
    size_mb = size_mb;
    state = State.available;
    backend = "ceph";
    node_id = "";
    created_at = clock c.readings;
    updated_at = clock c.readings;
  }

  abbrev pub cache_created :
      String → ℤ → CephBackend R → Outcome × R → Result (Option Volume) × CephBackend R
  cache_created name size_mb c (err e, r) = (err (wrap "rbd.Create" e), record c { cluster = r })
  cache_created name size_mb c (ok _, r) = (
    ok (some (created name size_mb c)),
    record {
      volumes = insert name (created name size_mb c) c.volumes;
      cluster = r;
      readings = suc c.readings;
      issued = suc c.issued;
    },
  )

  abbrev pub create_at :
      Option Volume → String → ℤ → CephBackend R → Result (Option Volume) × CephBackend R
  create_at (some _) name size_mb c = (err (detail (external "ceph: already exists") name), c)
  create_at none name size_mb c =
      cache_created name size_mb c (api.create name (size_bytes size_mb) c.cluster)

  unfoldable pub create_volume : String → ℤ → CephBackend R → Result (Option Volume) × CephBackend R
  create_volume name size_mb c = create_at (lookup name c.volumes) name size_mb c

  abbrev pub uncached : String → CephBackend R → Outcome × R → Outcome × CephBackend R
  uncached name c (err e, r) = (err e, record c { cluster = r })
  uncached name c (ok _, r) = (ok tt, record c { volumes = erase name c.volumes; cluster = r })

  abbrev pub delete_at : Option Volume → String → CephBackend R → Outcome × CephBackend R
  delete_at none name c = (err (err_not_found name), c)
  delete_at (some _) name c = uncached name c (remove api name c.cluster)

  unfoldable pub delete_volume : String → CephBackend R → Outcome × CephBackend R
  delete_volume name c = delete_at (lookup name c.volumes) name c

  unfoldable pub list_volumes : CephBackend R → Result (List Volume) × CephBackend R
  list_volumes c = (ok (values c.volumes), c)

  abbrev pub get_at : Option Volume → String → Result (Option Volume)
  get_at none name = err (err_not_found name)
  get_at (some v) name = ok (some v)

  unfoldable pub get_volume : String → CephBackend R → Result (Option Volume) × CephBackend R
  get_volume name c = (get_at (lookup name c.volumes) name, c)

  abbrev pub assign_at :
      Option Volume → String → String → State → CephBackend R → Outcome × CephBackend R
  assign_at none name node_id state c = (err (err_not_found name), c)
  assign_at (some v) name node_id state c = (
    ok tt,
    record c {
      volumes =
          insert name (record v { node_id = node_id; state = state; updated_at = clock c.readings })
            c.volumes;
      readings = suc c.readings;
    },
  )

  unfoldable pub attach_volume : String → String → CephBackend R → Outcome × CephBackend R
  attach_volume name node_id c = assign_at (lookup name c.volumes) name node_id State.attached c

  unfoldable pub detach_volume : String → CephBackend R → Outcome × CephBackend R
  detach_volume name c = assign_at (lookup name c.volumes) name "" State.available c

  abbrev checked : Outcome → Outcome
  checked (ok _) = ok tt
  checked (err e) = err (wrap "ceph health check" e)

  unfoldable pub health_check : CephBackend R → Outcome × CephBackend R
  health_check c = let (o, r) = api.cluster_stats c.cluster in (checked o, record c { cluster = r })

  abbrev pub ceph : VolumeBackend (CephBackend R)
  ceph = record {
    create_volume = create_volume;
    delete_volume = delete_volume;
    list_volumes = list_volumes;
    get_volume = get_volume;
    attach_volume = attach_volume;
    detach_volume = detach_volume;
    health_check = health_check;
    backend_name = "ceph";
    close = λ c. (ok tt, record c { cluster = api.destroy c.cluster });
  }
