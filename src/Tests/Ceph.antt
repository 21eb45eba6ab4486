-- ===== src/Tests/Ceph.antt =====
-- The Ceph backend over a cluster that is a table of the sizes of its images.
use block_storage_api.Prelude.{
  ℕ, String, ◌≡◌, refl, Option, none, some, [], ◌∷◌, List, pos, arith, ◌*◌, eq_refl,
}
use block_storage_api.Prelude.Dict.{Dict, lookup, insert, erase, lookup-insert, lookup-erase}
use block_storage_api.Errors.{Outcome, ok, err, external}
use block_storage_api.Storage.{State}
use block_storage_api.Storage.Ceph.{Cluster, CephConfig, CephBackend, create_volume}
use block_storage_api.Storage.Ceph.Histories.{Command, create_volume-image}
use block_storage_api.Tests.Fixtures.{clock, uuids, row}

abbrev found : Option ℕ → Outcome
found none = err (external "rbd: no such image")
found (some _) = ok tt

abbrev cluster : Cluster (Dict ℕ)
cluster = record {
  new_conn = ok (("vol-07", 1024) ∷ []);
  read_config_file = λ path r. (err (external "no such file"), r);
  set_config_option = λ key value r. r;
  connect = λ r. (ok tt, r);
  open_io_context = λ pool r. (ok tt, r);
  cluster_stats = λ r. (ok tt, r);
  destroy = λ r. r;
  create = λ n size r. (ok tt, insert n size r);
  open_image = λ n r. (found (lookup n r), r);
  close_image = λ n r. (ok tt, r);
  remove_image = λ n r. (ok tt, erase n r);
  image = λ r n. lookup n r;
  create_makes = λ n size r h. ground (arith, lookup-insert n n size r, eq_refl n);
  create_others = λ n j size r h. ground (arith, lookup-insert n j size r);
  open_keeps = λ n j r. refl;
  open_missing = λ n r h. rw h (_, refl);
  close_keeps = λ n j r. refl;
  remove_others = λ n j r h. ground (arith, lookup-erase n j r);
  remove_removes = λ n r h. ground (arith, lookup-erase n n r, eq_refl n);
  stats_keep = λ j r. refl;
}

abbrev config : CephConfig
config = record { monitors = "mon-1:6789" ∷ []; pool = "rbd"; keyring = "" }

abbrev empty : CephBackend (Dict ℕ)
empty = record { volumes = []; cluster = []; readings = 0; issued = 0 }

abbrev restarted : CephBackend (Dict ℕ)
restarted = record { volumes = []; cluster = ("vol-07", 1024) ∷ []; readings = 0; issued = 0 }

-- A volume whose image was removed by another client.
abbrev gone : CephBackend (Dict ℕ)
gone = record {
  volumes = ("vol-01", row State.available "") ∷ [];
  cluster = [];
  readings = 0;
  issued = 0;
}

abbrev commands : List Command
commands =
    Command.creates "vol-01" (pos 1024)
    ∷ Command.creates "vol-02" (pos 2048)
    ∷ Command.attaches "vol-01" "node-1"
    ∷ Command.deletes "vol-01"
    ∷ []

-- No name is doubtful.
abbrev NoName : String → Type 0
NoName n = ⊥

create_volume-image_example :
    lookup "vol-01" (create_volume cluster clock uuids "vol-01" (pos 1024) empty).1.cluster
    ≡ some (1024 * 1_048_576)
unfolding create_volume lookup insert
create_volume-image_example =
    create_volume-image cluster clock uuids "vol-01" 1024 empty _ (omega arith) refl
