-- ===== src/Tests/Nvmeof.antt =====
-- The target over a file system of the files of subsystems, and over one that is full.
use Prim.Native.String.{◌++◌}
use block_storage_api.Prelude.{
  String, ◌≡◌, refl, Bool, true, false, ◌||◌, none, List, [], ◌∷◌, ◌⊎◌, ◌==◌, eq_iff, eq_refl,
  if◌then◌else◌, arith,
}
use block_storage_api.Prelude.Dict.{Dict, lookup, insert, erase, lookup-insert}
use block_storage_api.Errors.{Failed, ok, err, external}
use block_storage_api.Nvmeof.{
  FileSystem, ConfigfsTarget, new_configfs_target, create_subsystem, expose_volume, unexpose_volume,
  failed_removal, nqn_for,
}
use block_storage_api.Nvmeof.Laws.{
  IsValid, IsInjective, Command, run_commands, run_commands-IsValid,
}
use block_storage_api.Nvmeof.Exposure.{Exposed, Restored, expose_volume_answer, unexpose-expose}

-- The files of a subsystem.
abbrev is_below : String → String → Bool
is_below p q = (q == p ++ "/attr_allow_any_host") || (q == p ++ "/namespaces/1/device_path")

pub without : String → Dict String → Dict String
without p [] = []
without p ((q, text) ∷ files) =
    let rest = without p files in if is_below p q then rest else (q, text) ∷ rest

lookup-without :
    (p q : String) (files : Dict String) → is_below p q ≡ true → lookup q (without p files) ≡ none
unfolding lookup without
lookup-without p q [] h = refl
lookup-without p q ((k, text) ∷ files) h = ground (arith, lookup-without p q files h, eq_iff k q)

abbrev tree : FileSystem (Dict String)
tree = record {
  mkdir_all = λ p files. (ok tt, files);
  write_file = λ p text files. (ok tt, insert p text files);
  remove_all = λ p files. (ok tt, without p files);
  is_not_exist = λ e. false;
  join = λ p q. p ++ "/" ++ q;
  is_below = is_below;
  read = λ files p. lookup p files;
  write_reads = λ p text files h. ground (arith, lookup-insert p p text files, eq_refl p);
  write_keeps = λ p text q files h. ground (arith, lookup-insert p q text files);
  mkdir_keeps = λ p q files. refl;
  remove_removes = λ p q files h b. lookup-without p q files b;
  remove_missing = λ p q files e h m b. lookup-without p q files b;
}

-- No file can be written.
abbrev full : FileSystem (Dict String)
full = record tree {
  write_file = λ p text files. (err (external "no space left on device"), files);
  write_reads = λ p text files h. absurd (cc);
  write_keeps = λ p text q files h. refl;
}

abbrev fresh : ConfigfsTarget (Dict String)
fresh = new_configfs_target []

abbrev commands : List (Command tree)
commands =
    Command.exposes "vol-01" "ceph"
    ∷ Command.exposes "vol-02" "mock"
    ∷ Command.unexposes "vol-01"
    ∷ []

run_commands-IsValid_example :
    IsValid (run_commands tree commands fresh).exposed
    × IsInjective (run_commands tree commands fresh).exposed
run_commands-IsValid_example = run_commands-IsValid tree commands []

expose_volume_answer_example :
    let y = expose_volume tree "vol-01" "ceph" fresh in
    ((y.0 ≡ ok tt) × Exposed tree "vol-01" "ceph" fresh y.1)
    ⊎ (Failed y.0 × (y.1.exposed ≡ fresh.exposed))
unfolding new_configfs_target lookup
expose_volume_answer_example = expose_volume_answer tree "vol-01" "ceph" fresh refl

unexpose-expose_example :
    Restored tree "vol-01" fresh
      (unexpose_volume tree "vol-01" (expose_volume tree "vol-01" "ceph" fresh).1).1
unfolding new_configfs_target lookup insert erase without expose_volume unexpose_volume
    create_subsystem failed_removal nqn_for
unexpose-expose_example = unexpose-expose tree "vol-01" "ceph" fresh refl refl refl
