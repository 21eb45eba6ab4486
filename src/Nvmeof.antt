-- ===== src/Nvmeof.antt =====
-- transport/nvmeof/target.go: the volumes that are exposed over NVMe-oF, and their directories in
-- configfs. The mutex makes each method one step.
pub mod Laws
pub mod Exposure
use Prim.Native.String.{◌++◌}
use block_storage_api.Prelude.{
  String, ◌≡◌, Bool, true, false, Option, none, some, List, [], ◌∷◌, ◌==◌, if◌then◌else◌,
}
use block_storage_api.Prelude.Dict.{Dict, lookup, insert, erase, values}
use block_storage_api.Errors.{Error, Result, ok, err, Outcome, external, detail, wrap}

-- What the program relies on of `os` and `path/filepath`, a file system being of type `S`: a file that was
-- written is read back and other paths keep their content; a directory that is made changes no file;
-- and a tree that was removed, or was not there, has no file below it.
pub record FileSystem (S : Type 0) : Type 0 where
  pub mkdir_all : String → S → Outcome × S
  pub write_file : String → String → S → Outcome × S
  pub remove_all : String → S → Outcome × S
  pub is_not_exist : Error → Bool
  pub join : String → String → String
  pub is_below : String → String → Bool
  pub read : S → String → Option String
  pub write_reads :
      (p text : String) (s : S)
      → (write_file p text s).0 ≡ ok tt
      → read (write_file p text s).1 p ≡ some text
  pub write_keeps :
      (p text q : String) (s : S) → p == q ≡ false → read (write_file p text s).1 q ≡ read s q
  pub mkdir_keeps : (p q : String) (s : S) → read (mkdir_all p s).1 q ≡ read s q
  pub remove_removes :
      (p q : String) (s : S)
      → (remove_all p s).0 ≡ ok tt
      → is_below p q ≡ true
      → read (remove_all p s).1 q ≡ none
  pub remove_missing :
      (p q : String) (s : S) (e : Error)
      → (remove_all p s).0 ≡ err e
      → is_not_exist e ≡ true
      → is_below p q ≡ true
      → read (remove_all p s).1 q ≡ none

pub record ExposedVolume : Type 0 where
  pub volume_name : String
  pub nqn : String
  pub dev_path : String

-- `ConfigfsTarget`, with the file system that it writes to.
pub record ConfigfsTarget (S : Type 0) : Type 0 where
  pub exposed : Dict ExposedVolume
  pub files : S

abbrev pub configfs_base : String
configfs_base = "/sys/kernel/config/nvmet"

abbrev pub nqn_prefix : String
nqn_prefix = "nqn.2024-01.io.block-storage:"

unfoldable pub nqn_for : String → String
nqn_for volume_name = nqn_prefix ++ volume_name

unfoldable pub dev_path_for : String → String → String
dev_path_for backend_name volume_name =
    if backend_name == "ceph"
    then "/dev/rbd/rbd-demo/" ++ volume_name
    else "/dev/block/" ++ volume_name

abbrev pub exposed_volume : String → String → ExposedVolume
exposed_volume volume_name backend_name = record {
  volume_name = volume_name;
  nqn = nqn_for volume_name;
  dev_path = dev_path_for backend_name volume_name;
}

unfoldable pub new_configfs_target : {S : Type 0} → S → ConfigfsTarget S
new_configfs_target s = record { exposed = []; files = s }

-- `if err := …; err != nil { return fmt.Errorf("text: %w", err) }`, and the rest.
abbrev pub step : {S : Type 0} → String → Outcome × S → (S → Outcome × S) → Outcome × S
step text (ok _, s) rest = rest s
step text (err e, s) rest = (err (wrap text e), s)

module _ {S : Type 0} (fs : FileSystem S) where
  abbrev pub subsystem_path : String → String
  subsystem_path nqn = fs.join (fs.join configfs_base "subsystems") nqn

  abbrev pub namespace_path : String → String
  namespace_path nqn = fs.join (fs.join (subsystem_path nqn) "namespaces") "1"

  abbrev pub device_path_file : String → String
  device_path_file nqn = fs.join (namespace_path nqn) "device_path"

  unfoldable pub create_subsystem : String → String → S → Outcome × S
  create_subsystem nqn dev_path s =
      step "nvmeof: create subsystem dir" (fs.mkdir_all (subsystem_path nqn) s) λ s.
        step "nvmeof: set allow_any_host"
          (fs.write_file (fs.join (subsystem_path nqn) "attr_allow_any_host") "1" s)
          λ s. step "nvmeof: create namespace dir" (fs.mkdir_all (namespace_path nqn) s) λ s.
            step "nvmeof: set device_path" (fs.write_file (device_path_file nqn) dev_path s)
              λ s. (ok tt, s)

  abbrev pub registered :
      String → String → ConfigfsTarget S → Outcome × S → Outcome × ConfigfsTarget S
  registered volume_name backend_name t (ok _, s) = (
    ok tt,
    record {
      exposed = insert volume_name (exposed_volume volume_name backend_name) t.exposed;
      files = s;
    },
  )
  registered volume_name backend_name t (err e, s) = (err e, record t { files = s })

  abbrev expose_at :
      Option ExposedVolume → String → String → ConfigfsTarget S → Outcome × ConfigfsTarget S
  expose_at (some _) volume_name backend_name t =
      (err (detail (external "nvmeof: already exposed") volume_name), t)
  expose_at none volume_name backend_name t =
      registered volume_name backend_name t
        (create_subsystem (nqn_for volume_name) (dev_path_for backend_name volume_name) t.files)

  -- Of the backend only the name is used.
  unfoldable pub expose_volume : String → String → ConfigfsTarget S → Outcome × ConfigfsTarget S
  expose_volume volume_name backend_name t =
      expose_at (lookup volume_name t.exposed) volume_name backend_name t

  -- `err != nil && !errors.Is(err, os.ErrNotExist)`
  unfoldable pub failed_removal : Outcome → Option Error
  failed_removal (ok _) = none
  failed_removal (err e) = if fs.is_not_exist e then none else some e

  abbrev pub removed : String → ConfigfsTarget S → Option Error → S → Outcome × ConfigfsTarget S
  removed volume_name t (some e) s =
      (err (wrap "nvmeof: remove subsystem dir" e), record t { files = s })
  removed volume_name t none s =
      (ok tt, record { exposed = erase volume_name t.exposed; files = s })

  abbrev unexpose_at : Option ExposedVolume → String → ConfigfsTarget S → Outcome × ConfigfsTarget S
  unexpose_at none volume_name t = (err (detail (external "nvmeof: not exposed") volume_name), t)
  unexpose_at (some ev) volume_name t =
      let (r, s) = fs.remove_all (subsystem_path ev.nqn) t.files in
      removed volume_name t (failed_removal r) s

  unfoldable pub unexpose_volume : String → ConfigfsTarget S → Outcome × ConfigfsTarget S
  unexpose_volume volume_name t = unexpose_at (lookup volume_name t.exposed) volume_name t

  unfoldable pub list_exposed : ConfigfsTarget S → Result (List ExposedVolume) × ConfigfsTarget S
  list_exposed t = (ok (values t.exposed), t)

  -- The last error is kept.
  abbrev last_error : String → Option Error → Outcome → Outcome
  last_error volume_name none last = last
  last_error volume_name (some e) last = err (wrap "nvmeof: cleanup" e)

  -- The loop over the entries; each is removed from the table, whether its directory could be or not.
  unfoldable pub close_entries :
      List (String × ExposedVolume) → Outcome → ConfigfsTarget S → Outcome × ConfigfsTarget S
  close_entries [] last t = (last, t)
  close_entries ((volume_name, ev) ∷ es) last t =
      let (r, s) = fs.remove_all (subsystem_path ev.nqn) t.files in
      close_entries es (last_error volume_name (failed_removal r) last)
        (record { exposed = erase volume_name t.exposed; files = s })

  unfoldable pub close : ConfigfsTarget S → Outcome × ConfigfsTarget S
  unfolding close_entries failed_removal
  close t = close_entries t.exposed (ok tt) t
