-- ===== src/Nvmeof/Exposure.antt =====
-- An exposure and a withdrawal of one volume: the table, the file with the device path, and errors.
use block_storage_api.Prelude.{
  String, ◌≡◌, refl, sym, ◌∙◌, ap, true, false, Option, none, some, ◌⊎◌, inl, inr, arith, ◌==◌,
  eq_iff, eq_refl, if◌then◌else◌, Bool-cases,
}
use block_storage_api.Prelude.Dict.{lookup, lookup-insert, lookup-erase}
use block_storage_api.Errors.{Failed, Error, Outcome, ok, err, external, detail}
use block_storage_api.Nvmeof.{
  FileSystem, ExposedVolume, ConfigfsTarget, nqn_for, dev_path_for, exposed_volume, step,
  create_subsystem, expose_volume, unexpose_volume, failed_removal, subsystem_path, namespace_path,
  device_path_file, registered, removed,
}

module _ {S : Type 0} (fs : FileSystem S) where
  step-reads :
      (p text label : String) (x : Outcome × S) (rest : S → Outcome × S)
      → ((s : S) → (rest s).0 ≡ ok tt → fs.read (rest s).1 p ≡ some text)
      → (step label x rest).0 ≡ ok tt
      → fs.read (step label x rest).1 p ≡ some text
  step-reads p text label (ok _, s) rest k h = k s h
  step-reads p text label (err e, s) rest k h = absurd (cc)

  last_step-reads :
      (p text label : String) (x : Outcome × S)
      → (x.0 ≡ ok tt → fs.read x.1 p ≡ some text)
      → (step label x (λ s. (ok tt, s))).0 ≡ ok tt
      → fs.read (step label x (λ s. (ok tt, s))).1 p ≡ some text
  last_step-reads p text label (ok _, s) k h = k refl
  last_step-reads p text label (err e, s) k h = absurd (cc)

  -- `create_subsystem` writes the device path last.
  create_subsystem-reads :
      (nqn dev_path : String) (s : S)
      → (create_subsystem fs nqn dev_path s).0 ≡ ok tt
      → fs.read (create_subsystem fs nqn dev_path s).1 (device_path_file fs nqn) ≡ some dev_path
  unfolding create_subsystem
  create_subsystem-reads nqn dev_path s =
      let p = device_path_file fs nqn in
      let dir = subsystem_path fs nqn in
      step-reads p dev_path "nvmeof: create subsystem dir" (fs.mkdir_all dir s) _ λ s₁.
        step-reads p dev_path "nvmeof: set allow_any_host"
          (fs.write_file (fs.join dir "attr_allow_any_host") "1" s₁) _
          λ s₂.
            step-reads p dev_path "nvmeof: create namespace dir"
              (fs.mkdir_all (namespace_path fs nqn) s₂) _
              λ s₃.
                last_step-reads p dev_path "nvmeof: set device_path" (fs.write_file p dev_path s₃)
                  (fs.write_reads p dev_path s₃)

  -- What an exposure has come to.
  pub record Exposed (n backend_name : String) (t t' : ConfigfsTarget S) : Type 0 where
    pub there : lookup n t'.exposed ≡ some (exposed_volume n backend_name)
    pub others : (j : String) → n == j ≡ false → lookup j t'.exposed ≡ lookup j t.exposed
    pub device :
        fs.read t'.files (device_path_file fs (nqn_for n)) ≡ some (dev_path_for backend_name n)

  registered-Exposed :
      (n backend_name : String) (t : ConfigfsTarget S) (x : Outcome × S)
      → (x.0 ≡ ok tt
          → fs.read x.1 (device_path_file fs (nqn_for n)) ≡ some (dev_path_for backend_name n))
      → let y = registered fs n backend_name t x in
        ((y.0 ≡ ok tt) × Exposed n backend_name t y.1) ⊎ (Failed y.0 × (y.1.exposed ≡ t.exposed))
  registered-Exposed n backend_name t (ok _, s) reads = inl (
    refl,
    record {
      there = lookup-insert n n (exposed_volume n backend_name) t.exposed ∙ rw (eq_refl n) refl;
      others = λ j e. ground (arith, lookup-insert n j (exposed_volume n backend_name) t.exposed);
      device = reads refl;
    },
  )
  registered-Exposed n backend_name t (err e, s) reads = inr ((e, refl), refl)

  -- An exposure of a name that is not exposed either succeeds, and then the volume is in the table, no
  -- other entry has changed and the device path can be read from its file; or it returns an error,
  -- and then the table is as before.
  pub expose_volume_answer :
      (n backend_name : String) (t : ConfigfsTarget S)
      → lookup n t.exposed ≡ none
      → let y = expose_volume fs n backend_name t in
        ((y.0 ≡ ok tt) × Exposed n backend_name t y.1) ⊎ (Failed y.0 × (y.1.exposed ≡ t.exposed))
  unfolding expose_volume
  expose_volume_answer n backend_name t h = rw h (
      registered-Exposed n backend_name t
        (create_subsystem fs (nqn_for n) (dev_path_for backend_name n) t.files)
        (create_subsystem-reads (nqn_for n) (dev_path_for backend_name n) t.files))

  -- After a failed exposure of a name that was not exposed, a withdrawal is refused and removes nothing
  -- from the file system, whatever the exposure had created there.
  unexpose_refused :
      (n backend_name : String) (t : ConfigfsTarget S)
      → lookup n t.exposed ≡ none
      → Failed (expose_volume fs n backend_name t).0
      → let t' = (expose_volume fs n backend_name t).1 in
        unexpose_volume fs n t' ≡ (err (detail (external "nvmeof: not exposed") n), t')
  unfolding unexpose_volume
  unexpose_refused n backend_name t h f = elim (expose_volume_answer n backend_name t h) [
    | inl (good, _) ↦ absurd (bad f.0 good f.1)
    | inr (_, same) ↦ rw (ap (lookup n) same ∙ h) refl
  ]
    where
      bad :
          (e : Error)
          → (expose_volume fs n backend_name t).0 ≡ ok tt
          → (expose_volume fs n backend_name t).0 ≡ err e
          → ⊥
      bad e p q = cc

  removal-gone :
      (n q : String) (s : S) (r : Outcome)
      → (fs.remove_all n s).0 ≡ r
      → failed_removal fs r ≡ none
      → fs.is_below n q ≡ true
      → fs.read (fs.remove_all n s).1 q ≡ none
  unfolding failed_removal
  removal-gone n q s (ok _) e f b = fs.remove_removes n q s e b
  removal-gone n q s (err x) e f b = fs.remove_missing n q s x e (ground arith) b

  -- What a withdrawal that succeeds has come to.
  pub record Removed (n nqn : String) (t t' : ConfigfsTarget S) : Type 0 where
    pub table : (j : String) → lookup j t'.exposed ≡ (if n == j then none else lookup j t.exposed)
    pub gone :
        (q : String) → fs.is_below (subsystem_path fs nqn) q ≡ true → fs.read t'.files q ≡ none

  removed-Removed :
      (n nqn : String) (t : ConfigfsTarget S) (o : Option Error) (s : S)
      → (o ≡ none
          → (q : String) → fs.is_below (subsystem_path fs nqn) q ≡ true
          → fs.read s q ≡ none)
      → (removed fs n t o s).0 ≡ ok tt
      → Removed n nqn t (removed fs n t o s).1
  removed-Removed n nqn t (some e) s g h = absurd (cc)
  removed-Removed n nqn t none s g h = record {
    table = λ j. lookup-erase n j t.exposed;
    gone = g refl;
  }

  unexpose_volume-Removed :
      (n : String) (ev : ExposedVolume) (t : ConfigfsTarget S)
      → lookup n t.exposed ≡ some ev
      → (unexpose_volume fs n t).0 ≡ ok tt
      → Removed n ev.nqn t (unexpose_volume fs n t).1
  unfolding unexpose_volume
  unexpose_volume-Removed n ev t h =
      let path = subsystem_path fs ev.nqn in
      let x = fs.remove_all path t.files in
      rw h (
        removed-Removed n ev.nqn t (failed_removal fs x.0) x.1
          (λ f q. removal-gone path q t.files x.0 refl f))

  -- What an exposure and its withdrawal have come to.
  pub record Restored (n : String) (t t' : ConfigfsTarget S) : Type 0 where
    pub table : (j : String) → lookup j t'.exposed ≡ lookup j t.exposed
    pub gone :
        (q : String)
        → fs.is_below (subsystem_path fs (nqn_for n)) q ≡ true
        → fs.read t'.files q ≡ none

  -- An exposure of a name that is not exposed, and then a withdrawal, which both succeed, leave every
  -- entry of the table as it was and no file below the subsystem directory.
  pub unexpose-expose :
      (n backend_name : String) (t : ConfigfsTarget S)
      → lookup n t.exposed ≡ none
      → (expose_volume fs n backend_name t).0 ≡ ok tt
      → (unexpose_volume fs n (expose_volume fs n backend_name t).1).0 ≡ ok tt
      → Restored n t (unexpose_volume fs n (expose_volume fs n backend_name t).1).1
  unexpose-expose n backend_name t h good₁ good₂ = elim (expose_volume_answer n backend_name t h) [
    | inl (_, e) ↦
        let t₁ = (expose_volume fs n backend_name t).1 in
        let r = unexpose_volume-Removed n (exposed_volume n backend_name) t₁ e.there good₂ in
        record {
          table = λ j. elim (Bool-cases (n == j)) [
            | inl q ↦
                r.table j ∙ rw q (sym (ap (λ k. lookup k t.exposed) (sym ((eq_iff n j).0 q)) ∙ h))
            | inr q ↦ r.table j ∙ rw q (e.others j q)
          ];
          gone = r.gone;
        }
    | inr ((e, q), _) ↦ absurd (cc)
  ]
