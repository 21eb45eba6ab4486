-- ===== src/Nvmeof/Laws.antt =====
-- What the table of exposed volumes keeps, and how it agrees with the file system.
use text.Mathlib.TextLemmas.{append_cancel_left}
use block_storage_api.Prelude.{
  String, ◌≡◌, refl, sym, ◌∙◌, none, some, List, [], ◌∷◌, ◌⊎◌, inl, inr, arith, eq_iff,
}
use block_storage_api.Prelude.Dict.{Dict, lookup, insert, erase, lookup-insert, lookup-erase}
use block_storage_api.Errors.{Outcome, ok}
use block_storage_api.Nvmeof.{
  FileSystem, ExposedVolume, ConfigfsTarget, nqn_prefix, nqn_for, exposed_volume,
  new_configfs_target, expose_volume, unexpose_volume, close_entries, close,
}

-- An exposed volume stands under its own name, with the NQN of that name.
pub record IsValid (m : Dict ExposedVolume) : Type 0 where
  pub named : (n : String) (ev : ExposedVolume) → lookup n m ≡ some ev → ev.volume_name ≡ n
  pub qualified : (n : String) (ev : ExposedVolume) → lookup n m ≡ some ev → ev.nqn ≡ nqn_for n

-- No two names share an NQN.
pub record IsInjective (m : Dict ExposedVolume) : Type 0 where
  pub name :
      (n j : String) (ev fv : ExposedVolume)
      → lookup n m ≡ some ev
      → lookup j m ≡ some fv
      → ev.nqn ≡ fv.nqn
      → n ≡ j

valid-IsInjective : (m : Dict ExposedVolume) → IsValid m → IsInjective m
unfolding nqn_for
valid-IsInjective m v = record {
  name = λ n j ev fv p q e.
      append_cancel_left nqn_prefix n j (sym (v.qualified n ev p) ∙ e ∙ v.qualified j fv q);
}

insert-IsValid :
    (n backend_name : String) (m : Dict ExposedVolume)
    → IsValid m
    → IsValid (insert n (exposed_volume n backend_name) m)
insert-IsValid n backend_name m h = record {
  named = λ j ev q.
      ground (arith, h.named j ev, lookup-insert n j (exposed_volume n backend_name) m, eq_iff n j);
  qualified = λ j ev q.
      ground
        (arith, h.qualified j ev, lookup-insert n j (exposed_volume n backend_name) m, eq_iff n j);
}

erase-IsValid : (n : String) (m : Dict ExposedVolume) → IsValid m → IsValid (erase n m)
erase-IsValid n m h = record {
  named = λ j ev q. ground (arith, h.named j ev, lookup-erase n j m);
  qualified = λ j ev q. ground (arith, h.qualified j ev, lookup-erase n j m);
}

module _ {S : Type 0} (fs : FileSystem S) where
  -- The calls of the target's methods.
  pub data Command : Type 0 where
    exposes : String → String → Command
    unexposes : String → Command
    closes : Command

  abbrev pub obey : Command → ConfigfsTarget S → ConfigfsTarget S
  obey (exposes n backend_name) t = (expose_volume fs n backend_name t).1
  obey (unexposes n) t = (unexpose_volume fs n t).1
  obey closes t = (close fs t).1

  abbrev pub run_commands : List Command → ConfigfsTarget S → ConfigfsTarget S
  run_commands [] t = t
  run_commands (x ∷ xs) t = run_commands xs (obey x t)

  expose-IsValid :
      (n backend_name : String) (t : ConfigfsTarget S)
      → IsValid t.exposed
      → IsValid (expose_volume fs n backend_name t).1.exposed
  unfolding expose_volume
  expose-IsValid n backend_name t h = ground (arith, insert-IsValid n backend_name t.exposed h)

  unexpose-IsValid :
      (n : String) (t : ConfigfsTarget S)
      → IsValid t.exposed
      → IsValid (unexpose_volume fs n t).1.exposed
  unfolding unexpose_volume
  unexpose-IsValid n t h = ground (arith, erase-IsValid n t.exposed h)

  close_entries-IsValid :
      (es : List (String × ExposedVolume)) (last : Outcome) (t : ConfigfsTarget S)
      → IsValid t.exposed
      → IsValid (close_entries fs es last t).1.exposed
  unfolding close_entries
  close_entries-IsValid [] last t h = h
  close_entries-IsValid ((n, ev) ∷ es) last t h =
      close_entries-IsValid es _ _ (erase-IsValid n t.exposed h)

  -- After the loop over `es` no name of `es` is left.
  swept :
      (j : String) (es : List (String × ExposedVolume)) (last : Outcome) (t : ConfigfsTarget S)
      → (lookup j t.exposed ≡ none) ⊎ (lookup j t.exposed ≡ lookup j es)
      → lookup j (close_entries fs es last t).1.exposed ≡ none
  unfolding close_entries lookup
  swept j [] last t (inl h) = h
  swept j [] last t (inr h) = h
  swept j ((n, ev) ∷ es) last t h = swept j es _ _ (ground (arith, lookup-erase n j t.exposed))

  obey-IsValid :
      (x : Command) (t : ConfigfsTarget S) → IsValid t.exposed → IsValid (obey x t).exposed
  unfolding close
  obey-IsValid (exposes n backend_name) t h = expose-IsValid n backend_name t h
  obey-IsValid (unexposes n) t h = unexpose-IsValid n t h
  obey-IsValid closes t h = close_entries-IsValid t.exposed (ok tt) t h

  run_from-IsValid :
      (xs : List Command) (t : ConfigfsTarget S)
      → IsValid t.exposed
      → IsValid (run_commands xs t).exposed
  run_from-IsValid [] t h = h
  run_from-IsValid (x ∷ xs) t h = run_from-IsValid xs (obey x t) (obey-IsValid x t h)

  new-IsValid : (s : S) → IsValid (new_configfs_target s).exposed
  unfolding new_configfs_target lookup
  new-IsValid s = record { named = λ n ev q. ground arith; qualified = λ n ev q. ground arith }

  -- After any sequence of exposures, withdrawals and closings of a new target, whatever fails, each
  -- exposed volume stands under its own name with the NQN of that name, and no two names share an NQN.
  pub run_commands-IsValid :
      (xs : List Command) (s : S)
      → IsValid (run_commands xs (new_configfs_target s)).exposed
        × IsInjective (run_commands xs (new_configfs_target s)).exposed
  run_commands-IsValid xs s =
      let v = run_from-IsValid xs (new_configfs_target s) (new-IsValid s) in
      (v, valid-IsInjective _ v)

  -- Closing leaves no volume exposed, also when directories cannot be removed.
  pub close-lookup : (t : ConfigfsTarget S) (n : String) → lookup n (close fs t).1.exposed ≡ none
  unfolding close
  close-lookup t n = swept n t.exposed (ok tt) t (inr refl)
