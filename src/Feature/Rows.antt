-- ===== src/Feature/Rows.antt =====
-- What the reconciliation at startup makes of one row of the repository in memory.
use block_storage_api.Prelude.{
  String, ◌≡◌, refl, sym, ◌∙◌, ap, ◌⊎◌, inl, inr, false, Option, none, some, arith, ◌==◌, eq_refl,
  subst, Bool-cases,
}
use block_storage_api.Prelude.Dict.{Dict, lookup, insert, erase, lookup-erase}
use block_storage_api.Errors.{Error, ok, err}
use block_storage_api.Storage.{State, Volume}
use block_storage_api.Repository.InMemory.{
  InMemoryRepository, load_volume, update_volume, save_event, delete_volume,
}
use block_storage_api.Application.World.{World, ◌>>=◌}
use block_storage_api.Application.Local.{Setting, local}
use block_storage_api.Feature.{
  ReconcilePolicy, target_state, load_or_nil, apply_db_only, realign, align_row, by_answer,
  reconcile_db_volume,
}
use block_storage_api.Feature.Effects.{
  IsKeyed, is_transitional, Touches-refl, Settles, insert-Settles, erase-Touches, to_error-Settles,
}

erase-Settles : (name : String) (m : Dict Volume) → Settles name m (erase name m)
erase-Settles name m = record {
  touches = erase-Touches name m;
  settled = rw (lookup-erase name name m) (rw (eq_refl name) tt);
}

absent-Settles : (name : String) (m : Dict Volume) → lookup name m ≡ none → Settles name m m
absent-Settles name m h = record { touches = Touches-refl name m; settled = rw h tt }

pub target-cases : (t : State) → (target_state t ≡ State.available) ⊎ (target_state t ≡ State.error)
target-cases t = ground arith

module _ {B M : Type 0} (s : Setting B M) where
  abbrev LocalWorld : Type 0
  LocalWorld = World InMemoryRepository B

  db_only-Settles :
      (policy : ReconcilePolicy) (vol : Volume) (w : LocalWorld)
      → policy.db_only == "ignore" ≡ false
      → IsKeyed w.db.volumes
      → Settles vol.name w.db.volumes (apply_db_only (local s) policy vol w).1.db.volumes
  unfolding apply_db_only ◌>>=◌ delete_volume
  db_only-Settles policy vol w p k = elim (Bool-cases (policy.db_only == "delete")) [
    | inl e ↦ rw e (erase-Settles vol.name w.db.volumes)
    | inr e ↦ rw e (rw p (to_error-Settles s vol.name w k))
  ]

  abbrev pub realigned : State → Volume → Volume → LocalWorld → Volume
  realigned target real fresh w = record fresh {
    state = target;
    node_id = real.node_id;
    updated_at = s.clock w.readings;
  }

  -- The row takes the target state and the node of the backend's volume.
  pub realign-row :
      (from_state target : State) (real fresh : Volume) (w : LocalWorld)
      → lookup fresh.name w.db.volumes ≡ some fresh
      → (realign (local s) from_state target real (some fresh) w).1.db.volumes
        ≡ insert fresh.name (realigned target real fresh w) w.db.volumes
  unfolding realign ◌>>=◌ update_volume save_event
  realign-row from_state target real fresh w h = ground arith

  realign-Settles :
      (name : String) (from_state target : State) (real : Volume) (o : Option Volume)
      (w : LocalWorld)
      → is_transitional target ≡ false
      → lookup name w.db.volumes ≡ o
      → IsKeyed w.db.volumes
      → Settles name w.db.volumes (realign (local s) from_state target real o w).1.db.volumes
  unfolding ◌>>=◌ realign
  realign-Settles name from_state target real none w q h k = absent-Settles name w.db.volumes h
  realign-Settles name from_state target real (some fresh) w q h k =
      let n = k.at name fresh h in
      subst (Settles name w.db.volumes)
        (sym (realign-row from_state target real fresh w (ap (λ j. lookup j w.db.volumes) n ∙ h)))
        (insert-Settles name (realigned target real fresh w) w.db.volumes n q)

  align_row-Settles :
      (vol real : Volume) (w : LocalWorld)
      → IsKeyed w.db.volumes
      → (t : State) → (t ≡ State.available) ⊎ (t ≡ State.error)
      → Settles vol.name w.db.volumes (align_row (local s) vol real t w).1.db.volumes
  unfolding align_row load_or_nil ◌>>=◌ load_volume
  align_row-Settles vol real w k t (inl e) = rw e (
      realign-Settles vol.name vol.state State.available real (lookup vol.name w.db.volumes) w refl
        refl k)
  align_row-Settles vol real w k t (inr e) = rw e (to_error-Settles s vol.name w k)

  by_answer-Settles :
      (policy : ReconcilePolicy) (vol : Volume) (o : Option Volume) (w : LocalWorld)
      → policy.db_only == "ignore" ≡ false
      → IsKeyed w.db.volumes
      → Settles vol.name w.db.volumes (by_answer (local s) policy vol (ok o) w).1.db.volumes
  unfolding by_answer
  by_answer-Settles policy vol none w p k = db_only-Settles policy vol w p k
  by_answer-Settles policy vol (some real) w p k =
      align_row-Settles vol real w k (target_state vol.state) (target-cases vol.state)

  pub db_volume-Settles :
      (policy : ReconcilePolicy) (vol : Volume) (o : Option Volume) (w : LocalWorld)
      → (s.backend.get_volume vol.name w.storage).0 ≡ ok o
      → policy.db_only == "ignore" ≡ false
      → IsKeyed w.db.volumes
      → Settles vol.name w.db.volumes (reconcile_db_volume (local s) policy vol w).1.db.volumes
  unfolding reconcile_db_volume ◌>>=◌
  db_volume-Settles policy vol o w h p k = rw h (by_answer-Settles policy vol o _ p k)

  -- The backend fails to answer, and the row is left as it was.
  pub db_volume-leaves :
      (policy : ReconcilePolicy) (vol : Volume) (e : Error) (w : LocalWorld)
      → (s.backend.get_volume vol.name w.storage).0 ≡ err e
      → (reconcile_db_volume (local s) policy vol w).1.db.volumes ≡ w.db.volumes
  unfolding reconcile_db_volume by_answer ◌>>=◌
  db_volume-leaves policy vol e w h = rw h refl
