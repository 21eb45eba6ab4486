-- ===== src/Feature/Verdict.antt =====
-- What the reconciliation at startup makes of one row, by what the backend answers.
use block_storage_api.Prelude.{
  String, ◌≡◌, refl, ◌∙◌, ap, Bool, true, false, Option, none, some, List, arith, ◌==◌, eq_refl,
  if◌then◌else◌, Bool-cases, inl, inr,
}
use block_storage_api.Prelude.Dict.{lookup, erase, lookup-erase}
use block_storage_api.Errors.{Result, ok, err}
use block_storage_api.Storage.{State, Volume}
use block_storage_api.Repository.InMemory.{InMemoryRepository, load_volume, delete_volume}
use block_storage_api.Fsm.{Event}
use block_storage_api.Application.World.{World, ◌>>=◌}
use block_storage_api.Application.Local.{Setting, local, stamped, fired}
use block_storage_api.Application.Local.Methods.{lookup-insert_self}
use block_storage_api.Feature.{
  ReconcilePolicy, target_state, load_or_nil, reconcile_to_error, apply_db_only, align_row,
  by_answer, reconcile_db_volume,
}
use block_storage_api.Feature.Effects.{
  is_transitional, Way, in_progress, has_failed, at_rest, way, to_error-twice, to_error-once,
}
use block_storage_api.Feature.Rows.{realigned, realign-row}

-- The state and the node of a row.
abbrev pub status : Option Volume → Option (State × String)
status none = none
status (some v) = some (v.state, v.node_id)

abbrev is_deleting : State → Bool
is_deleting State.deleting = true
is_deleting State.deleting_failed = true
is_deleting _ = false

-- The row of a volume that the backend does not hold, by the policy.
abbrev pub db_only_verdict : String → Volume → Option (State × String)
db_only_verdict db_only v =
    if db_only == "delete"
    then none
    else if db_only == "ignore"
    then some (v.state, v.node_id)
    else some (State.error, v.node_id)

-- A backend that fails leaves the row; a volume that is being deleted and still exists is an error;
-- any other that exists becomes available, on the node that the backend names.
abbrev pub verdict : ReconcilePolicy → Volume → Result (Option Volume) → Option (State × String)
verdict policy v (err _) = some (v.state, v.node_id)
verdict policy v (ok none) = db_only_verdict policy.db_only v
verdict policy v (ok (some real)) =
    if is_deleting v.state
    then some (State.error, v.node_id)
    else some (State.available, real.node_id)

target-deleting :
    (t : State) → target_state t ≡ (if is_deleting t then State.error else State.available)
target-deleting t = ground arith

lookup-erase_self : (name : String) (m : List (String × Volume)) → lookup name (erase name m) ≡ none
lookup-erase_self name m = lookup-erase name name m ∙ rw (eq_refl name) refl

module _ {B M : Type 0} (s : Setting B M) where
  to_error-status :
      (v : Volume) (w : World InMemoryRepository B)
      → lookup v.name w.db.volumes ≡ some v
      → is_transitional v.state ≡ true
      → Way v.state
      → status (lookup v.name (reconcile_to_error (local s) v.name w).1.db.volumes)
        ≡ some (State.error, v.node_id)
  to_error-status v w h q (in_progress f e₁ e₂) =
      let v'' = stamped s (stamped s v f w) State.error (fired s v Event.error f w) in
      rw (to_error-twice s v f w h e₁ e₂) (ap status (lookup-insert_self v'' _))
  to_error-status v w h q (has_failed e₁ e₂) =
      rw (to_error-once s v w h e₁ e₂)
        (ap status (lookup-insert_self (stamped s v State.error w) w.db.volumes))
  to_error-status v w h q (at_rest e₁ e₂ r) = absurd (cc)

  db_only-status :
      (policy : ReconcilePolicy) (v : Volume) (w : World InMemoryRepository B)
      → lookup v.name w.db.volumes ≡ some v
      → is_transitional v.state ≡ true
      → status (lookup v.name (apply_db_only (local s) policy v w).1.db.volumes)
        ≡ db_only_verdict policy.db_only v
  unfolding apply_db_only ◌>>=◌ delete_volume
  db_only-status policy v w h q = elim (Bool-cases (policy.db_only == "delete")) [
    | inl e ↦ rw e (ap status (lookup-erase_self v.name w.db.volumes))
    | inr e ↦ elim (Bool-cases (policy.db_only == "ignore")) [
      | inl x ↦ rw (e, x) (ap status h)
      | inr x ↦ rw (e, x) (to_error-status v w h q (way v.state))
    ]
  ]

  align_row-status :
      (v real : Volume) (w : World InMemoryRepository B)
      → lookup v.name w.db.volumes ≡ some v
      → is_transitional v.state ≡ true
      → (b : Bool)
      → let target = if b then State.error else State.available in
        status (lookup v.name (align_row (local s) v real target w).1.db.volumes)
        ≡ (if b then some (State.error, v.node_id) else some (State.available, real.node_id))
  unfolding align_row load_or_nil ◌>>=◌ load_volume
  align_row-status v real w h q true = to_error-status v w h q (way v.state)
  align_row-status v real w h q false = rw h (
      ap (λ m. status (lookup v.name m)) (realign-row s v.state State.available real v w h)
      ∙ ap status (lookup-insert_self (realigned s State.available real v w) w.db.volumes))

  by_answer-status :
      (policy : ReconcilePolicy) (v : Volume) (r : Result (Option Volume))
      (w : World InMemoryRepository B)
      → lookup v.name w.db.volumes ≡ some v
      → is_transitional v.state ≡ true
      → status (lookup v.name (by_answer (local s) policy v r w).1.db.volumes) ≡ verdict policy v r
  unfolding by_answer ◌>>=◌
  by_answer-status policy v (err e) w h q = ap status h
  by_answer-status policy v (ok none) w h q = db_only-status policy v w h q
  by_answer-status policy v (ok (some real)) w h q =
      rw (target-deleting v.state) (align_row-status v real w h q (is_deleting v.state))

  -- The state and the node of a row that is in progress or failed, after the reconciliation at
  -- startup has treated it over the repository in memory: unchanged if the backend returns an
  -- error; if the backend holds no volume, removed, unchanged or in the error state by the policy;
  -- and if it holds one, in the error state if the row was being deleted, and else available with
  -- the node of the backend's volume, which need not be empty.
  pub reconcile_db_volume-verdict :
      (policy : ReconcilePolicy) (v : Volume) (w : World InMemoryRepository B)
      → lookup v.name w.db.volumes ≡ some v
      → is_transitional v.state ≡ true
      → status (lookup v.name (reconcile_db_volume (local s) policy v w).1.db.volumes)
        ≡ verdict policy v (s.backend.get_volume v.name w.storage).0
  unfolding reconcile_db_volume ◌>>=◌
  reconcile_db_volume-verdict policy v w h q =
      by_answer-status policy v (s.backend.get_volume v.name w.storage).0 _ h q
