-- ===== src/Feature/Imports.antt =====
-- The volumes of the backend that the startup takes over into the repository in memory.
use block_storage_api.Prelude.{
  String, ◌≡◌, refl, sym, inl, inr, Option, none, some, List, [], ◌∷◌, ◌==◌, eq_iff, subst,
  Bool-cases,
}
use block_storage_api.Prelude.Dict.{Dict, lookup}
use block_storage_api.Errors.{Result, ok, err}
use block_storage_api.Storage.{Volume}
use block_storage_api.Repository.InMemory.{InMemoryRepository, load_volume, save_volume}
use block_storage_api.Application.World.{World, ◌>>=◌, on_backend}
use block_storage_api.Application.Local.{Setting, local}
use block_storage_api.Feature.{ReconcilePolicy, import_unknown, import_volume, for_each, import_all}
use block_storage_api.Feature.Effects.{IsKeyed, Settled, Settles, insert-Settles}

-- The rows that the startup leaves: none of a known name is in progress or failed.
pub record AreSettled (known : String → Type 0) (m : Dict Volume) : Type 0 where
  pub keyed : IsKeyed m
  pub at : (n : String) → known n → Settled (lookup n m)

Settles-AreSettled :
    {known : String → Type 0} (name : String) (m m' : Dict Volume)
    → Settles name m m'
    → AreSettled known m
    → AreSettled known m'
Settles-AreSettled name m m' h a = record {
  keyed = h.touches.keyed a.keyed;
  at = λ n q. elim (Bool-cases (name == n)) [
    | inl e ↦ subst (λ j. Settled (lookup j m')) ((eq_iff name n).0 e) h.settled
    | inr e ↦ subst Settled (sym (h.touches.others n e)) (a.at n q)
  ];
}

module _ {B M : Type 0} (s : Setting B M) (known : String → Type 0) where
  import_unknown-AreSettled :
      (bv : Volume) (o : Option Volume) (w : World InMemoryRepository B)
      → lookup bv.name w.db.volumes ≡ o
      → AreSettled known w.db.volumes
      → AreSettled known (import_unknown (local s) bv (ok o) w).1.db.volumes
  unfolding import_unknown ◌>>=◌ save_volume
  import_unknown-AreSettled bv (some v) w h a = a
  import_unknown-AreSettled bv none w h a = rw h (
      Settles-AreSettled bv.name w.db.volumes _ (insert-Settles bv.name _ w.db.volumes refl refl) a)

  import-AreSettled :
      (bv : Volume) (w : World InMemoryRepository B)
      → AreSettled known w.db.volumes
      → AreSettled known (import_volume (local s) bv w).1.db.volumes
  unfolding import_volume ◌>>=◌ load_volume
  import-AreSettled bv w h = import_unknown-AreSettled bv (lookup bv.name w.db.volumes) w refl h

  imports-AreSettled :
      (bs : List Volume) (w : World InMemoryRepository B)
      → AreSettled known w.db.volumes
      → AreSettled known (for_each (local s) (import_volume (local s)) bs w).1.db.volumes
  unfolding for_each ◌>>=◌
  imports-AreSettled [] w h = h
  imports-AreSettled (b ∷ bs) w h = imports-AreSettled bs _ (import-AreSettled b w h)

  pub import_all-AreSettled :
      (policy : ReconcilePolicy) (w : World InMemoryRepository B)
      → AreSettled known w.db.volumes
      → AreSettled known (import_all (local s) policy w).1.db.volumes
  unfolding import_all ◌>>=◌
  import_all-AreSettled policy w h = elim (Bool-cases (policy.ceph_only == "import")) [
    | inl e ↦ rw e (listing (s.backend.list_volumes w.storage))
    | inr e ↦ rw e h
  ]
    where
      listing :
          (x : Result (List Volume) × B)
          → AreSettled known
              ((on_backend (λ _. x) >>= for_each (local s) (import_volume (local s)))
                w).1.db.volumes
      listing (ok bs, b) = imports-AreSettled bs (record w { storage = b }) h
      listing (err e, b) = h
