-- ===== src/Storage/Mock/Laws.antt =====
-- What the mock backend keeps, and what its methods do to one name and to the others.
use block_storage_api.Prelude.{
  ℕ, String, ◌≡◌, ◌≢◌, refl, ◌⊎◌, inl, inr, Option, none, some, ℤ, arith, ◌==◌, eq_iff, subst,
  Bool-cases,
}
use block_storage_api.Prelude.Dict.{Dict, lookup, insert, erase, lookup-insert, lookup-erase}
use block_storage_api.Errors.{ok, err, detail}
use block_storage_api.Storage.{State, Volume}
use block_storage_api.Storage.Mock.{
  MockBackend, create_volume, delete_volume, get_volume, attach_volume, detach_volume,
  err_volume_not_found, attach_at, detach_at,
}

-- A stored volume bears its own name and is available or attached, and an available one is on no node.
pub record IsWell (n : String) (v : Volume) : Type 0 where
  pub named : v.name ≡ n
  pub state : (v.state ≡ State.available) ⊎ (v.state ≡ State.attached)
  pub free : v.state ≡ State.available → v.node_id ≡ ""

pub record IsValid (volumes : Dict Volume) : Type 0 where
  pub at : (n : String) (v : Volume) → lookup n volumes ≡ some v → IsWell n v

insert-IsValid :
    (k : String) (v : Volume) (m : Dict Volume) → IsWell k v → IsValid m → IsValid (insert k v m)
insert-IsValid k v m w h = record {
  at = λ n x q. elim (Bool-cases (k == n)) [
    | inl e ↦
        let same : v ≡ x = ground (arith, lookup-insert k n v m) in
        subst (IsWell n) same (subst (λ j. IsWell j v) ((eq_iff k n).0 e) w)
    | inr e ↦ h.at n x (ground (arith, lookup-insert k n v m))
  ];
}

erase-IsValid : (k : String) (m : Dict Volume) → IsValid m → IsValid (erase k m)
erase-IsValid k m h = record { at = λ n x q. h.at n x (ground (arith, lookup-erase k n m)) }

created-IsWell :
    (name id : String) (size_mb : ℤ) (now : ℕ)
    → IsWell name (record {
      id = id;
      name = name;
      size_mb = size_mb;
      state = State.available;
      backend = "mock";
      node_id = "";
      created_at = now;
      updated_at = now;
    })
created-IsWell name id size_mb now = record { named = refl; state = inl refl; free = λ _. refl }

attached-IsWell :
    (n node_id : String) (v : Volume) (now : ℕ)
    → v.name ≡ n
    → IsWell n (record v { node_id = node_id; state = State.attached; updated_at = now })
attached-IsWell n node_id v now h = record { named = h; state = inr refl; free = λ q. absurd (cc) }

detached-IsWell :
    (n : String) (v : Volume) (now : ℕ)
    → v.name ≡ n
    → IsWell n (record v { node_id = ""; state = State.available; updated_at = now })
detached-IsWell n v now h = record { named = h; state = inl refl; free = λ _. refl }

module _ (clock : ℕ → ℕ) (uuids : ℕ → String) where
  pub create_volume-IsValid :
      (name : String) (size_mb : ℤ) (m : MockBackend)
      → IsValid m.volumes
      → IsValid (create_volume clock uuids name size_mb m).1.volumes
  unfolding create_volume
  create_volume-IsValid name size_mb m h = ground (
    arith,
    insert-IsValid name _ m.volumes
        (created-IsWell name (uuids m.issued) size_mb (clock m.readings)) h,
  )

  pub delete_volume-IsValid :
      (name : String) (m : MockBackend)
      → IsValid m.volumes
      → IsValid (delete_volume clock uuids name m).1.volumes
  unfolding delete_volume
  delete_volume-IsValid name m h = ground (arith, erase-IsValid name m.volumes h)

  attach_at-IsValid :
      (o : Option Volume) (name node_id : String) (m : MockBackend)
      → lookup name m.volumes ≡ o
      → IsValid m.volumes
      → IsValid (attach_at clock uuids o name node_id m).1.volumes
  attach_at-IsValid none name node_id m q h = h
  attach_at-IsValid (some v) name node_id m q h = ground (
    arith,
    insert-IsValid name _ m.volumes
        (attached-IsWell name node_id v (clock m.readings) (h.at name v q).named) h,
  )

  pub attach_volume-IsValid :
      (name node_id : String) (m : MockBackend)
      → IsValid m.volumes
      → IsValid (attach_volume clock uuids name node_id m).1.volumes
  unfolding attach_volume
  attach_volume-IsValid name node_id m h =
      attach_at-IsValid (lookup name m.volumes) name node_id m refl h

  detach_at-IsValid :
      (o : Option Volume) (name : String) (m : MockBackend)
      → lookup name m.volumes ≡ o
      → IsValid m.volumes
      → IsValid (detach_at clock uuids o name m).1.volumes
  detach_at-IsValid none name m q h = h
  detach_at-IsValid (some v) name m q h = ground (
    arith,
    insert-IsValid name _ m.volumes
        (detached-IsWell name v (clock m.readings) (h.at name v q).named) h,
  )

  pub detach_volume-IsValid :
      (name : String) (m : MockBackend)
      → IsValid m.volumes
      → IsValid (detach_volume clock uuids name m).1.volumes
  unfolding detach_volume
  detach_volume-IsValid name m h = detach_at-IsValid (lookup name m.volumes) name m refl h

  -- A pointer that `GetVolume` returns without an error is never nil.
  pub get_volume-never-nil :
      (name : String) (m : MockBackend) → (get_volume clock uuids name m).0 ≢ ok none
  unfolding get_volume
  get_volume-never-nil name m = λ q. ground arith

  pub get_volume-absent :
      (name : String) (m : MockBackend)
      → lookup name m.volumes ≡ none
      → get_volume clock uuids name m ≡ (err (detail err_volume_not_found name), m)
  unfolding get_volume
  get_volume-absent name m h = rw h refl
