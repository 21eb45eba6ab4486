-- ===== src/Storage/Ceph/Laws.antt =====
-- How the cache of the Ceph backend agrees with the images of the cluster, and where it does not.
use block_storage_api.Prelude.{
  ℕ, ◌*◌, ◌<◌, ◌^◌, String, ◌≡◌, refl, sym, ◌∙◌, ap, false, Option, none, some, ◌⊎◌, inl, inr, ℤ,
  pos, negsuc, ◌-◌, ◌+◌, ◌%◌, arith, ◌==◌, eq_iff, Bool-cases, Option-cases, subst,
}
use block_storage_api.Prelude.Dict.{lookup, lookup-insert, lookup-erase}
use block_storage_api.Errors.{Error, Outcome, ok, err}
use block_storage_api.Storage.{State, Volume}
use block_storage_api.Storage.Ceph.{
  Cluster, CephBackend, size_bytes, create_volume, delete_volume, remove, cache_created, uncached,
  assign_at, created,
}
use block_storage_api.Storage.Ceph.Removal.{Broken, remove-others, remove-fails}

-- Below 2 ^ 44 MiB the size in bytes is exact.
pub size_bytes-exact : (n : ℕ) → n < 2 ^ 44 → size_bytes (pos n) ≡ n * 1_048_576
unfolding size_bytes
size_bytes-exact n h = omega arith

-- The bytes of so many MiB, modulo 2 ^ 64; a negative size wraps around.
abbrev pub bytes : ℤ → ℕ
bytes (pos n) = n * 1_048_576 % 2 ^ 64
bytes (negsuc n) = 2 ^ 64 - 1 - (n * 1_048_576 + 1_048_575) % 2 ^ 64

size_bytes-bytes : (size_mb : ℤ) → size_bytes size_mb ≡ bytes size_mb
unfolding size_bytes
size_bytes-bytes (pos n) = omega arith
size_bytes-bytes (negsuc n) = omega arith

-- Of an image whose name is `doubtful` nothing is said.
module _ {R : Type 0} (api : Cluster R) (clock : ℕ → ℕ) (uuids : ℕ → String)
    (doubtful : String → Type 0) where
  -- A cached volume stands under its name, is available on no node or attached, and has an image
  -- of its size, unless its name is doubtful.
  pub record IsBacked (c : CephBackend R) (n : String) (v : Volume) : Type 0 where
    pub named : v.name ≡ n
    pub state : (v.state ≡ State.available) ⊎ (v.state ≡ State.attached)
    pub free : v.state ≡ State.available → v.node_id ≡ ""
    pub image : ¬ (doubtful n) → api.image c.cluster n ≡ some (bytes v.size_mb)

  pub record IsValid (c : CephBackend R) : Type 0 where
    pub at : (n : String) (v : Volume) → lookup n c.volumes ≡ some v → IsBacked c n v

  -- `c` with the cluster in another state in which the images of the cached volumes are the same.
  pub moved :
      (c : CephBackend R) (r : R)
      → ((n : String) (v : Volume)
          → lookup n c.volumes ≡ some v
          → ¬ (doubtful n)
          → api.image r n ≡ api.image c.cluster n)
      → IsValid c
      → IsValid (record c { cluster = r })
  moved c r same h = record {
    at = λ n v q.
        let b = h.at n v q in
        record {
          named = b.named;
          state = b.state;
          free = b.free;
          image = λ d. same n v q d ∙ b.image d;
        };
  }

  cache_created-IsValid :
      (name : String) (size_mb : ℤ) (c : CephBackend R) (x : Outcome × R)
      → lookup name c.volumes ≡ none
      → (x.0 ≡ ok tt → api.image x.1 name ≡ some (size_bytes size_mb))
      → ((j : String) → name == j ≡ false → api.image x.1 j ≡ api.image c.cluster j)
      → IsValid c
      → IsValid (cache_created api clock uuids name size_mb c x).1
  cache_created-IsValid name size_mb c (err e, r) q made others h =
      moved c r (λ n v p d. others n (ground (arith, eq_iff name n))) h
  cache_created-IsValid name size_mb c (ok _, r) q made others h = record {
    at = λ n v p. elim (Bool-cases (name == n)) [
      | inl e ↦
          let same : name ≡ n = (eq_iff name n).0 e in
          let this : created api clock uuids name size_mb c ≡ v =
            ground
              (arith, lookup-insert name n (created api clock uuids name size_mb c) c.volumes) in
          subst (λ u. IsBacked (cache_created api clock uuids name size_mb c (ok tt, r)).1 n u) this
            (record {
              named = same;
              state = inl refl;
              free = λ _. refl;
              image =
                  λ d. ap (api.image r) (sym same) ∙ made refl ∙ ap some (size_bytes-bytes size_mb);
            })
      | inr e ↦
          let b = h.at n v (
            ground
              (arith, lookup-insert name n (created api clock uuids name size_mb c) c.volumes)) in
          record {
            named = b.named;
            state = b.state;
            free = b.free;
            image = λ d. others n e ∙ b.image d;
          }
    ];
  }

  pub create_volume-IsValid :
      (name : String) (size_mb : ℤ) (c : CephBackend R)
      → IsValid c
      → IsValid (create_volume api clock uuids name size_mb c).1
  unfolding create_volume
  create_volume-IsValid name size_mb c h = elim (Option-cases (lookup name c.volumes)) [
    | inl e ↦ rw e (
        cache_created-IsValid name size_mb c (api.create name (size_bytes size_mb) c.cluster) e
          (api.create_makes name (size_bytes size_mb) c.cluster)
          (λ j. api.create_others name j (size_bytes size_mb) c.cluster) h)
    | inr (v, e) ↦ rw e h
  ]

  uncached-IsValid :
      (name : String) (c : CephBackend R) (x : Outcome × R)
      → ((e : Error)
          → x.0 ≡ err e
          → ¬ (doubtful name)
          → api.image x.1 name ≡ api.image c.cluster name)
      → ((j : String) → name == j ≡ false → api.image x.1 j ≡ api.image c.cluster j)
      → IsValid c
      → IsValid (uncached api clock uuids name c x).1
  uncached-IsValid name c (err e, r) same others h =
      moved c r
        (λ n v p d. elim (Bool-cases (name == n)) [
          | inl q ↦
              subst (λ k. ¬ (doubtful k) → api.image r k ≡ api.image c.cluster k)
                ((eq_iff name n).0 q) (same e refl) d
          | inr q ↦ others n q
        ])
        h
  uncached-IsValid name c (ok _, r) same others h = record {
    at = λ n v p. elim (Bool-cases (name == n)) [
      | inl q ↦ absurd (ground (arith, lookup-erase name n c.volumes))
      | inr q ↦
          let b = h.at n v (ground (arith, lookup-erase name n c.volumes)) in
          record {
            named = b.named;
            state = b.state;
            free = b.free;
            image = λ d. others n q ∙ b.image d;
          }
    ];
  }

  assigned-IsValid :
      (name node_id : String) (state : State) (v : Volume) (c : CephBackend R)
      → lookup name c.volumes ≡ some v
      → (state ≡ State.available) ⊎ (state ≡ State.attached)
      → (state ≡ State.available → node_id ≡ "")
      → IsValid c
      → IsValid (assign_at api clock uuids (some v) name node_id state c).1
  assigned-IsValid name node_id state v c stored good free h = record {
    at = λ n u p. elim (Bool-cases (name == n)) [
      | inl e ↦
          let b = h.at name v stored in
          let v' = record v { node_id = node_id; state = state; updated_at = clock c.readings } in
          let this : v' ≡ u = ground (arith, lookup-insert name n v' c.volumes) in
          subst (λ x. IsBacked (assign_at api clock uuids (some v) name node_id state c).1 n x) this
            (subst (λ k. IsBacked (assign_at api clock uuids (some v) name node_id state c).1 k v')
              ((eq_iff name n).0 e)
              (record { named = b.named; state = good; free = free; image = b.image }))
      | inr e ↦
          let v' = record v { node_id = node_id; state = state; updated_at = clock c.readings } in
          let b = h.at n u (ground (arith, lookup-insert name n v' c.volumes)) in
          record { named = b.named; state = b.state; free = b.free; image = b.image }
    ];
  }

  pub assign_at-IsValid :
      (o : Option Volume) (name node_id : String) (state : State) (c : CephBackend R)
      → lookup name c.volumes ≡ o
      → (state ≡ State.available) ⊎ (state ≡ State.attached)
      → (state ≡ State.available → node_id ≡ "")
      → IsValid c
      → IsValid (assign_at api clock uuids o name node_id state c).1
  assign_at-IsValid none name node_id state c e good free h = h
  assign_at-IsValid (some v) name node_id state c e good free h =
      assigned-IsValid name node_id state v c e good free h

module _ {R : Type 0} (api : Cluster R) (clock : ℕ → ℕ) (uuids : ℕ → String) where
  -- A name that was doubtful, or whose removal has just broken.
  abbrev pub IsDoubtedBy : String → R → (String → Type 0) → String → Type 0
  IsDoubtedBy name r doubtful n = doubtful n ⊎ ((name ≡ n) × Broken api name r)

  IsValid-IsDoubtedBy :
      (name : String) (doubtful : String → Type 0) (c : CephBackend R)
      → IsValid api clock uuids doubtful c
      → IsValid api clock uuids (IsDoubtedBy name c.cluster doubtful) c
  IsValid-IsDoubtedBy name doubtful c h = record {
    at = λ n v q.
        let b = h.at n v q in
        record {
          named = b.named;
          state = b.state;
          free = b.free;
          image = λ d. b.image (λ x. d (inl x));
        };
  }

  pub delete_volume-IsValid :
      (name : String) (doubtful : String → Type 0) (c : CephBackend R)
      → IsValid api clock uuids doubtful c
      → IsValid api clock uuids
          (IsDoubtedBy name c.cluster doubtful)
          (delete_volume api clock uuids name c).1
  unfolding delete_volume
  delete_volume-IsValid name doubtful c h =
      let k = IsValid-IsDoubtedBy name doubtful c h in
      elim (Option-cases (lookup name c.volumes)) [
        | inl e ↦ rw e k
        | inr (v, e) ↦ rw e (
            uncached-IsValid api clock uuids (IsDoubtedBy name c.cluster doubtful) name c
              (remove api name c.cluster)
              (λ x q d. remove-fails api name c.cluster x (λ b. d (inr (refl, b))) q)
              (λ j. remove-others api name j c.cluster) k)
      ]
