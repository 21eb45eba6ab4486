-- ===== src/Storage/Ceph/Removal.antt =====
-- What a removal in the cluster does to the images, on each of its early returns.
use block_storage_api.Prelude.{ℕ, String, ◌≡◌, refl, ◌∙◌, false, Option, ◌==◌}
use block_storage_api.Errors.{Error, Outcome, ok, err}
use block_storage_api.Storage.Ceph.{Cluster, remove, step}

module _ {R : Type 0} (api : Cluster R) where
  -- The cluster after the image was opened and closed, which is where `RemoveImage` runs.
  abbrev pub closed : String → R → R
  closed name r = (api.close_image name (api.open_image name r).1).1

  -- The call of `RemoveImage` fails, so that nothing is known of the image.
  abbrev pub Broken : String → R → Type 0
  Broken name r = (e : Error) × ((api.remove_image name (closed name r)).0 ≡ err e)

  -- The images that a step and the rest of a removal leave.
  step-keeps :
      (j text : String) (x : Outcome × R) (rest : R → Outcome × R) (o : Option ℕ)
      → api.image x.1 j ≡ o
      → ((r : R) → api.image r j ≡ o → api.image (rest r).1 j ≡ o)
      → api.image (step api text x rest).1 j ≡ o
  step-keeps j text (ok _, r) rest o h k = k r h
  step-keeps j text (err e, r) rest o h k = h

  pub remove-others :
      (name j : String) (r : R)
      → name == j ≡ false
      → api.image (remove api name r).1 j ≡ api.image r j
  unfolding remove
  remove-others name j r h =
      let o = api.image r j in
      step-keeps j "rbd.OpenImage" (api.open_image name r) _ o (api.open_keeps name j r) λ r₁ p.
        step-keeps j "rbd close" (api.close_image name r₁) _ o (api.close_keeps name j r₁ ∙ p)
          λ r₂ q.
            step-keeps j "rbd.RemoveImage" (api.remove_image name r₂) _ o
              (api.remove_others name j r₂ h ∙ q) λ r₃ z. z

  last_step-fails :
      (name text : String) (x : Outcome × R) (e : Error) (o : Option ℕ)
      → ((d : Error) → x.0 ≡ err d → api.image x.1 name ≡ o)
      → (step api text x (λ r. (ok tt, r))).0 ≡ err e
      → api.image (step api text x (λ r. (ok tt, r))).1 name ≡ o
  last_step-fails name text (ok _, r) e o h k = absurd (cc)
  last_step-fails name text (err d, r) e o h k = h d refl

  step-fails :
      (name text : String) (x : Outcome × R) (rest : R → Outcome × R) (e : Error) (o : Option ℕ)
      → api.image x.1 name ≡ o
      → ((rest x.1).0 ≡ err e → api.image (rest x.1).1 name ≡ o)
      → (step api text x rest).0 ≡ err e
      → api.image (step api text x rest).1 name ≡ o
  step-fails name text (ok _, r) rest e o h k q = k q
  step-fails name text (err d, r) rest e o h k q = h

  pub remove-fails :
      (name : String) (r : R) (e : Error)
      → ¬ (Broken name r)
      → (remove api name r).0 ≡ err e
      → api.image (remove api name r).1 name ≡ api.image r name
  unfolding remove
  remove-fails name r e known =
      let o = api.image r name in
      let r₁ = (api.open_image name r).1 in
      step-fails name "rbd.OpenImage" (api.open_image name r) _ e o (api.open_keeps name name r) (
        step-fails name "rbd close" (api.close_image name r₁) _ e o
          (api.close_keeps name name r₁ ∙ api.open_keeps name name r)
          (last_step-fails name "rbd.RemoveImage" (api.remove_image name (closed name r)) e o
            λ d z. absurd (known (d, z))))
