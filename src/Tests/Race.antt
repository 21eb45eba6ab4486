-- ===== src/Tests/Race.antt =====
-- Two deletes of one volume that overlap.
use block_storage_api.Prelude.{◌≡◌, refl, true, false, [], ◌∷◌}
use block_storage_api.Prelude.Dict.{lookup}
use block_storage_api.Errors.{ok, err, detail, sentinel, invalid_transition}
use block_storage_api.Storage.{State}
use block_storage_api.Application.Local.{local}
use block_storage_api.Application.Race.{
  Method, serve_loaded, serve_loaded-accepted, run, both_arrived, in_turn, accepted,
  overlapping_requests,
}
use block_storage_api.Tests.Fixtures.{setting, row, stored}

overlapping_requests_example :
    let v = row State.available "" in
    let w = stored State.available "" in
    let m = Method.deletes in
    (run (local setting) m v.name (true ∷ true ∷ false ∷ false ∷ []) (both_arrived setting m w)
      ≡ in_turn setting m true
          (ok tt)
          (err (detail (sentinel invalid_transition) "cannot"))
          (accepted setting m v w))
    × (run (local setting) m v.name (true ∷ false ∷ false ∷ true ∷ []) (both_arrived setting m w)
        ≡ in_turn setting m false (ok tt) (ok tt) (accepted setting m v (accepted setting m v w)))
unfolding lookup
overlapping_requests_example =
    overlapping_requests setting Method.deletes (row State.available "") (stored State.available "")
      refl refl true false

-- The volume was attached since the delete has loaded it.
serve_loaded-accepted_example :
    let v = row State.available "" in
    let w = stored State.attached "node-1" in
    serve_loaded (local setting) Method.deletes v.name v w
    ≡ (ok tt, accepted setting Method.deletes v w)
unfolding lookup
serve_loaded-accepted_example =
    serve_loaded-accepted setting Method.deletes (row State.available "")
      (row State.attached "node-1") (stored State.attached "node-1") refl refl
