-- ===== src/Repository/InMemory/Laws.antt =====
-- The repository in memory meets the contract of the database, and never fails but on a duplicate
-- or missing name.
use block_storage_api.Prelude.{String, ◌≡◌, refl, inl, Option, none, some, arith}
use block_storage_api.Prelude.Dict.{lookup, lookup-insert}
use block_storage_api.Errors.{Failed}
use block_storage_api.Storage.{Volume}
use block_storage_api.Dependency.Contract.{DatabaseContract, Written}
use block_storage_api.Repository.InMemory.{
  InMemoryRepository, save_volume, update_volume, load_volume, list_volumes, save_event, in_memory,
}

abbrev pub view : InMemoryRepository → String → Option Volume
view r n = lookup n r.volumes

pub save_writes :
    (v : Volume) (r : InMemoryRepository)
    → view r v.name ≡ none
    → Written v (view r) (view (save_volume v r).1)
unfolding save_volume
save_writes v r h = (v.updated_at, rw h (λ j. lookup-insert v.name j v r.volumes))

pub save_refuses :
    (u v : Volume) (r : InMemoryRepository)
    → view r v.name ≡ some u
    → Failed (save_volume v r).0 × (view (save_volume v r).1 ≡ view r)
unfolding save_volume
save_refuses u v r h = rw h ((_, refl), refl)

pub update_writes :
    (u v : Volume) (r : InMemoryRepository)
    → view r v.name ≡ some u
    → Written v (view r) (view (update_volume v r).1)
unfolding update_volume
update_writes u v r h = (v.updated_at, rw h (λ j. lookup-insert v.name j v r.volumes))

pub save_trail : (v : Volume) (r : InMemoryRepository) → (save_volume v r).1.events ≡ r.events
unfolding save_volume
save_trail v r = ground arith

pub update_trail : (v : Volume) (r : InMemoryRepository) → (update_volume v r).1.events ≡ r.events
unfolding update_volume
update_trail v r = ground arith

-- The repository in memory is a database in the sense of the contract.
unfoldable pub in_memory_contract : DatabaseContract in_memory
unfolding load_volume list_volumes save_event
in_memory_contract = record {
  view = view;
  trail = λ r. r.events;
  load_keeps = λ n r. (refl, refl);
  load_reads = λ n r. inl refl;
  save_trail = save_trail;
  save_writes = λ v r h. inl (save_writes v r h);
  save_refuses = save_refuses;
  update_trail = update_trail;
  update_writes = λ u v r h same. inl (update_writes u v r h);
  save_event_view = λ e r. refl;
  save_event_appends = λ e r. inl refl;
  list_keeps = λ r. (refl, refl);
}
