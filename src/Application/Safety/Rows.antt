-- ===== src/Application/Safety/Rows.antt =====
-- What may become of a row, by the events that may fire on it.
use block_storage_api.Prelude.{ℕ, refl, ◌∙◌, Option, none, some}
use block_storage_api.Storage.{State, Volume}
use block_storage_api.Fsm.{Event}
use block_storage_api.Fsm.Moves.{Moves, stay, Moves-trans}
use block_storage_api.Dependency.Contract.{SameRow}

-- What may become of the row of a name by the events that `may` fire on it: with the event `create` it can be
-- inserted in the state pending and go on from there, and once there it stays, keeps its fixed fields
-- and changes its state by those events.
abbrev pub Progress : (Event → Type 0) → Option Volume → Option Volume → Type 0
Progress may none none = Unit
Progress may none (some v) = may Event.create × Moves may State.pending v.state
Progress may (some u) none = ⊥
Progress may (some u) (some v) = SameRow u v × Moves may u.state v.state

pub SameRow-refl : (v : Volume) → SameRow v v
SameRow-refl v = record {
  id = refl;
  name = refl;
  size_mb = refl;
  backend = refl;
  created_at = refl;
}

-- A time of the database's own is no change of the fixed fields.
pub SameRow-stamp :
    {u v : Volume} (s t : ℕ)
    → SameRow u v
    → SameRow (record u { updated_at = s }) (record v { updated_at = t })
SameRow-stamp s t h = record {
  id = h.id;
  name = h.name;
  size_mb = h.size_mb;
  backend = h.backend;
  created_at = h.created_at;
}

pub Progress-stamp :
    (may : Event → Type 0) (o : Option Volume) (v : Volume) (t : ℕ)
    → Progress may o (some v)
    → Progress may o (some (record v { updated_at = t }))
Progress-stamp may none v t h = h
Progress-stamp may (some u) v t h = (SameRow-stamp u.updated_at t h.0, h.1)

pub SameRow-trans : {u v w : Volume} → SameRow u v → SameRow v w → SameRow u w
SameRow-trans s t = record {
  id = s.id ∙ t.id;
  name = s.name ∙ t.name;
  size_mb = s.size_mb ∙ t.size_mb;
  backend = s.backend ∙ t.backend;
  created_at = s.created_at ∙ t.created_at;
}

pub Progress-refl : (may : Event → Type 0) (o : Option Volume) → Progress may o o
Progress-refl may none = tt
Progress-refl may (some v) = (SameRow-refl v, stay)

pub Progress-trans :
    (may : Event → Type 0) (o p q : Option Volume)
    → Progress may o p
    → Progress may p q
    → Progress may o q
Progress-trans may none none none h k = tt
Progress-trans may none none (some w) h k = k
Progress-trans may none (some v) none h k = absurd k
Progress-trans may none (some v) (some w) h k = (h.0, Moves-trans h.1 k.1)
Progress-trans may (some u) none q h k = absurd h
Progress-trans may (some u) (some v) none h k = absurd k
Progress-trans may (some u) (some v) (some w) h k = (SameRow-trans h.0 k.0, Moves-trans h.1 k.1)
