-- ===== src/Application/Race.antt =====
-- volume/application.go: two requests whose calls of the database interleave. `DeleteVolume` and
-- `DetachVolume` load the row and later write it; nothing holds the row in between.
use block_storage_api.Prelude.{
  String, ◌≡◌, refl, ◌∙◌, Bool, true, false, not, none, some, List, [], ◌∷◌, arith,
}
use block_storage_api.Prelude.Dict.{lookup}
use block_storage_api.Errors.{Result, Outcome, ok, err, detail, sentinel, invalid_transition}
use block_storage_api.Storage.{State, Volume}
use block_storage_api.Fsm.{Event}
use block_storage_api.Fsm.Graph.{edge}
use block_storage_api.Repository.InMemory.{InMemoryRepository}
use block_storage_api.Application.World.{Application, World, Action, Operation, ◌>>=◌, spawn}
use block_storage_api.Application.Operations.{
  load_or_not_found, apply_event, task_of, delete_volume, detach_volume,
}
use block_storage_api.Application.Local.{
  Setting, local, stamped, fired, apply_event-fired, apply_event-refused,
}
use block_storage_api.Application.Local.Methods.{
  spawned, load_or_not_found-some, lookup-insert_self,
}

-- The methods that load once and write once.
pub data Method : Type 0 where
  deletes detaches : Method

abbrev pub event_of : Method → Event
event_of deletes = Event.delete
event_of detaches = Event.detach

abbrev pub operation_of : Method → String → Operation
operation_of deletes name = Operation.delete_volume name
operation_of detaches name = Operation.detach_volume name

-- How far a request is.
pub data Phase : Type 0 where
  arrived : Phase
  loaded : Volume → Phase
  answered : Outcome → Phase

module _ {D B M : Type 0} (app : Application D B M) (m : Method) (name : String) where
  abbrev method : Action D B (Unit {0})
  method = elim m [ deletes ↦ delete_volume app name | detaches ↦ detach_volume app name ]

  -- What the method does after it has loaded the row.
  unfoldable pub serve_loaded : Volume → Action D B (Unit {0})
  serve_loaded v = do v' ← apply_event app v (event_of m); spawn (task_of (operation_of m v'.name))

  abbrev pub after_load : Result Volume × World D B → Phase × World D B
  after_load (ok v, w) = (loaded v, w)
  after_load (err e, w) = (answered (err e), w)

  abbrev pub advance : Phase → World D B → Phase × World D B
  advance arrived w = after_load (load_or_not_found app name w)
  advance (loaded v) w = let (r, w') = serve_loaded v w in (answered r, w')
  advance (answered r) w = (answered r, w)

-- Alone, a request in two steps is the method.
advance_alone :
    {D B M : Type 0} (app : Application D B M) (m : Method) (name : String) (w : World D B)
    → let first = advance app m name arrived w in
      let whole = method app m name w in
      advance app m name first.0 first.1 ≡ (answered whole.0, whole.1)
unfolding delete_volume detach_volume serve_loaded ◌>>=◌
advance_alone app deletes name w = ground arith
advance_alone app detaches name w = ground arith

-- Two requests with the same method and name.
pub record Race (D B : Type 0) : Type 0 where
  pub first : Phase
  pub second : Phase
  pub world : World D B

module _ {D B M : Type 0} (app : Application D B M) (m : Method) (name : String) where
  abbrev pub moves : Bool → Race D B → Race D B
  moves true r =
      let (p, w) = advance app m name r.first r.world in record r { first = p; world = w }
  moves false r =
      let (p, w) = advance app m name r.second r.world in record r { second = p; world = w }

  -- A schedule says who moves next; `true` is the first request.
  unfoldable pub run : List Bool → Race D B → Race D B
  run [] r = r
  run (b ∷ bs) r = run bs (moves b r)

abbrev pub needs : Method → State
needs deletes = State.available
needs detaches = State.attached

abbrev pub target : Method → State
target deletes = State.deleting
target detaches = State.detaching

needs-edge :
    (m : Method) (v : Volume) → v.state ≡ needs m → edge v.state (event_of m) ≡ some (target m)
needs-edge deletes v h = rw h refl
needs-edge detaches v h = rw h refl

target-edge : (m : Method) (v : Volume) → v.state ≡ target m → edge v.state (event_of m) ≡ none
target-edge deletes v h = rw h refl
target-edge detaches v h = rw h refl

module _ {B M : Type 0} (s : Setting B M) (m : Method) where
  abbrev pub both_arrived : World InMemoryRepository B → Race InMemoryRepository B
  both_arrived w = record { first = arrived; second = arrived; world = w }

  -- The world after the method was accepted for the row that it had loaded.
  abbrev pub accepted : Volume → World InMemoryRepository B → World InMemoryRepository B
  accepted v w = spawned s (operation_of m v.name) (fired s v (event_of m) (target m) w)

  -- Over the repository in memory, a delete or a detach that has loaded the row of a volume in the
  -- state that the method needs is accepted, whatever row `u` is stored under the name by then: it
  -- writes the loaded row over it with the new state, records and publishes the event, and starts
  -- the goroutine.
  pub serve_loaded-accepted :
      (v u : Volume) (w : World InMemoryRepository B)
      → v.state ≡ needs m
      → lookup v.name w.db.volumes ≡ some u
      → serve_loaded (local s) m v.name v w ≡ (ok tt, accepted v w)
  unfolding serve_loaded ◌>>=◌
  serve_loaded-accepted v u w h there =
      ground (arith, apply_event-fired s v u (event_of m) (target m) w (needs-edge m v h) there)

  serve_loaded-refused :
      (v : Volume) (w : World InMemoryRepository B)
      → v.state ≡ target m
      → serve_loaded (local s) m v.name v w
        ≡ (err (detail (sentinel invalid_transition) "cannot"), w)
  unfolding serve_loaded ◌>>=◌
  serve_loaded-refused v w h =
      ground (arith, apply_event-refused s v (event_of m) w (target-edge m v h))

  -- One after the other: the request of the first move is answered, and then the other.
  abbrev pub in_turn :
      Bool → Outcome → Outcome → World InMemoryRepository B → Race InMemoryRepository B
  in_turn true x y w = record { first = answered x; second = answered y; world = w }
  in_turn false x y w = record { first = answered y; second = answered x; world = w }

  -- A volume that is stored, in the state that the method needs.
  module _ (v : Volume) (w : World InMemoryRepository B)
      (stored : lookup v.name w.db.volumes ≡ some v) (allowed : v.state ≡ needs m) where
    one_loads : load_or_not_found (local s) v.name w ≡ (ok v, w)
    one_loads = load_or_not_found-some s v.name v w stored

    one_serves : serve_loaded (local s) m v.name v w ≡ (ok tt, accepted v w)
    one_serves = serve_loaded-accepted v v w allowed stored

    other_loads :
        load_or_not_found (local s) v.name (accepted v w)
        ≡ (ok (stamped s v (target m) w), accepted v w)
    other_loads =
        load_or_not_found-some s v.name (stamped s v (target m) w) (accepted v w)
          (lookup-insert_self (stamped s v (target m) w) w.db.volumes)

    other_serves :
        serve_loaded (local s) m v.name v (accepted v w) ≡ (ok tt, accepted v (accepted v w))
    other_serves =
        serve_loaded-accepted v (stamped s v (target m) w) (accepted v w) allowed
          (lookup-insert_self (stamped s v (target m) w) w.db.volumes)

    other_refused :
        serve_loaded (local s) m v.name (stamped s v (target m) w) (accepted v w)
        ≡ (err (detail (sentinel invalid_transition) "cannot"), accepted v w)
    other_refused = serve_loaded-refused (stamped s v (target m) w) (accepted v w) refl

    both_load :
        (a : Bool) (bs : List Bool)
        → run (local s) m v.name (a ∷ not a ∷ bs) (both_arrived w)
          ≡ run (local s) m v.name bs (record { first = loaded v; second = loaded v; world = w })
    unfolding run
    both_load true bs = rw (one_loads, one_loads) refl
    both_load false bs = rw (one_loads, one_loads) refl

    both_serve :
        (b : Bool)
        → run
            (local s)
            m
            v.name
            (b ∷ not b ∷ [])
            (record { first = loaded v; second = loaded v; world = w })
          ≡ in_turn b (ok tt) (ok tt) (accepted v (accepted v w))
    unfolding run
    both_serve true = rw (one_serves, other_serves) refl
    both_serve false = rw (one_serves, other_serves) refl

    one_by_one :
        (a : Bool)
        → run (local s) m v.name (a ∷ a ∷ not a ∷ not a ∷ []) (both_arrived w)
          ≡ in_turn a (ok tt) (err (detail (sentinel invalid_transition) "cannot")) (accepted v w)
    unfolding run
    one_by_one true = rw (one_loads, one_serves, other_loads, other_refused) refl
    one_by_one false = rw (one_loads, one_serves, other_loads, other_refused) refl

    -- Two deletes of an available volume, or two detaches of an attached one, over the repository
    -- in memory. One after the other, in either order, the first is accepted and the second refused.
    -- But if both load the row before either writes it, in any order, both are accepted: the event
    -- is recorded and published twice, and two goroutines are started for the volume.
    pub overlapping_requests :
        (a b : Bool)
        → (run (local s) m v.name (a ∷ a ∷ not a ∷ not a ∷ []) (both_arrived w)
            ≡ in_turn a
                (ok tt)
                (err (detail (sentinel invalid_transition) "cannot"))
                (accepted v w))
          × (run (local s) m v.name (a ∷ not a ∷ b ∷ not b ∷ []) (both_arrived w)
              ≡ in_turn b (ok tt) (ok tt) (accepted v (accepted v w)))
    overlapping_requests a b = (one_by_one a, both_load a (b ∷ not b ∷ []) ∙ both_serve b)
