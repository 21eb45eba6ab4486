-- ===== src/Application/Safety/Methods.antt =====
-- Every method of the application is safe.
pub mod Retries
use block_storage_api.Prelude.{
  ℕ, String, ◌≡◌, refl, sym, ◌∙◌, ap, inl, inr, Option, none, some, arith, Bool, true, false, ◌==◌,
  ℤ, subst, not, Option-cases,
}
use block_storage_api.Errors.{Error, Result, ok, err}
use block_storage_api.Storage.{State, State-discrete, Volume}
use block_storage_api.Fsm.{Event, transition}
use block_storage_api.Fsm.Graph.{edge, Edge-edge, transition-Edge}
use block_storage_api.Fsm.Moves.{
  Moves, stay, step, realign, IsTarget, to_pending, to_available, to_attached,
}
use block_storage_api.Dependency.{VolumeEvent, DatabaseDependency}
use block_storage_api.Dependency.Contract.{DatabaseContract, SameRow}
use block_storage_api.Application.World.{Application, Task, spawn}
use block_storage_api.Application.Operations.{
  load_or_not_found, apply_event, create_volume, delete_volume, list_volumes, get_volume,
  attach_volume, detach_volume, reconcile_volume, health_check, subscribe, unsubscribe, align,
  new_volume, is_some, is_other_state,
}
use block_storage_api.Application.Safety.{
  Safe, Safe-with, Safe-bind, Safe-pure, Safe-silent, Safe-after, Safe-refuse_if, Safe-or_raise,
  Safe-lift, Safe-map_error, Safe-check, Safe-step, Safe-before, IsSound, IsLegal, Evolves,
}
use block_storage_api.Application.Safety.Silent.{
  time_now-Safe, new_uuid-Safe, spawn-Safe, modify_broker-Safe, on_broker-Safe, on_backend-Safe,
}
use block_storage_api.Application.Safety.Rows.{SameRow-refl, SameRow-stamp}
use block_storage_api.Application.Safety.Database.{
  Current, Allowed, load-Safe, update-Safe, save-Safe, save_event-Safe, list-Safe,
}

-- A change of the state by an arrow, and of the fields that updates may change.
pub SameRow-event :
    {u v : Volume} (s : State) (now : ℕ)
    → SameRow u v
    → SameRow u (record v { state = s; updated_at = now })
SameRow-event s now h = record {
  id = h.id;
  name = h.name;
  size_mb = h.size_mb;
  backend = h.backend;
  created_at = h.created_at;
}

pub SameRow-node : (v : Volume) (node_id : String) → SameRow v (record v { node_id = node_id })
SameRow-node v node_id = ground arith

pub other_state-error : (s : State) → is_other_state s State.error ≡ false → s ≡ State.error
unfolding State-discrete
other_state-error s h = ground arith

no_volume : (o : Option Volume) → is_some o ≡ false → o ≡ none
no_volume o h = ground arith

pub SameRow-align :
    (v : Volume) (real : Option Volume) (now : ℕ)
    → SameRow v (record (align v real) { updated_at = now })
unfolding align
SameRow-align v real now = ground arith

pub align-IsTarget : (v : Volume) (real : Option Volume) → IsTarget (align v real).state
unfolding align
align-IsTarget v real = grind (arith, to_pending, to_available, to_attached)

module _ {D B M : Type 0} (app : Application D B M) where
  pub edge-transition :
      (s t : State) (e : Event) → transition app.fsm s e ≡ ok t → edge s e ≡ some t
  edge-transition s t e h = Edge-edge ((transition-Edge app.fsm s t e).0 h)

module _ {D B M : Type 0} (app : Application D B M) (c : DatabaseContract app.database)
    (may : String → Event → Type 0) where
  after-Allowed :
      (v : Volume) (e : Event) (t : State) (now : ℕ) (d : D)
      → Allowed c may v d × may v.name e
      → edge v.state e ≡ some t
      → Allowed c may (record v { state = t; updated_at = now }) d
  after-Allowed v e t now d a h = record {
    old = a.0.old;
    stored = a.0.stored;
    same = SameRow-event t now a.0.same;
    moves = step e a.1 a.0.moves h;
  }

  pub apply_event-Safe :
      (v : Volume) (e : Event)
      → Safe {B = B} c may
          (λ d. Allowed c may v d × may v.name e)
          (apply_event app v e)
          (λ v'. Current c v')
  unfolding apply_event
  apply_event-Safe v e = Safe-check _ _ _ λ _. Safe-step _ _ λ t moved.
      let arrow = edge-transition app v.state t e moved in
      Safe-bind _ _ (time_now-Safe _) λ now.
        let v' = record v { state = t; updated_at = now } in
        Safe-bind _ _
          (Safe-map_error _ _
            (Safe-before _ (λ d _ a. after-Allowed v e t now d a arrow) (update-Safe c v')))
          λ _.
            Safe-bind _ _
              (save_event-Safe c
                (λ view. (t : ℕ) × (view v.name ≡ some (record v' { updated_at = t }))) _
                (inl arrow))
              λ _.
                Safe-bind _ _ (time_now-Safe _)
                  λ _. Safe-bind _ _ (modify_broker-Safe _) λ _. Safe-pure v' (λ d h. h)

  Current-Allowed :
      (v v' : Volume) (d : D)
      → v.name ≡ v'.name
      → SameRow v v'
      → v.state ≡ v'.state
      → Current c v d
      → Allowed c may v' d
  Current-Allowed v v' d n same e h = record {
    old = record v { updated_at = h.0 };
    stored = ap (c.view d) (sym n) ∙ h.1;
    same = SameRow-stamp h.0 v'.updated_at same;
    moves = subst (λ t. Moves (may v'.name) v.state t) e stay;
  }

  pub load_or_not_found-Safe :
      (name : String)
      → Safe {B = B} c may
          (λ _. Unit)
          (load_or_not_found app name)
          (λ v d. Current c v d × (v.name ≡ name))
  unfolding load_or_not_found
  load_or_not_found-Safe name = Safe-bind _ _ (Safe-map_error _ _ (load-Safe c name)) λ o.
      Safe-after _
        (λ v d s h.
          let there = h.0 ∙ h.1 in
          let at_name = s.keyed name v there in
          ((v.updated_at, ap (c.view d) at_name ∙ there), at_name))
        (Safe-or_raise o _)

  -- The event on a volume that is stored as it is.
  pub fire :
      (v : Volume) (e : Event)
      → Safe {B = B} c may
          (λ d. Current c v d × may v.name e)
          (apply_event app v e)
          (λ v'. Current c v')
  fire v e =
      Safe-before _ (λ d _ h. (Current-Allowed v v d refl (SameRow-refl v) refl h.0, h.1))
        (apply_event-Safe v e)

  -- The event on a volume that was loaded under the name.
  named :
      (name : String) (e : Event) (v : Volume) (d : D)
      → may name e
      → Current c v d × (v.name ≡ name)
      → Current c v d × may v.name e
  named name e v d a h = (h.0, subst (λ n. may n e) (sym h.1) a)

  done : {P : D → Type 0} (t : Task) → Safe {B = B} c may P (spawn t) (λ _ _. Unit)
  done t = Safe-after _ (λ _ _ _ _. tt) (spawn-Safe t)

  pub create_volume-Safe :
      (name : String) (size_mb : ℤ)
      → may name Event.create
      → Safe {B = B} c may (λ _. Unit) (create_volume app name size_mb) (λ v. Current c v)
  unfolding create_volume
  create_volume-Safe name size_mb a = Safe-check _ _ _ λ _.
      Safe-bind _ _ (Safe-map_error _ _ (load-Safe c name)) λ o. Safe-check _ _ _ λ free.
        Safe-bind _ _ (time_now-Safe _) λ now. Safe-bind _ _ (new_uuid-Safe _) λ id.
          let v = new_volume app name size_mb now id in
          Safe-bind _ _
            (Safe-map_error _ _
              (Safe-before _ (λ d _ h. h ∙ no_volume o free) (save-Safe c v a refl)))
            λ _.
              Safe-bind _ _ (Safe-before _ (λ _ _ h. (h, a)) (fire v Event.create))
                λ v'. Safe-bind _ _ (spawn-Safe _) λ _. Safe-pure v' (λ d h. h)

  pub delete_volume-Safe :
      (name : String)
      → may name Event.delete
      → Safe {B = B} c may (λ _. Unit) (delete_volume app name) (λ _ _. Unit)
  unfolding delete_volume
  delete_volume-Safe name a = Safe-bind _ _ (load_or_not_found-Safe name) λ v.
      Safe-bind _ _ (Safe-before _ (λ d _. named name Event.delete v d a) (fire v Event.delete))
        λ v'. done _

  pub attach_volume-Safe :
      (name node_id : String)
      → may name Event.attach
      → Safe {B = B} c may (λ _. Unit) (attach_volume app name node_id) (λ _ _. Unit)
  unfolding attach_volume
  attach_volume-Safe name node_id a = Safe-bind _ _ (load_or_not_found-Safe name) λ v.
      let v₁ = record v { node_id = node_id } in
      Safe-bind _ _
        (Safe-with _ (
          Safe-map_error _ _ (
            Safe-before _ (λ d _ h. Current-Allowed v v₁ d refl (SameRow-node v node_id) refl h)
              (update-Safe c v₁))))
        λ _.
          Safe-bind _ _
            (Safe-before _ (λ d _. named name Event.attach v₁ d a) (fire v₁ Event.attach))
            λ v₂. done _

  pub detach_volume-Safe :
      (name : String)
      → may name Event.detach
      → Safe {B = B} c may (λ _. Unit) (detach_volume app name) (λ _ _. Unit)
  unfolding detach_volume
  detach_volume-Safe name a = Safe-bind _ _ (load_or_not_found-Safe name) λ v.
      Safe-bind _ _ (Safe-before _ (λ d _. named name Event.detach v d a) (fire v Event.detach))
        λ v'. done _

  realigned :
      (v v' : Volume) (d : D)
      → may v.name Event.reconcile
      → SameRow v v'
      → v.state ≡ State.error
      → IsTarget v'.state
      → Current c v d
      → Allowed c may v' d
  realigned v v' d a same e target h = record {
    old = record v { updated_at = h.0 };
    stored = ap (c.view d) (sym same.name) ∙ h.1;
    same = SameRow-stamp h.0 v'.updated_at same;
    moves = realign (subst (λ n. may n Event.reconcile) same.name a) stay e target;
  }

  pub reconcile_volume-Safe :
      (name : String)
      → may name Event.reconcile
      → Safe {B = B} c may (λ _. Unit) (reconcile_volume app name) (λ v. Current c v)
  unfolding reconcile_volume
  reconcile_volume-Safe name a = Safe-bind _ _ (load_or_not_found-Safe name) λ v.
      Safe-check _ _ _ λ failed.
        let at_error = other_state-error v.state failed in
        Safe-bind _ _ (Safe-map_error _ _ (on_backend-Safe _)) λ real.
          Safe-bind _ _ (time_now-Safe _) λ now.
            let v' = record (align v real) { updated_at = now } in
            Safe-bind _ _
              (Safe-map_error _ _ (
                Safe-before _
                  (λ d _ h.
                    let x = named name Event.reconcile v d a h in
                    realigned v v' d x.1 (SameRow-align v real now) at_error (align-IsTarget v real)
                      x.0)
                  (update-Safe c v')))
              λ _.
                Safe-bind _ _
                  (save_event-Safe c
                    (λ view. (t : ℕ) × (view v'.name ≡ some (record v' { updated_at = t }))) _
                    (inr (refl, at_error, align-IsTarget v real)))
                  λ _. Safe-pure v' (λ d h. h)

  pub get_volume-Safe :
      (name : String)
      → Safe {B = B} c may
          (λ _. Unit)
          (get_volume app name)
          (λ v d. Current c v d × (v.name ≡ name))
  unfolding get_volume
  get_volume-Safe name = load_or_not_found-Safe name

  pub list_volumes-Safe : Safe {B = B} c may (λ _. Unit) (list_volumes app) (λ _ _. Unit)
  unfolding list_volumes
  list_volumes-Safe = list-Safe c

  pub health_check-Safe : Safe {B = B} c may (λ _. Unit) (health_check app) (λ _ _. Unit)
  unfolding health_check
  health_check-Safe = on_backend-Safe _

  pub subscribe-Safe :
      (name : String) → Safe {B = B} c may (λ _. Unit) (subscribe app name) (λ _ _. Unit)
  unfolding subscribe
  subscribe-Safe name =
      Safe-bind _ _ (load_or_not_found-Safe name)
        λ v. Safe-before _ (λ _ _ _. tt) (on_broker-Safe _)

  pub unsubscribe-Safe :
      (name : String) (ch : ℕ)
      → Safe {B = B} c may (λ _. Unit) (unsubscribe app name ch) (λ _ _. Unit)
  unfolding unsubscribe
  unsubscribe-Safe name ch = modify_broker-Safe _
