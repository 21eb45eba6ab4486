-- ===== src/Fsm/Graph.antt =====
-- The state diagram of volume/fsm.go and of the README, and that the machine follows it.
use block_storage_api.Prelude.{
  ◌≡◌, ◌≢◌, refl, sym, ◌∙◌, ap, List, [], ◌∷◌, Bool, true, false, Option, none, some, arith, ◌↔◌,
  inl, inr, Option-cases,
}
use block_storage_api.Errors.{Error, ok, err, wrap}
use block_storage_api.Storage.{State}
use block_storage_api.Fsm.{
  Event, FsmLibrary, targets, volume_events, new_volume_fsm, can_transition, transition,
}

-- The arrows of the diagram.
pub data Edge : State → Event → State → Type 0 where
  create : Edge State.pending Event.create State.creating
  ready : Edge State.creating Event.ready State.available
  attach : Edge State.available Event.attach State.attaching
  attached : Edge State.attaching Event.attached State.attached
  detach : Edge State.attached Event.detach State.detaching
  detached : Edge State.detaching Event.detached State.available
  delete : Edge State.available Event.delete State.deleting
  deleted : Edge State.deleting Event.deleted State.deleted
  creating_error : Edge State.creating Event.error State.creating_failed
  attaching_error : Edge State.attaching Event.error State.attaching_failed
  detaching_error : Edge State.detaching Event.error State.detaching_failed
  deleting_error : Edge State.deleting Event.error State.deleting_failed
  creating_retry : Edge State.creating_failed Event.retry State.creating
  attaching_retry : Edge State.attaching_failed Event.retry State.attaching
  detaching_retry : Edge State.detaching_failed Event.retry State.detaching
  deleting_retry : Edge State.deleting_failed Event.retry State.deleting
  creating_fail : Edge State.creating_failed Event.fail State.error
  attaching_fail : Edge State.attaching_failed Event.fail State.error
  detaching_fail : Edge State.detaching_failed Event.fail State.error
  deleting_fail : Edge State.deleting_failed Event.fail State.error

-- The same arrows as a function: where an event leads, if it is allowed.
abbrev pub edge : State → Event → Option State
edge State.pending Event.create = some State.creating
edge State.creating Event.ready = some State.available
edge State.available Event.attach = some State.attaching
edge State.attaching Event.attached = some State.attached
edge State.attached Event.detach = some State.detaching
edge State.detaching Event.detached = some State.available
edge State.available Event.delete = some State.deleting
edge State.deleting Event.deleted = some State.deleted
edge State.creating Event.error = some State.creating_failed
edge State.attaching Event.error = some State.attaching_failed
edge State.detaching Event.error = some State.detaching_failed
edge State.deleting Event.error = some State.deleting_failed
edge State.creating_failed Event.retry = some State.creating
edge State.attaching_failed Event.retry = some State.attaching
edge State.detaching_failed Event.retry = some State.detaching
edge State.deleting_failed Event.retry = some State.deleting
edge State.creating_failed Event.fail = some State.error
edge State.attaching_failed Event.fail = some State.error
edge State.detaching_failed Event.fail = some State.error
edge State.deleting_failed Event.fail = some State.error
edge _ _ = none

ruleset arrows = (
  create, ready, attach, attached, detach, detached, delete, deleted, creating_error,
  attaching_error, detaching_error, deleting_error, creating_retry, attaching_retry,
  detaching_retry, deleting_retry, creating_fail, attaching_fail, detaching_fail, deleting_fail,
)

abbrev pub is_allowed : Option State → Bool
is_allowed none = false
is_allowed (some _) = true

abbrev singleton_of : Option State → List State
singleton_of none = []
singleton_of (some t) = t ∷ []

-- The table names at most one destination for each state and event.
targets-edge : (s : State) (e : Event) → targets volume_events s e ≡ singleton_of (edge s e)
unfolding targets volume_events
targets-edge State.pending Event.create = refl
targets-edge State.creating Event.create = refl
targets-edge State.creating_failed Event.create = refl
targets-edge State.available Event.create = refl
targets-edge State.attaching Event.create = refl
targets-edge State.attaching_failed Event.create = refl
targets-edge State.attached Event.create = refl
targets-edge State.detaching Event.create = refl
targets-edge State.detaching_failed Event.create = refl
targets-edge State.deleting Event.create = refl
targets-edge State.deleting_failed Event.create = refl
targets-edge State.deleted Event.create = refl
targets-edge State.error Event.create = refl
targets-edge _ _ = refl

edge-ne : (s : State) (e : Event) {t : State} → edge s e ≡ some t → s ≢ t
edge-ne State.pending Event.create h q = cc
edge-ne State.creating Event.create h q = cc
edge-ne State.creating_failed Event.create h q = cc
edge-ne State.available Event.create h q = cc
edge-ne State.attaching Event.create h q = cc
edge-ne State.attaching_failed Event.create h q = cc
edge-ne State.attached Event.create h q = cc
edge-ne State.detaching Event.create h q = cc
edge-ne State.detaching_failed Event.create h q = cc
edge-ne State.deleting Event.create h q = cc
edge-ne State.deleting_failed Event.create h q = cc
edge-ne State.deleted Event.create h q = cc
edge-ne State.error Event.create h q = cc
edge-ne _ _ h q = cc

pub Edge-edge : {s t : State} {e : Event} → Edge s e t → edge s e ≡ some t
Edge-edge create = refl
Edge-edge _ = refl

pub edge-Edge : (s : State) (e : Event) {t : State} → edge s e ≡ some t → Edge s e t
edge-Edge s e h = grind (arith, arrows)

module _ {M : Type 0} (lib : FsmLibrary M) where
  can_transition-allowed :
      (s t : State) (e : Event) → edge s e ≡ some t → can_transition lib s e ≡ true
  unfolding can_transition new_volume_fsm
  can_transition-allowed s t e h =
      lib.can_declared s t e volume_events (targets-edge s e ∙ ap singleton_of h)

  can_transition-none : (s : State) (e : Event) → edge s e ≡ none → can_transition lib s e ≡ false
  unfolding can_transition new_volume_fsm
  can_transition-none s e h =
      lib.can_undeclared s e volume_events (targets-edge s e ∙ ap singleton_of h)

  pub transition-edge : (s t : State) (e : Event) → edge s e ≡ some t → transition lib s e ≡ ok t
  unfolding transition new_volume_fsm
  transition-edge s t e h =
      let (done, there) =
        lib.event_declared s t e volume_events (targets-edge s e ∙ ap singleton_of h)
          (edge-ne s e h) in
      ground (arith, done, there)

  transition-none :
      (s : State) (e : Event) → edge s e ≡ none → (x : Error) × (transition lib s e ≡ err x)
  unfolding transition new_volume_fsm
  transition-none s e h =
      let (x, refused) =
        lib.event_undeclared s e volume_events (targets-edge s e ∙ ap singleton_of h) in
      (wrap "fsm" x, ground (arith, refused))

  -- The guard of the program is the diagram.
  pub can_transition-edge : (s : State) (e : Event) → can_transition lib s e ≡ is_allowed (edge s e)
  can_transition-edge s e = elim (Option-cases (edge s e)) [
    | inl no_arrow ↦ can_transition-none s e no_arrow ∙ sym (ap is_allowed no_arrow)
    | inr (t, arrow) ↦ can_transition-allowed s t e arrow ∙ sym (ap is_allowed arrow)
  ]

  -- For each state and event, the machine moves to `t` exactly when the diagram has the arrow.
  pub transition-Edge : (s t : State) (e : Event) → (transition lib s e ≡ ok t) ↔ Edge s e t
  transition-Edge s t e = elim (Option-cases (edge s e)) [
    | inl no_arrow ↦ (
      λ h. absurd (grind (arith, h, (transition-none s e no_arrow).1)),
      λ a. absurd (grind (arith, Edge-edge a, no_arrow)),
    )
    | inr (u, arrow) ↦ (
      λ h. edge-Edge s e (ground (arith, h, transition-edge s u e arrow)),
      λ a. transition-edge s t e (Edge-edge a),
    )
  ]

  -- The guard holds exactly when the machine would move.
  can_transition_iff :
      (s : State) (e : Event)
      → (can_transition lib s e ≡ true) ↔ ((t : State) × (transition lib s e ≡ ok t))
  can_transition_iff s e = elim (Option-cases (edge s e)) [
    | inl no_arrow ↦ (
      λ h. absurd (grind (arith, h, can_transition-none s e no_arrow)),
      λ (t, h). absurd (grind (arith, h, (transition-none s e no_arrow).1)),
    )
    | inr (t, arrow) ↦
        (λ _. (t, transition-edge s t e arrow), λ _. can_transition-allowed s t e arrow)
  ]
