-- ===== src/Feature/Effects.antt =====
-- What the steps of the reconciliation at startup do to the repository in memory: to the row of one
-- name, and to no other.
use block_storage_api.Prelude.{
  String, ◌≡◌, refl, sym, ◌∙◌, ap, inl, inr, Bool, true, false, Option, none, some, arith, ◌==◌,
  eq_iff, subst, Option-cases,
}
use block_storage_api.Prelude.Dict.{Dict, lookup, insert, lookup-insert, erase, lookup-erase}
use block_storage_api.Errors.{Result, ok}
use block_storage_api.Storage.{State, Volume}
use block_storage_api.Fsm.{Event}
use block_storage_api.Fsm.Graph.{edge, can_transition-edge}
use block_storage_api.Repository.InMemory.{InMemoryRepository, load_volume}
use block_storage_api.Application.World.{World, ◌>>=◌}
use block_storage_api.Application.Local.{Setting, local, stamped, fired, apply_event-fired}
use block_storage_api.Application.Local.Methods.{lookup-insert_self}
use block_storage_api.Feature.{
  load_or_nil, error_first, then_fail, push_to_error, reconcile_to_error,
}

-- Each row bears the name that it is stored under.
pub record IsKeyed (m : Dict Volume) : Type 0 where
  pub at : (n : String) (v : Volume) → lookup n m ≡ some v → v.name ≡ n

-- An in-progress or a failed state, which a goroutine was to move on.
abbrev pub is_transitional : State → Bool
is_transitional State.pending = false
is_transitional State.available = false
is_transitional State.attached = false
is_transitional State.deleted = false
is_transitional State.error = false
is_transitional _ = true

-- A row that no goroutine is expected to move on.
abbrev pub Settled : Option Volume → Type 0
Settled none = Unit
Settled (some v) = is_transitional v.state ≡ false

-- From `m` to `m'`, at most the row of `name` has changed.
pub record Touches (name : String) (m m' : Dict Volume) : Type 0 where
  pub keyed : IsKeyed m → IsKeyed m'
  pub others : (j : String) → (name == j) ≡ false → lookup j m' ≡ lookup j m

pub Touches-refl : (name : String) (m : Dict Volume) → Touches name m m
Touches-refl name m = record { keyed = λ k. k; others = λ j h. refl }

pub Touches-trans :
    {name : String} {m m' m'' : Dict Volume}
    → Touches name m m'
    → Touches name m' m''
    → Touches name m m''
Touches-trans h k = record {
  keyed = λ q. k.keyed (h.keyed q);
  others = λ j e. k.others j e ∙ h.others j e;
}

pub insert-Touches :
    (name : String) (v : Volume) (m : Dict Volume)
    → v.name ≡ name
    → Touches name m (insert v.name v m)
insert-Touches name v m h = record {
  keyed = λ q. record {
    at = λ n u g. ground (arith, lookup-insert v.name n v m, q.at n u, eq_iff v.name n);
  };
  others = λ j e. ground (arith, lookup-insert v.name j v m);
}

pub erase-Touches : (name : String) (m : Dict Volume) → Touches name m (erase name m)
erase-Touches name m = record {
  keyed = λ q. record { at = λ n u g. q.at n u (ground (arith, lookup-erase name n m)) };
  others = λ j e. ground (arith, lookup-erase name j m);
}

-- The two events by which a row comes to the error state, by its own state.
pub data Way (s : State) : Type 0 where
  in_progress :
      (f : State) → edge s Event.error ≡ some f → edge f Event.fail ≡ some State.error → Way s
  has_failed : edge s Event.error ≡ none → edge s Event.fail ≡ some State.error → Way s
  at_rest : edge s Event.error ≡ none → edge s Event.fail ≡ none → is_transitional s ≡ false → Way s

pub way : (s : State) → Way s
way State.pending = at_rest refl refl refl
way State.creating = in_progress State.creating_failed refl refl
way State.creating_failed = has_failed refl refl
way State.available = at_rest refl refl refl
way State.attaching = in_progress State.attaching_failed refl refl
way State.attaching_failed = has_failed refl refl
way State.attached = at_rest refl refl refl
way State.detaching = in_progress State.detaching_failed refl refl
way State.detaching_failed = has_failed refl refl
way State.deleting = in_progress State.deleting_failed refl refl
way State.deleting_failed = has_failed refl refl
way State.deleted = at_rest refl refl refl
way State.error = at_rest refl refl refl

-- What a step has come to: only the row of `name` may have changed, and it is settled.
pub record Settles (name : String) (m m' : Dict Volume) : Type 0 where
  pub touches : Touches name m m'
  pub settled : Settled (lookup name m')

pub insert-Settles :
    (name : String) (v : Volume) (m : Dict Volume)
    → v.name ≡ name
    → is_transitional v.state ≡ false
    → Settles name m (insert v.name v m)
insert-Settles name v m n h = record {
  touches = insert-Touches name v m n;
  settled = subst (λ k. Settled (lookup k (insert v.name v m))) n (rw (lookup-insert_self v m) h);
}

module _ {B M : Type 0} (s : Setting B M) where
  abbrev LocalWorld : Type 0
  LocalWorld = World InMemoryRepository B

  pub to_error-twice :
      (v : Volume) (f : State) (w : LocalWorld)
      → lookup v.name w.db.volumes ≡ some v
      → edge v.state Event.error ≡ some f
      → edge f Event.fail ≡ some State.error
      → reconcile_to_error (local s) v.name w
        ≡ (ok tt, fired s (stamped s v f w) Event.fail State.error (fired s v Event.error f w))
  unfolding reconcile_to_error push_to_error error_first then_fail load_or_nil ◌>>=◌ load_volume
  to_error-twice v f w h e₁ e₂ = ground (
    arith,
    can_transition-edge s.fsm v.state Event.error,
    apply_event-fired s v v Event.error f w e₁ h,
    lookup-insert_self (stamped s v f w) w.db.volumes,
    can_transition-edge s.fsm f Event.fail,
    apply_event-fired s (stamped s v f w) (stamped s v f w) Event.fail State.error
        (fired s v Event.error f w) e₂ (lookup-insert_self (stamped s v f w) w.db.volumes),
  )

  pub to_error-once :
      (v : Volume) (w : LocalWorld)
      → lookup v.name w.db.volumes ≡ some v
      → edge v.state Event.error ≡ none
      → edge v.state Event.fail ≡ some State.error
      → reconcile_to_error (local s) v.name w ≡ (ok tt, fired s v Event.fail State.error w)
  unfolding reconcile_to_error push_to_error error_first then_fail load_or_nil ◌>>=◌ load_volume
  to_error-once v w h e₁ e₂ = ground (
    arith,
    can_transition-edge s.fsm v.state Event.error,
    can_transition-edge s.fsm v.state Event.fail,
    apply_event-fired s v v Event.fail State.error w e₂ h,
  )

  to_error-rest :
      (v : Volume) (w : LocalWorld)
      → lookup v.name w.db.volumes ≡ some v
      → edge v.state Event.error ≡ none
      → edge v.state Event.fail ≡ none
      → reconcile_to_error (local s) v.name w ≡ (ok tt, w)
  unfolding reconcile_to_error push_to_error error_first then_fail load_or_nil ◌>>=◌ load_volume
  to_error-rest v w h e₁ e₂ = ground (
    arith,
    can_transition-edge s.fsm v.state Event.error,
    can_transition-edge s.fsm v.state Event.fail,
  )

  to_error-missing :
      (name : String) (w : LocalWorld)
      → lookup name w.db.volumes ≡ none
      → reconcile_to_error (local s) name w ≡ (ok tt, w)
  unfolding reconcile_to_error push_to_error load_or_nil ◌>>=◌ load_volume
  to_error-missing name w h = ground arith

  -- After it, the world that is given by an equation.
  ends_at :
      {name : String} {m : Dict Volume} {x : Result (Unit {0}) × LocalWorld} (w' : LocalWorld)
      → x ≡ (ok tt, w')
      → Settles name m w'.db.volumes
      → Settles name m x.1.db.volumes
  ends_at {name} {m} w' e h = subst (λ y. Settles name m y.1.db.volumes) (sym e) h

  Way-Settles :
      (v : Volume) (w : LocalWorld)
      → lookup v.name w.db.volumes ≡ some v
      → Way v.state
      → Settles v.name w.db.volumes (reconcile_to_error (local s) v.name w).1.db.volumes
  Way-Settles v w h (in_progress f e₁ e₂) =
      let v' = stamped s v f w in
      let w' = fired s v Event.error f w in
      let v'' = stamped s v' State.error w' in
      ends_at _ (to_error-twice v f w h e₁ e₂) (record {
        touches =
            Touches-trans (insert-Touches v.name v' w.db.volumes refl)
              (insert-Touches v.name v'' w'.db.volumes refl);
        settled = (insert-Settles v.name v'' w'.db.volumes refl refl).settled;
      })
  Way-Settles v w h (has_failed e₁ e₂) =
      ends_at _ (to_error-once v w h e₁ e₂)
        (insert-Settles v.name (stamped s v State.error w) w.db.volumes refl refl)
  Way-Settles v w h (at_rest e₁ e₂ q) =
      ends_at _ (to_error-rest v w h e₁ e₂)
        (record { touches = Touches-refl v.name w.db.volumes; settled = rw h q })

  pub to_error-Settles :
      (name : String) (w : LocalWorld)
      → IsKeyed w.db.volumes
      → Settles name w.db.volumes (reconcile_to_error (local s) name w).1.db.volumes
  to_error-Settles name w k = elim (Option-cases (lookup name w.db.volumes)) [
    | inl h ↦
        ends_at w (to_error-missing name w h)
          (record { touches = Touches-refl name w.db.volumes; settled = rw h tt })
    | inr (v, h) ↦
        let n = k.at name v h in
        subst (λ j. Settles j w.db.volumes (reconcile_to_error (local s) j w).1.db.volumes) n
          (Way-Settles v w (ap (λ j. lookup j w.db.volumes) n ∙ h) (way v.state))
  ]
