-- ===== src/Feature/Storage.antt =====
-- The steps of the reconciliation at startup that leave the state of the backend as it is.
use block_storage_api.Prelude.{
  ℕ, String, ◌≡◌, refl, sym, subst, ◌∙◌, ◌⊎◌, inl, inr, Bool, true, false, Option, none, some,
  if◌then◌else◌, ◌==◌, Bool-cases,
}
use block_storage_api.Errors.{Error, Result, ok, err}
use block_storage_api.Storage.{State, Volume}
use block_storage_api.Fsm.{Event}
use block_storage_api.Broker.{EventBroker}
use block_storage_api.Application.World.{
  World, Action, Application, ◌>>=◌, pure, lift, refuse_if, map_error, catch, attempt, on_db,
  time_now, modify_broker,
}
use block_storage_api.Application.Operations.{apply_event}
use block_storage_api.Feature.{
  ReconcilePolicy, load_or_nil, error_first, then_fail, push_to_error, reconcile_to_error,
  apply_db_only, realign, align_row, by_answer, target_state, reconcile_db_volume,
}
use block_storage_api.Feature.Rows.{target-cases}

module _ {D B : Type 0} where
  abbrev Quiet : {A : Type 0} → Action D B A → Type 0
  Quiet m = (w : World D B) → (m w).1.storage ≡ w.storage

  module _ {A C : Type 0} (f : A → Action D B C) (k : (a : A) → Quiet (f a)) where
    then-Quiet :
        (r : Result A) (w : World D B)
        → let x : Result C × World D B = elim r [ ok a ↦ f a w | err e ↦ (err e, w) ] in
          x.1.storage ≡ w.storage
    then-Quiet (ok a) w = k a w
    then-Quiet (err e) w = refl

    Quiet-bind : (m : Action D B A) → Quiet m → Quiet (m >>= f)
    unfolding ◌>>=◌
    Quiet-bind m h w = then-Quiet (m w).0 (m w).1 ∙ h w

  Quiet-pure : {A : Type 0} (a : A) → Quiet (pure a)
  unfolding ◌>>=◌
  Quiet-pure a w = refl

  Quiet-lift : {A : Type 0} (r : Result A) → Quiet (lift r)
  unfolding ◌>>=◌
  Quiet-lift r w = refl

  Quiet-refuse_if : (b : Bool) (e : Error) → Quiet (refuse_if b e)
  unfolding ◌>>=◌
  Quiet-refuse_if true e w = refl
  Quiet-refuse_if false e w = refl

  Quiet-time_now : (clock : ℕ → ℕ) → Quiet (time_now clock)
  unfolding ◌>>=◌
  Quiet-time_now clock w = refl

  Quiet-modify_broker : (f : EventBroker → EventBroker) → Quiet (modify_broker f)
  unfolding ◌>>=◌
  Quiet-modify_broker f w = refl

  module _ {A : Type 0} where
    Quiet-on_db : (f : D → Result A × D) → Quiet (on_db f)
    unfolding ◌>>=◌
    Quiet-on_db f w = refl

    Quiet-map_error : (f : Error → Error) (m : Action D B A) → Quiet m → Quiet (map_error f m)
    unfolding ◌>>=◌
    Quiet-map_error f m h w = h w

    Quiet-catch : (m : Action D B A) → Quiet m → Quiet (catch m)
    unfolding ◌>>=◌
    Quiet-catch m h w = h w

    Quiet-attempt : (m : Action D B A) → Quiet m → Quiet (attempt m)
    unfolding ◌>>=◌
    Quiet-attempt m h w = h w

    Quiet-if : (b : Bool) (m n : Action D B A) → Quiet m → Quiet n → Quiet (if b then m else n)
    Quiet-if true m n h k = h
    Quiet-if false m n h k = k

module _ {D B M : Type 0} (app : Application D B M) where
  apply_event-Quiet : (v : Volume) (e : Event) → Quiet (apply_event app v e)
  unfolding apply_event
  apply_event-Quiet v e =
      Quiet-bind _
        (λ _.
          Quiet-bind _
            (λ t.
              Quiet-bind _
                (λ now.
                  Quiet-bind _
                    (λ _.
                      Quiet-bind _
                        (λ _.
                          Quiet-bind _
                            (λ stamp. Quiet-bind _ (λ _. Quiet-pure _) _ (Quiet-modify_broker _)) _
                            (Quiet-time_now _))
                        _ (Quiet-attempt _ (Quiet-on_db _)))
                    _ (Quiet-map_error _ _ (Quiet-on_db _)))
                _ (Quiet-time_now _))
            _ (Quiet-lift _))
        _ (Quiet-refuse_if _ _)

  load_or_nil-Quiet : (name : String) → Quiet (load_or_nil app name)
  unfolding load_or_nil
  load_or_nil-Quiet name = Quiet-bind _ (λ r. Quiet-pure _) _ (Quiet-catch _ (Quiet-on_db _))

  error_first-Quiet : (name : String) (v : Volume) → Quiet (error_first app name v)
  unfolding error_first
  error_first-Quiet name v =
      Quiet-if _ _ _
        (Quiet-bind _ (λ _. load_or_nil-Quiet name) _ (Quiet-attempt _ (apply_event-Quiet v _)))
        (Quiet-pure _)

  then_fail-Quiet : (o : Option Volume) → Quiet (then_fail app o)
  unfolding then_fail
  then_fail-Quiet none = Quiet-pure _
  then_fail-Quiet (some v) = Quiet-if _ _ _ (Quiet-attempt _ (apply_event-Quiet v _)) (Quiet-pure _)

  push_to_error-Quiet : (name : String) (o : Option Volume) → Quiet (push_to_error app name o)
  unfolding push_to_error
  push_to_error-Quiet name none = Quiet-pure _
  push_to_error-Quiet name (some v) =
      Quiet-bind _ (λ o. then_fail-Quiet o) _ (error_first-Quiet name v)

  reconcile_to_error-Quiet : (name : String) → Quiet (reconcile_to_error app name)
  unfolding reconcile_to_error
  reconcile_to_error-Quiet name =
      Quiet-bind _ (λ o. push_to_error-Quiet name o) _ (load_or_nil-Quiet name)

  apply_db_only-Quiet :
      (policy : ReconcilePolicy) (vol : Volume) → Quiet (apply_db_only app policy vol)
  unfolding apply_db_only ◌>>=◌
  apply_db_only-Quiet policy vol w = elim (Bool-cases (policy.db_only == "delete")) [
    | inl e ↦ rw e refl
    | inr e ↦ elim (Bool-cases (policy.db_only == "ignore")) [
      | inl q ↦ rw (e, q) refl
      | inr q ↦ rw (e, q) (reconcile_to_error-Quiet vol.name w)
    ]
  ]

  realign-Quiet : (s t : State) (real : Volume) (o : Option Volume) → Quiet (realign app s t real o)
  unfolding realign
  realign-Quiet s t real none = Quiet-pure _
  realign-Quiet s t real (some fresh) =
      Quiet-bind _
        (λ now.
          Quiet-bind _ (λ _. Quiet-attempt _ (Quiet-on_db _)) _ (Quiet-attempt _ (Quiet-on_db _)))
        _ (Quiet-time_now _)

  align_row-Quiet :
      (vol real : Volume) (t : State)
      → (t ≡ State.available) ⊎ (t ≡ State.error)
      → Quiet (align_row app vol real t)
  unfolding align_row
  align_row-Quiet vol real t (inl e) =
      subst (λ u. Quiet (align_row app vol real u)) (sym e)
        (Quiet-bind _ (λ o. realign-Quiet vol.state State.available real o) _
          (load_or_nil-Quiet vol.name))
  align_row-Quiet vol real t (inr e) =
      subst (λ u. Quiet (align_row app vol real u)) (sym e) (reconcile_to_error-Quiet vol.name)

  by_answer-Quiet :
      (policy : ReconcilePolicy) (vol : Volume) (r : Result (Option Volume))
      → Quiet (by_answer app policy vol r)
  unfolding by_answer
  by_answer-Quiet policy vol (err e) = Quiet-pure _
  by_answer-Quiet policy vol (ok none) = apply_db_only-Quiet policy vol
  by_answer-Quiet policy vol (ok (some real)) =
      align_row-Quiet vol real (target_state vol.state) (target-cases vol.state)

  -- The reconciliation of one row asks the backend once, and has no other effect on it.
  pub reconcile_db_volume-storage :
      (policy : ReconcilePolicy) (vol : Volume) (w : World D B)
      → (reconcile_db_volume app policy vol w).1.storage
        ≡ (app.backend.get_volume vol.name w.storage).1
  unfolding reconcile_db_volume ◌>>=◌
  reconcile_db_volume-storage policy vol w =
      by_answer-Quiet policy vol (app.backend.get_volume vol.name w.storage).0 _
