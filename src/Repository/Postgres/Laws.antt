-- ===== src/Repository/Postgres/Laws.antt =====
-- What the calls of the PostgreSQL repository do to the row of each name.
use block_storage_api.Prelude.{
  ℕ, String, ◌≡◌, refl, sym, ◌∙◌, ap, subst, ◌⊎◌, inl, inr, Bool, true, false, Option, none, some,
  List, [], ◌∷◌, ◌++◌, map, map-append, arith, ◌==◌, eq_iff, Bool-cases, if◌then◌else◌,
}
use block_storage_api.Errors.{Error, Result, ok, err, Failed, wrap}
use block_storage_api.Storage.{State, Volume}
use block_storage_api.Dependency.{VolumeEvent}
use block_storage_api.Dependency.Contract.{SameRow, Written}
use block_storage_api.Repository.Postgres.{
  VolumeRow, Server, PostgresRepository, row_of, volume_of, set_where, wrapped, save_volume,
  update_stamped, update_volume, loaded, load_volume, save_event,
}

-- The row of a name, as a volume.
abbrev pub volume_at : Option VolumeRow → Option Volume
volume_at none = none
volume_at (some r) = some (volume_of r)

pub wrapped-Failed :
    {A : Type 0} (text : String) (o : Result A) → Failed o → Failed (wrapped text o)
wrapped-Failed text (ok x) h = grind arith
wrapped-Failed text (err e) h = (wrap text e, refl)

not-Failed : {A : Type 0} {x : A} (o : Result A) → Failed o → ¬ (o ≡ ok x)
not-Failed (ok y) f h = grind arith
not-Failed (err e) f h = grind arith

volume_at-if :
    (b : Bool) (r : VolumeRow) (o : Option VolumeRow)
    → volume_at (if b then some r else o) ≡ (if b then some (volume_of r) else volume_at o)
volume_at-if true r o = refl
volume_at-if false r o = refl

volume_at-inv :
    (o : Option VolumeRow) (v : Volume)
    → volume_at o ≡ some v
    → (r : VolumeRow) × (o ≡ some r) × (volume_of r ≡ v)
volume_at-inv none v h = grind arith
volume_at-inv (some r) v h = (r, refl, cc)

pub volume_at-none : (o : Option VolumeRow) → volume_at o ≡ none → o ≡ none
volume_at-none none h = refl
volume_at-none (some r) h = grind arith

module _ {S : Type 0} (server : Server S) (clock : ℕ → ℕ) where
  open server use {by_name, events}

  abbrev pub view : PostgresRepository S → String → Option Volume
  view r n = volume_at (by_name r.pool n)

  abbrev pub trail : PostgresRepository S → List VolumeEvent
  trail r = map (λ e. e.event) (events r.pool)

  pub save_volume-Written :
      (v : Volume) (r : PostgresRepository S)
      → view r v.name ≡ none
      → Written v (view r) (view (save_volume server clock v r).1)
        ⊎ (Failed (save_volume server clock v r).0
            × (view (save_volume server clock v r).1 ≡ view r))
  unfolding save_volume
  save_volume-Written v r h = elim (server.insert_writes (row_of v) r.pool (volume_at-none _ h)) [
    | inl w ↦ inl (v.updated_at, λ j. ap volume_at (w j) ∙ volume_at-if _ _ _)
    | inr f ↦ inr (wrapped-Failed _ _ f.0, ap (λ g n. volume_at (g n)) f.1)
  ]

  -- Where the id of the row differs, the statement leaves it.
  set_where-other :
      (state : State) (node_id : String) (now : ℕ) (id : String) (o : Option VolumeRow)
      → ((q : VolumeRow) → o ≡ some q → q.id == id ≡ false)
      → set_where state node_id now id o ≡ o
  set_where-other state node_id now id none h = refl
  set_where-other state node_id now id (some q) h = rw (h q refl) refl

  set_where-same :
      (v : Volume) (now : ℕ) (q : VolumeRow)
      → SameRow (volume_of q) v
      → volume_at (set_where v.state v.node_id now v.id (some q))
        ≡ some (record v { updated_at = now })
  set_where-same v now q same =
      ground
        (arith, same.id, same.name, same.size_mb, same.backend, same.created_at, eq_iff q.id v.id)

  other_row :
      (v : Volume) (r : PostgresRepository S) (q p : VolumeRow) (j : String)
      → by_name r.pool v.name ≡ some q
      → q.id ≡ v.id
      → v.name == j ≡ false
      → by_name r.pool j ≡ some p
      → p.id == v.id ≡ false
  other_row v r q p j here id other there = elim (Bool-cases (p.id == v.id)) [
    | inl e ↦
        let name =
          server.primary_key r.pool v.name j q p here there (id ∙ sym ((eq_iff p.id v.id).0 e)) in
        ground (arith, other, (eq_iff v.name j).1 name)
    | inr e ↦ e
  ]

  -- The statement replaces the row of the volume and no other.
  replaced :
      (v : Volume) (now : ℕ) (r : PostgresRepository S) (q : VolumeRow) (j : String)
      → by_name r.pool v.name ≡ some q
      → SameRow (volume_of q) v
      → volume_at (set_where v.state v.node_id now v.id (by_name r.pool j))
        ≡ (if v.name == j then some (record v { updated_at = now }) else view r j)
  replaced v now r q j here same = elim (Bool-cases (v.name == j)) [
    | inl e ↦ rw e (rw (sym ((eq_iff v.name j).0 e), here) (set_where-same v now q same))
    | inr e ↦ rw e (
        ap volume_at (
          set_where-other v.state v.node_id now v.id (by_name r.pool j)
            λ p there. other_row v r q p j here same.id e there))
  ]

  pub save_volume-refused :
      (u v : Volume) (r : PostgresRepository S)
      → view r v.name ≡ some u
      → Failed (save_volume server clock v r).0 × (view (save_volume server clock v r).1 ≡ view r)
  unfolding save_volume
  save_volume-refused u v r h =
      let found = volume_at-inv (by_name r.pool v.name) u h in
      let f = server.insert_refuses found.0 (row_of v) r.pool found.1 in
      (wrapped-Failed _ _ f.0, ap (λ g n. volume_at (g n)) f.1)

  pub update_volume-Written :
      (u v : Volume) (r : PostgresRepository S)
      → view r v.name ≡ some u
      → SameRow u v
      → Written v (view r) (view (update_volume server clock v r).1)
        ⊎ (Failed (update_volume server clock v r).0
            × (view (update_volume server clock v r).1 ≡ view r))
  unfolding update_volume update_stamped
  update_volume-Written u v r h same =
      let found = volume_at-inv (by_name r.pool v.name) u h in
      elim (server.update_writes v.state v.node_id (clock r.readings) v.id r.pool) [
        | inl w ↦ inl (
          clock r.readings,
          λ j.
              ap volume_at (w j)
              ∙ replaced v (clock r.readings) r found.0 j found.1
                  (subst (λ x. SameRow x v) (sym found.2) same),
        )
        | inr f ↦ inr (wrapped-Failed _ _ f.0, ap (λ g n. volume_at (g n)) f.1)
      ]

  loaded-reads :
      (o : Result VolumeRow) (there : Option VolumeRow)
      → ((q : VolumeRow) → o ≡ ok q → there ≡ some q)
      → ((e : Error) → o ≡ err e → server.is_no_rows e ≡ true → there ≡ none)
      → (loaded server clock o ≡ ok (volume_at there)) ⊎ Failed (loaded server clock o)
  loaded-reads (ok q) there finds misses = inl (rw (finds q refl) refl)
  loaded-reads (err e) there finds misses = elim (Bool-cases (server.is_no_rows e)) [
    | inl h ↦ inl (rw (h, misses e refl h) refl)
    | inr h ↦ inr (wrap "load volume" e, rw h refl)
  ]

  pub load_volume-reads :
      (n : String) (r : PostgresRepository S)
      → ((load_volume server clock n r).0 ≡ ok (view r n)) ⊎ Failed (load_volume server clock n r).0
  unfolding load_volume
  load_volume-reads n r =
      loaded-reads (server.select_by_name n r.pool).0 (by_name r.pool n)
        (server.select_finds n r.pool) (server.select_misses n r.pool)

  pub save_event-appends :
      (e : VolumeEvent) (r : PostgresRepository S)
      → (trail (save_event server clock e r).1 ≡ trail r ++ e ∷ [])
        ⊎ (Failed (save_event server clock e r).0
            × (trail (save_event server clock e r).1 ≡ trail r))
  unfolding save_event
  save_event-appends e r =
      elim (server.insert_event_appends (record { event = e; created_at = clock r.readings })
        r.pool) [
          | inl w ↦ inl (ap (map (λ x. x.event)) w ∙ map-append _ (events r.pool) _)
          | inr f ↦ inr (wrapped-Failed _ _ f.0, ap (map (λ x. x.event)) f.1)
        ]
