-- ===== src/Http/Routes/Table.antt =====
-- The routes that are registered are the table of the API.
use block_storage_api.Prelude.{
  String, ◌≡◌, ◌≢◌, refl, sym, ◌∙◌, ap, subst, Bool, true, false, some, List, [], ◌∷◌, map, Any,
  ◌==◌, eq_iff, All, if◌then◌else◌, ◌↔◌, Option-cases, inl, inr, arith,
}
use block_storage_api.Http.Routes.{
  Verb, get, is_verb, Segment, text, name, Endpoint, healthz, swagger, Route, route, under, api_v1,
  register_routes, fits, named, matches, endpoint, Chi, Api, health, docs, create, list, load,
  attach, detach, remove, reconcile, events,
}

-- The path that a pattern stands for.
abbrev fill : List Segment → String → List String
fill [] n = []
fill (text s ∷ p) n = s ∷ fill p n
fill (name ∷ p) n = n ∷ fill p n

-- Whether a pattern has no `{name}`, or a single one.
abbrev is_plain : List Segment → Bool
is_plain [] = true
is_plain (text s ∷ p) = is_plain p
is_plain (name ∷ p) = false

abbrev is_single : List Segment → Bool
is_single [] = true
is_single (text s ∷ p) = is_single p
is_single (name ∷ p) = is_plain p

true≢false : true ≡ false → ⊥
true≢false h = absurd (cc)

both : (b : Bool) (c : Bool) → (if b then c else false) ≡ true → (b ≡ true) × (c ≡ true)
both true c h = (refl, h)
both false c h = absurd (cc)

fits-plain :
    (p : List Segment) (path : List String) (n : String)
    → is_plain p ≡ true
    → fits p false path ≡ true
    → path ≡ fill p n
fits-plain [] [] n h k = refl
fits-plain [] (x ∷ xs) n h k = absurd (cc)
fits-plain (q ∷ p) [] n h k = absurd (cc)
fits-plain (text s ∷ p) (x ∷ xs) n h k =
    let (e, rest) = both (s == x) (fits p false xs) k in
    ap (λ y. y ∷ xs) (sym ((eq_iff s x).0 e)) ∙ ap (λ ys. s ∷ ys) (fits-plain p xs n h rest)
fits-plain (name ∷ p) (x ∷ xs) n h k = absurd (cc)

fits-fill :
    (p : List Segment) (path : List String)
    → is_single p ≡ true
    → fits p false path ≡ true
    → path ≡ fill p (named p path)
fits-fill [] [] h k = refl
fits-fill [] (x ∷ xs) h k = absurd (cc)
fits-fill (q ∷ p) [] h k = absurd (cc)
fits-fill (text s ∷ p) (x ∷ xs) h k =
    let (e, rest) = both (s == x) (fits p false xs) k in
    ap (λ y. y ∷ xs) (sym ((eq_iff s x).0 e)) ∙ ap (λ ys. s ∷ ys) (fits-fill p xs h rest)
fits-fill (name ∷ p) (x ∷ xs) h k = ap (λ ys. x ∷ ys) (fits-plain p xs x h k)

verb_of : (v v' : Verb) → is_verb v v' ≡ true → v ≡ v'
verb_of v v' h = ground arith

-- A request that a route of the table fits is in the table.
land :
    (v : Verb) (path : List String) (e : Endpoint) (r : Route)
    → is_single r.pattern.segments ≡ true
    → r.pattern.open_ended ≡ false
    → ((n : String) → Api r.verb (fill r.pattern.segments n) (r.handler n))
    → (matches v path r ≡ true) × (e ≡ endpoint path r)
    → Api v path e
land v path e r single closed api (m, q) =
    let (same, fit) =
      both (is_verb v r.verb) (fits r.pattern.segments r.pattern.open_ended path) m in
    let n = named r.pattern.segments path in
    let fit' = subst (λ b. fits r.pattern.segments b path ≡ true) closed fit in
    let there = fits-fill r.pattern.segments path single fit' in
    subst (λ x. Api x path e) (sym (verb_of v r.verb same))
      (subst (λ x. Api r.verb x e) (sym there)
        (subst (Api r.verb (fill r.pattern.segments n)) (sym q) (api n)))

land_swagger :
    (v : Verb) (path : List String) (e : Endpoint)
    → (is_verb v get ≡ true) × (fits (text "swagger" ∷ []) true path ≡ true)
    → e ≡ swagger
    → Api v path e
land_swagger v [] e (m, k) q = absurd (cc)
land_swagger v (x ∷ []) e (m, k) q = absurd (true≢false (sym (both ("swagger" == x) false k).1))
land_swagger v (x ∷ y ∷ ys) e (m, k) q =
    let (same, _) = both ("swagger" == x) true k in
    subst (λ w. Api w (x ∷ y ∷ ys) e) (sym (verb_of v get m))
      (subst (λ z. Api get (z ∷ y ∷ ys) e) ((eq_iff "swagger" x).0 same)
        (subst (Api get ("swagger" ∷ y ∷ ys)) (sym q) docs))

-- The same for a list of such routes.
land_any :
    (v : Verb) (path : List String) (e : Endpoint) (rs : List Route)
    → All
        (λ r.
          (is_single r.pattern.segments ≡ true)
          × (r.pattern.open_ended ≡ false)
          × ((n : String) → Api r.verb (fill r.pattern.segments n) (r.handler n)))
        rs
    → Any (λ r. (matches v path r ≡ true) × (e ≡ endpoint path r)) rs
    → Api v path e
land_any v path e [] k h = absurd h
land_any v path e (r ∷ rs) ((single, closed, api), k) (inl h) = land v path e r single closed api h
land_any v path e (r ∷ rs) (_, k) (inr h) = land_any v path e rs k h

-- A path of a registered route is in the table.
fits-Api :
    (v : Verb) (path : List String) (e : Endpoint)
    → Any (λ r. (matches v path r ≡ true) × (e ≡ endpoint path r)) register_routes
    → Api v path e
fits-Api v path e (inl h) =
    land v path e (route get (text "healthz" ∷ []) (λ _. healthz)) refl refl (λ _. health) h
fits-Api v path e (inr (inl (m, q))) = land_swagger v path e (both (is_verb v get) _ m) q
fits-Api v path e (inr (inr h)) =
    land_any v path e (map (under (text "api" ∷ text "v1" ∷ [])) api_v1)
      (
        (refl, refl, λ _. create),
        (
          (refl, refl, λ _. list),
          (
            (refl, refl, λ _. load),
            (
              (refl, refl, λ _. attach),
              (
                (refl, refl, λ _. detach),
                (
                  (refl, refl, λ _. remove),
                  ((refl, refl, λ _. reconcile), ((refl, refl, λ _. events), tt)),
                ),
              ),
            ),
          ),
        ),
      )
      h

Api-unique :
    {v : Verb} {path : List String} {e e' : Endpoint} → Api v path e → Api v path e' → e ≡ e'
Api-unique health health = refl
Api-unique docs docs = refl
Api-unique create create = refl
Api-unique list list = refl
Api-unique load load = refl
Api-unique attach attach = refl
Api-unique detach detach = refl
Api-unique remove remove = refl
Api-unique reconcile reconcile = refl
Api-unique events events = refl

Api-fits :
    (v : Verb) (path : List String) (e : Endpoint)
    → Api v path e
    → All (λ r. matches v path r ≡ false) register_routes
    → ⊥
Api-fits v path e health h = absurd (true≢false h.0)
Api-fits v path e docs h = absurd (true≢false h.1.0)
Api-fits v path e create h = absurd (true≢false h.1.1.0)
Api-fits v path e list h = absurd (true≢false h.1.1.1.0)
Api-fits v path e load h = absurd (true≢false h.1.1.1.1.0)
Api-fits v path e attach h = absurd (true≢false h.1.1.1.1.1.0)
Api-fits v path e detach h = absurd (true≢false h.1.1.1.1.1.1.0)
Api-fits v path e remove h = absurd (true≢false h.1.1.1.1.1.1.1.0)
Api-fits v path e reconcile h = absurd (true≢false h.1.1.1.1.1.1.1.1.0)
Api-fits v path e events h = absurd (true≢false h.1.1.1.1.1.1.1.1.1.0)

-- Over any router that does what chi documents, the routes that registerRoutes registers send a
-- request whose path has no empty segment to a handler, with a name, exactly if the table of the
-- API has this entry: no two routes compete for a request, and what is not in the table is not found.
pub register_routes-Api :
    (chi : Chi) (v : Verb) (path : List String) (e : Endpoint)
    → All (λ x. x ≢ "") path
    → (chi.find register_routes v path ≡ some e) ↔ Api v path e
register_routes-Api chi v path e full = (
  (λ h. fits-Api v path e (chi.finds register_routes v path e h)),
  (λ a. elim (Option-cases (chi.find register_routes v path)) [
    | inl h ↦ absurd (Api-fits v path e a (chi.misses register_routes v path full h))
    | inr (e', h) ↦
        h ∙ ap some (Api-unique (fits-Api v path e' (chi.finds register_routes v path e' h)) a)
  ]),
)
