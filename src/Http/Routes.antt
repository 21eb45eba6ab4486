-- ===== src/Http/Routes.antt =====
-- `registerRoutes` of volume/controller_http.go, over the router chi as a parameter.
pub mod Table
use block_storage_api.Prelude.{
  ℕ, String, ◌≡◌, ◌≢◌, refl, sym, ◌∙◌, ap, subst, Bool, true, false, Option, none, some, List, [],
  ◌∷◌, ◌++◌, map, Any, ◌==◌, eq_iff, eq_refl, All, if◌then◌else◌, ◌↔◌, Option-cases, inl, inr, ◌⊎◌,
  arith,
}

pub data Verb : Type 0 where
  get post put delete : Verb

abbrev is_verb : Verb → Verb → Bool
is_verb get get = true
is_verb post post = true
is_verb put put = true
is_verb delete delete = true
is_verb _ _ = false

-- A segment of a pattern: a text, or `{name}`.
pub data Segment : Type 0 where
  text : String → Segment
  name : Segment

-- A pattern: its segments, and whether it ends in `/*`.
pub record Pattern : Type 0 where
  pub segments : List Segment
  pub open_ended : Bool

-- The handlers, by their names, with the value of `{name}` where they read it.
pub data Endpoint : Type 0 where
  healthz swagger create_volume list_volumes : Endpoint
  get_volume attach_volume detach_volume delete_volume reconcile_volume : String → Endpoint
  stream_volume_events : String → Endpoint

-- What a handler is called with: the parameters of the path.
pub record Route : Type 0 where
  pub verb : Verb
  pub pattern : Pattern
  pub handler : String → Endpoint

abbrev pub route : Verb → List Segment → (String → Endpoint) → Route
route v segments handler = record {
  verb = v;
  pattern = record { segments = segments; open_ended = false };
  handler = handler;
}

-- `r.Route(prefix, …)`
abbrev pub under : List Segment → Route → Route
under prefix r = record {
  verb = r.verb;
  pattern = record { segments = prefix ++ r.pattern.segments; open_ended = r.pattern.open_ended };
  handler = r.handler;
}

abbrev pub api_v1 : List Route
api_v1 =
    route post (text "volumes" ∷ []) (λ _. create_volume)
    ∷ route get (text "volumes" ∷ []) (λ _. list_volumes)
    ∷ route get (text "volumes" ∷ name ∷ []) get_volume
    ∷ route put (text "volumes" ∷ name ∷ text "attach" ∷ []) attach_volume
    ∷ route put (text "volumes" ∷ name ∷ text "detach" ∷ []) detach_volume
    ∷ route delete (text "volumes" ∷ name ∷ []) delete_volume
    ∷ route post (text "volumes" ∷ name ∷ text "reconcile" ∷ []) reconcile_volume
    ∷ route get (text "volumes" ∷ name ∷ text "events" ∷ []) stream_volume_events
    ∷ []

abbrev pub register_routes : List Route
register_routes =
    route get (text "healthz" ∷ []) (λ _. healthz)
    ∷ record {
      verb = get;
      pattern = record { segments = text "swagger" ∷ []; open_ended = true };
      handler = λ _. swagger;
    }
    ∷ map (under (text "api" ∷ text "v1" ∷ [])) api_v1

-- After `/*` there may be anything below the slash.
abbrev pub ends : Bool → List String → Bool
ends false [] = true
ends false (_ ∷ _) = false
ends true [] = false
ends true (_ ∷ _) = true

-- Whether a path, cut at its slashes, matches a pattern.
abbrev pub fits : List Segment → Bool → List String → Bool
fits [] open_ended xs = ends open_ended xs
fits (_ ∷ _) open_ended [] = false
fits (text s ∷ p) open_ended (x ∷ xs) =
    let rest = fits p open_ended xs in if s == x then rest else false
fits (name ∷ p) open_ended (x ∷ xs) = fits p open_ended xs

-- The value of `{name}`, empty if the pattern has none.
abbrev pub named : List Segment → List String → String
named [] xs = ""
named (_ ∷ _) [] = ""
named (text s ∷ p) (x ∷ xs) = named p xs
named (name ∷ p) (x ∷ xs) = x

abbrev pub matches : Verb → List String → Route → Bool
matches v path r =
    let rest = fits r.pattern.segments r.pattern.open_ended path in
    if is_verb v r.verb then rest else false

abbrev pub endpoint : List String → Route → Endpoint
endpoint path r = r.handler (named r.pattern.segments path)

-- What the program relies on of chi: a request goes to a registered route of its method whose
-- pattern its path matches, with the matched segment as the parameter, if there is such a route and
-- no segment of the path is empty.
pub record Chi : Type 1 where
  pub find : List Route → Verb → List String → Option Endpoint
  pub finds :
      (rs : List Route) (v : Verb) (path : List String) (e : Endpoint)
      → find rs v path ≡ some e
      → Any (λ r. (matches v path r ≡ true) × (e ≡ endpoint path r)) rs
  pub misses :
      (rs : List Route) (v : Verb) (path : List String)
      → All (λ x. x ≢ "") path
      → find rs v path ≡ none
      → All (λ r. matches v path r ≡ false) rs

-- The table of the API.
pub data Api : Verb → List String → Endpoint → Type 0 where
  health : Api get ("healthz" ∷ []) healthz
  docs : {x : String} {rest : List String} → Api get ("swagger" ∷ x ∷ rest) swagger
  create : Api post ("api" ∷ "v1" ∷ "volumes" ∷ []) create_volume
  list : Api get ("api" ∷ "v1" ∷ "volumes" ∷ []) list_volumes
  load : {n : String} → Api get ("api" ∷ "v1" ∷ "volumes" ∷ n ∷ []) (get_volume n)
  attach : {n : String} → Api put ("api" ∷ "v1" ∷ "volumes" ∷ n ∷ "attach" ∷ []) (attach_volume n)
  detach : {n : String} → Api put ("api" ∷ "v1" ∷ "volumes" ∷ n ∷ "detach" ∷ []) (detach_volume n)
  remove : {n : String} → Api delete ("api" ∷ "v1" ∷ "volumes" ∷ n ∷ []) (delete_volume n)
  reconcile :
      {n : String} → Api post ("api" ∷ "v1" ∷ "volumes" ∷ n ∷ "reconcile" ∷ []) (reconcile_volume n)
  events :
      {n : String} → Api get ("api" ∷ "v1" ∷ "volumes" ∷ n ∷ "events" ∷ []) (stream_volume_events n)
