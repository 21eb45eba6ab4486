-- ===== src/Tests/Routes.antt =====
-- A router that takes the first route that fits.
use block_storage_api.Prelude.{
  String, ◌≡◌, ◌≢◌, refl, Bool, true, false, inl, inr, ◌⊎◌, Option, none, some, List, [], ◌∷◌, All,
  Any, if◌then◌else◌, ◌↔◌,
}
use block_storage_api.Http.Routes.{
  Verb, put, Route, Endpoint, attach_volume, matches, endpoint, Chi, Api, register_routes,
}
use block_storage_api.Http.Routes.Table.{register_routes-Api}

abbrev first_match : List Route → Verb → List String → Option Endpoint
first_match [] v path = none
first_match (r ∷ rs) v path =
    let later = first_match rs v path in if matches v path r then some (endpoint path r) else later

choice :
    (b : Bool) (x e : Endpoint) (o : Option Endpoint)
    → (if b then some x else o) ≡ some e
    → ((b ≡ true) × (e ≡ x)) ⊎ (o ≡ some e)
choice true x e o h = inl (refl, cc)
choice false x e o h = inr h

no_choice :
    (b : Bool) (x : Endpoint) (o : Option Endpoint)
    → (if b then some x else o) ≡ none
    → (b ≡ false) × (o ≡ none)
no_choice true x o h = absurd (cc)
no_choice false x o h = (refl, h)

first_match-finds :
    (rs : List Route) (v : Verb) (path : List String) (e : Endpoint)
    → first_match rs v path ≡ some e
    → Any (λ r. (matches v path r ≡ true) × (e ≡ endpoint path r)) rs
first_match-finds [] v path e h = absurd (cc)
first_match-finds (r ∷ rs) v path e h =
    elim (choice (matches v path r) (endpoint path r) e (first_match rs v path) h) [
      | inl here ↦ inl here
      | inr later ↦ inr (first_match-finds rs v path e later)
    ]

first_match-misses :
    (rs : List Route) (v : Verb) (path : List String)
    → All (λ x. x ≢ "") path
    → first_match rs v path ≡ none
    → All (λ r. matches v path r ≡ false) rs
first_match-misses [] v path full h = tt
first_match-misses (r ∷ rs) v path full h =
    let (m, later) = no_choice (matches v path r) (endpoint path r) (first_match rs v path) h in
    (m, first_match-misses rs v path full later)

abbrev router : Chi
router = record { find = first_match; finds = first_match-finds; misses = first_match-misses }

abbrev attach_path : List String
attach_path = "api" ∷ "v1" ∷ "volumes" ∷ "vol-01" ∷ "attach" ∷ []

register_routes-Api_example :
    (router.find register_routes put attach_path ≡ some (attach_volume "vol-01"))
    ↔ Api put attach_path (attach_volume "vol-01")
register_routes-Api_example =
    register_routes-Api router put attach_path (attach_volume "vol-01")
      ((λ h. cc), ((λ h. cc), ((λ h. cc), ((λ h. cc), ((λ h. cc), tt)))))
