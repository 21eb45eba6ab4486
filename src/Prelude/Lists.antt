-- ===== src/Prelude/Lists.antt =====
-- Lists measured by the native numbers, and predicates by recursion.
use Prim.Native.Nat.{ℕ, zero, suc, ◌+◌}
use mathlib.Core.Path.{◌≡◌, ap}
use mathlib.Core.Logic.{◌⊎◌}
use mathlib.Core.Option.{Option, none, some}
use mathlib.Core.List.{List, [], ◌∷◌, ◌++◌, map}
use native.Mathlib.Omega.{arith}

module _ {ℓ} {A : Type ℓ} where
  abbrev pub length : List A → ℕ
  length [] = 0
  length (_ ∷ xs) = suc (length xs)

  pub length-append : (xs ys : List A) → length (xs ++ ys) ≡ length xs + length ys
  length-append [] ys = omega arith
  length-append (x ∷ xs) ys = omega (arith, length-append xs ys)

  abbrev pub All {κ} : (A → Type κ) → List A → Type κ
  All P [] = Unit
  All P (x ∷ xs) = P x × All P xs

  pub All-append {κ} : (P : A → Type κ) (xs ys : List A) → All P xs → All P ys → All P (xs ++ ys)
  All-append P [] ys h k = k
  All-append P (x ∷ xs) ys h k = (h.0, All-append P xs ys h.1 k)

-- The n-th element, if there is one.
abbrev pub get_elem? : {A : Type 0} → List A → ℕ → Option A
get_elem? [] n = none
get_elem? (x ∷ xs) zero = some x
get_elem? (x ∷ xs) (suc n) = get_elem? xs n

pub get_elem?-append :
    {A : Type 0} (xs ys : List A) (n : ℕ) (x : A)
    → get_elem? xs n ≡ some x
    → get_elem? (xs ++ ys) n ≡ some x
get_elem?-append [] ys n x h = absurd (cc)
get_elem?-append (y ∷ xs) ys zero x h = h
get_elem?-append (y ∷ xs) ys (suc n) x h = get_elem?-append xs ys n x h

pub get_elem?-map :
    {A C : Type 0} (f : A → C) (xs : List A) (n : ℕ) (x : A)
    → get_elem? xs n ≡ some x
    → get_elem? (map f xs) n ≡ some (f x)
get_elem?-map f [] n x h = absurd (cc)
get_elem?-map f (y ∷ xs) zero x h = ap (λ z. some (f z)) (cc)
get_elem?-map f (y ∷ xs) (suc n) x h = get_elem?-map f xs n x h

pub All-map :
    {A C : Type 0} (P : C → Type 0) (f : A → C) (xs : List A)
    → ((x : A) → P (f x))
    → All P (map f xs)
All-map P f [] h = tt
All-map P f (x ∷ xs) h = (h x, All-map P f xs h)

abbrev pub Any : {A : Type 0} → (A → Type 0) → List A → Type 0
Any P [] = ⊥
Any P (x ∷ xs) = P x ⊎ Any P xs
