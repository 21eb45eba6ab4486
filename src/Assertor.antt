-- ===== src/Assertor.antt =====
-- assertor/assertor.go: the validator of constructor parameters.
use Prim.Native.String.{◌++◌}
use block_storage_api.Prelude.{String, Bool, true, false, List, [], ◌∷◌}
use block_storage_api.Errors.{Outcome, ok, err, external}

pub record Assertor : Type 0 where
  pub errs : List String

abbrev pub new : Assertor
new = record { errs = [] }

-- `append` at the end of a slice.
unfoldable pub push : String → List String → List String
push x [] = x ∷ []
push x (y ∷ ys) = y ∷ push x ys

unfoldable pub assert : Bool → String → Assertor → Assertor
unfolding push
assert true msg a = a
assert false msg a = record { errs = push msg a.errs }

-- `strings.Join`
unfoldable pub join : String → List String → String
join separator [] = ""
join separator (x ∷ []) = x
join separator (x ∷ y ∷ ys) = x ++ (separator ++ join separator (y ∷ ys))

unfoldable pub validate : Assertor → Outcome
validate a = elim a.errs [ [] ↦ ok tt | x ∷ xs ↦ err (external (join "; " (x ∷ xs))) ]
