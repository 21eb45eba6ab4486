-- ===== src/Errors.antt =====
-- Go's error values. An error is a sentinel, an error of code outside the program, or one that
-- `fmt.Errorf` makes of another: `wrap text e` is `"text: %w"`, `detail e text` is `"%w: …"` followed by
-- more text, and `annotate e cause` is `"%w: %s"`, which keeps only the text of the cause.
use block_storage_api.Prelude.{String, ◌≡◌}

-- The sentinels that volume/application.go declares.
pub data Sentinel : Type 0 where
  volume_not_found volume_exists invalid_transition invalid_size backend_unavailable : Sentinel

pub data Error : Type 0 where
  sentinel : Sentinel → Error
  external : String → Error
  wrap : String → Error → Error
  detail : Error → String → Error
  annotate : Error → Error → Error

pub data Result {ℓ} (A : Type ℓ) : Type ℓ where
  ok : A → Result A
  err : Error → Result A

-- The result is some error.
abbrev pub Failed {ℓ} : {A : Type ℓ} → Result A → Type ℓ
Failed {A = A} r = (e : Error) × (r ≡ err e)

-- What a Go function returns that has only an `error` result.
abbrev pub Outcome : Type 0
Outcome = Result (Unit {0})

unfoldable pub Sentinel-discrete : Discrete Sentinel
Sentinel-discrete = hlevel
