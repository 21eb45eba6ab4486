-- ===== src/Application/Interleaved.antt =====
-- The methods and goroutines of volume/application.go as programs that take one step at a time: a step
-- is one call of the database, the backend or the broker, one reading of the clock, or one look at the
-- context. Between two steps of a program any other program may take steps.
pub mod Programs
pub mod Alone
pub mod Steady
pub mod System
pub mod Ends
pub mod Rivals
pub mod Shutdown
use block_storage_api.Prelude.{Option, none, some, Bool, true, false}
use block_storage_api.Errors.{Error, Result, ok, err}
use block_storage_api.Application.World.{World, Action, map_result}
use block_storage_api.Application.World

-- A program has ended, or it changes the world in a step and goes on by what it has seen.
pub data Program (D B A : Type 0) : Type 0 where
  ended : Result A → Program D B A
  step : (World D B → World D B) → (World D B → Program D B A) → Program D B A

module _ {D B : Type 0} where
  -- One step.
  abbrev pub atom : {A : Type 0} → Action D B A → Program D B A
  atom m = step (λ w. (m w).1) (λ w. ended (m w).0)

  abbrev pub pure : {A : Type 0} → A → Program D B A
  pure a = ended (ok a)

  abbrev pub refuse_if : Bool → Error → Program D B (Unit {0})
  refuse_if true e = ended (err e)
  refuse_if false e = ended (ok tt)

  abbrev pub or_raise : {A : Type 0} → Option A → Error → Program D B A
  or_raise none e = ended (err e)
  or_raise (some a) e = ended (ok a)

  unfoldable pub map_error : {A : Type 0} → (Error → Error) → Program D B A → Program D B A
  map_error f (ended r) = ended (map_result f r)
  map_error f (step t k) = step t (λ w. map_error f (k w))

  unfoldable pub catch : {A : Type 0} → Program D B A → Program D B (Result A)
  catch (ended r) = ended (ok r)
  catch (step t k) = step t (λ w. catch (k w))

  unfoldable pub attempt : {A : Type 0} → Program D B A → Program D B (Unit {0})
  attempt (ended r) = ended (ok tt)
  attempt (step t k) = step t (λ w. attempt (k w))

  -- A program that nothing interrupts.
  unfoldable pub run : {A : Type 0} → Program D B A → Action D B A
  run (ended r) w = (r, w)
  run (step t k) w = run (k w) (t w)

module _ {D B A C : Type 0} where
  infixl 5 ◌>>=◌
  unfoldable pub ◌>>=◌ : Program D B A → (A → Program D B C) → Program D B C
  ended (ok a) >>= f = f a
  ended (err e) >>= f = ended (err e)
  step t k >>= f = step t (λ w. k w >>= f)

module _ {D B C : Type 0} where
  infixl 5 ◌>>◌
  abbrev pub ◌>>◌ : Program D B (Unit {0}) → Program D B C → Program D B C
  p >> q = p >>= λ _. q
