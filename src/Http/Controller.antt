-- ===== src/Http/Controller.antt =====
-- The construction of the controller, and its counter of operations: volume/controller_http.go.
use block_storage_api.Prelude.{String, Option, none, some}
use block_storage_api.Errors.{Result, ok, err}

-- What the handlers read besides the application; a counter of OpenTelemetry has the type `C`.
pub record HttpController (C : Type 0) : Type 0 where
  pub backend_name : String
  pub op_total : Option C

-- The counter of a meter, which may refuse to make one; that is logged, and nothing is counted then.
abbrev pub counter_of : {C : Type 0} → Option (Result C) → Option C
counter_of none = none
counter_of (some (ok c)) = some c
counter_of (some (err e)) = none

-- The name of the backend is read if the contract is implemented by `application`, and is given here
-- if so.
abbrev pub backend_name_of : Option String → String
backend_name_of (some name) = name
backend_name_of none = "unknown"

abbrev pub new_http_controller : {C : Type 0} → Option String → Option (Result C) → HttpController C
new_http_controller app meter = record {
  backend_name = backend_name_of app;
  op_total = counter_of meter;
}

-- `add` is what the counter does with one more of an operation.
abbrev pub record_op :
    {C : Type 0} → (String → C → C) → String → HttpController C → HttpController C
record_op {C} add op c = record c { op_total = counted c.op_total }
  where
    counted : Option C → Option C
    counted none = none
    counted (some n) = some (add op n)
