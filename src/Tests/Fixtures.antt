-- ===== src/Tests/Fixtures.antt =====
-- A library of state machines, a setting and some worlds to run the application in.
use block_storage_api.Prelude.{
  ℕ, zero, suc, ◌+◌, ◌*◌, String, ◌≡◌, ◌≢◌, refl, Bool, true, false, Option, none, some, List, [],
  ◌∷◌, pos, ap,
}
use block_storage_api.Errors.{Error, Result, Outcome, ok, err, external}
use block_storage_api.Storage.{State, Volume, VolumeBackend}
use block_storage_api.Storage.Mock.{MockBackend}
use block_storage_api.Fsm.{Event, EventDesc, FsmLibrary, targets}
use block_storage_api.Repository.InMemory.{InMemoryRepository}
use block_storage_api.Application.World.{World, RetryPolicy}
use block_storage_api.Application.Local.{Setting}
use block_storage_api.Application.Mocked.{with_mock}

-- A machine is its current state and its table.
abbrev pub Machine : Type 0
Machine = State × List EventDesc

abbrev pub allowed : List State → Bool
allowed [] = false
allowed (_ ∷ _) = true

abbrev pub moved : List State → Machine → Option Error × Machine
moved [] m = (some (external "inappropriate in current state"), m)
moved (t ∷ _) m = (none, (t, m.1))

pub can_declared :
    (s t : State) (e : Event) (ds : List EventDesc)
    → targets ds s e ≡ t ∷ []
    → allowed (targets ds s e) ≡ true
can_declared s t e ds h = ap allowed h

pub can_undeclared :
    (s : State) (e : Event) (ds : List EventDesc)
    → targets ds s e ≡ []
    → allowed (targets ds s e) ≡ false
can_undeclared s e ds h = ap allowed h

pub event_declared :
    (s t : State) (e : Event) (ds : List EventDesc)
    → targets ds s e ≡ t ∷ []
    → s ≢ t
    → ((moved (targets ds s e) (s, ds)).0 ≡ none) × ((moved (targets ds s e) (s, ds)).1.0 ≡ t)
event_declared s t e ds h ne = rw h (refl, refl)

pub event_undeclared :
    (s : State) (e : Event) (ds : List EventDesc)
    → targets ds s e ≡ []
    → (x : Error) × ((moved (targets ds s e) (s, ds)).0 ≡ some x)
event_undeclared s e ds h = rw h (_, refl)

abbrev pub table_fsm : FsmLibrary Machine
table_fsm = record {
  new_fsm = λ s ds. (s, ds);
  can = λ m e. allowed (targets m.1 m.0 e);
  event = λ m e. moved (targets m.1 m.0 e) m;
  current = λ m. m.0;
  can_declared = can_declared;
  can_undeclared = can_undeclared;
  event_declared = event_declared;
  event_undeclared = event_undeclared;
}

-- `DefaultRetryPolicy`, with durations in milliseconds.
abbrev pub default_policy : RetryPolicy
default_policy = record {
  max_attempts = pos 3;
  initial_wait = 500;
  scale = λ wait. wait * 2;
  max_wait = 10000;
}

abbrev pub clock : ℕ → ℕ
clock n = n + 100

abbrev pub uuids : ℕ → String
uuids _ = "550e8400"

abbrev pub setting : Setting MockBackend Machine
setting = with_mock default_policy table_fsm clock uuids

abbrev pub row : State → String → Volume
row state node_id = record {
  id = "550e8400";
  name = "vol-01";
  size_mb = pos 1024;
  state = state;
  backend = "mock";
  node_id = node_id;
  created_at = 1;
  updated_at = 2;
}

-- A backend that fails as many calls as its state says, and then succeeds.
abbrev pub countdown : ℕ → Outcome × ℕ
countdown zero = (ok tt, 0)
countdown (suc n) = (err (external "timeout"), n)

abbrev pub created_or : Outcome × ℕ → Result (Option Volume) × ℕ
created_or (ok _, n) = (ok none, n)
created_or (err e, n) = (err e, n)

abbrev pub flaky : VolumeBackend ℕ
flaky = record {
  create_volume = λ name size_mb n. created_or (countdown n);
  delete_volume = λ name n. countdown n;
  list_volumes = λ n. (ok [], n);
  get_volume = λ name n. (ok none, n);
  attach_volume = λ name node_id n. countdown n;
  detach_volume = λ name n. countdown n;
  health_check = λ n. (ok tt, n);
  backend_name = "flaky";
  close = λ n. (ok tt, n);
}

abbrev pub flaky_setting : Setting ℕ Machine
flaky_setting = record {
  backend = flaky;
  policy = default_policy;
  fsm = table_fsm;
  clock = clock;
  uuids = uuids;
}

abbrev pub world : {B : Type 0} → List (String × Volume) → B → World InMemoryRepository B
world rows storage = record {
  db = record { volumes = rows; events = [] };
  storage = storage;
  broker = record {
    subscribers = [];
    channels = λ _. record { buffer = []; closed = false };
    next_channel = 0;
    panicked = false;
  };
  readings = 0;
  issued = 0;
  tasks = [];
  waits = [];
  done_after = none;
}

abbrev pub volumes : List (String × Volume) → MockBackend
volumes vs = record { volumes = vs; readings = 0; issued = 0 }

-- One row in the database, and nothing in the backend.
abbrev pub stored : State → String → World InMemoryRepository MockBackend
stored state node_id = world (("vol-01", row state node_id) ∷ []) (volumes [])

-- One row in the database, and a backend that will fail so many calls.
abbrev pub flaky_world : State → String → ℕ → World InMemoryRepository ℕ
flaky_world state node_id fails = world (("vol-01", row state node_id) ∷ []) fails
