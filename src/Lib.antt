-- ===== src/Lib.antt =====
-- The block storage API: a service that keeps the volumes of a storage backend in a database and
-- moves each of them through a state machine.
--
-- The parts of the program, and how they work together. A request reaches a method of `application`
-- (volume/application.go), which loads the volume's row, tests the event against the state machine
-- (volume/fsm.go), writes the new state and an audit entry to the database, tells the subscribers of
-- the event broker, and starts a goroutine. The goroutine, `runWithRetry`, calls the storage backend,
-- and fires the event of success, or the event of an error and then a retry after a back-off, or,
-- after the last attempt, the event of failure. `ReconcileVolume` brings a row that ended in the error
-- state back in line with the backend, and at startup the volume feature (volume/factory.go) does so for
-- the rows that an earlier process left in progress. The HTTP controller (volume/controller_http.go)
-- turns requests into calls of the methods, and their errors into statuses.
--
-- Which file models which part:
--   * Errors: Go's error values, for `fmt.Errorf`, `errors.Is` and the sentinels of the application.
--     The text of a message is kept short; which errors it wraps is kept exactly.
--   * Storage: storage/backend.go. Storage/Mock: storage/mock/mock.go, and in Mock/Laws what it keeps.
--     Storage/Ceph: storage/ceph/ceph.go and stub.go, over the cluster as the parameter `Cluster`;
--     Ceph/Laws and Removal how the table of volumes agrees with the images, Ceph/Histories the rest.
--   * Fsm: volume/fsm.go. The library looplab/fsm is the parameter `FsmLibrary`, with the documented
--     behaviour of `NewFSM`, `Can`, `Event` and `Current` as its laws. Fsm/Graph has the state diagram
--     as a relation, Fsm/Moves the moves of a state by given events.
--   * Dependency: volume/dependency.go. Dependency/Contract: what the application relies on of a
--     database; any call may fail, and a write that fails may have been made.
--   * Repository/InMemory: volume/repository/inmemory.go; InMemory/Laws shows that it meets the contract.
--   * Repository/Postgres: volume/repository/postgres.go. The server behind the pool is the parameter
--     `Server`, whose laws are what the schema and the statements promise: unique names and ids, an
--     INSERT, an UPDATE by id and a SELECT that do what they say or fail. Postgres/Laws has what the
--     calls do to the rows, Postgres/Refinement that the repository meets the contract.
--   * Broker: `eventBroker` of volume/application.go; Broker/Laws what its channels keep.
--   * Application: volume/application.go. World has the state that the methods read and change (the
--     database, the backend, the broker, the goroutines started, the clock) and the monad of its
--     methods, which keeps the state after an error. Operations has the methods, one function each;
--     Retry has `runWithRetry`, cut where the source's loop has its early returns.
--   * Application/Safety, History: what every method keeps over any database and any backend, and the
--     events by which it may change a row.
--   * Application/Local: what every method does, exactly, over the repository in memory.
--   * Application/Mocked: the same with the mock backend.
--   * Application/Race: two requests whose load and write interleave, over the repository in memory.
--   * Application/Interleaved: any number of requests and goroutines that run at the same time.
--     Programs has the methods and `runWithRetry` once more, as programs that take one step at a
--     time (a call of the database, the backend or the broker, a reading of the clock, a look at
--     the context); Alone compares a program which nothing interrupts with its method; Steady has what each
--     step keeps whatever others did before it, Ends how many steps there are, Shutdown how many
--     once the context is cancelled, Rivals the creation of a row. System has the process, with
--     its threads and its moves: a request arrives, a goroutine is started, a thread takes a step,
--     the context is cancelled, a client reads from its channel. System/Kept, Ends, Cancelled,
--     Apart and Creates say what holds of every sequence of moves.
--   * Feature: the reconciliation at startup of volume/factory.go, over the same monad; Feature/Effects,
--     Rows, Storage, Imports and Startup what it leaves, Feature/Verdict what it makes of one row.
--   * Http: the handlers of volume/controller_http.go, from a decoded body to a status and a body;
--     Http/Stream its event stream, Http/Middleware what is around the handlers, over the parameter
--     `NetHttp`, Http/Statuses the answers over the repository in memory,
--     Http/Routes the routes, over the parameter `Chi`, Http/Controller the construction.
--   * Config: config/config.go, over the environment and the parsers as the parameter `System`.
--   * Feature/Lifecycle: the construction of the feature; Lifecycle/Validation what its
--     parameters come to, with Assertor for assertor/assertor.go.
--   * Nvmeof: transport/nvmeof/target.go, over the parameter `FileSystem`; Nvmeof/Laws what its table
--     keeps, Nvmeof/Exposure what an exposure and a withdrawal do.
--   * Process: cmd/api/setup.go and cmd/api/main.go with internal/db and internal/observability, over
--     what other packages return as the parameter `Outside`: Process/Registry the state, Process/Steps
--     the steps of the setup, and Process/Shutdown what a run closes.
--   * Tests: a state machine library, settings and worlds, and the theorems at concrete inputs.
--
-- Bounds and fuel. `runWithRetry` counts to `MaxAttempts`, so its recursion is on the rounds that are
-- left and no fuel is invented; nor is there any in a system of threads, since a thread that has ended
-- takes its turns without effect. Sizes and `MaxAttempts` are Go's `int`, here integers that are only
-- compared with 0 or counted up to; times and durations are natural numbers, and the product of a
-- duration with the policy's multiplier, a floating-point number, is a function of the policy. The size
-- in bytes that the Ceph backend computes is taken modulo 2 ^ 64, step by step as the code does; no
-- other sum or product can come near 2 ^ 63. An instant is a number of microseconds, the resolution of
-- the columns of PostgreSQL: the nanoseconds that a reading of the clock has beyond it are left out.
--
-- Not modelled: what happens inside a step, where a call holds the lock or the transaction of its
-- package; the goroutine of the reconciliation at startup beside requests; Close of the feature,
-- which cancels the context and waits for that goroutine and for the retry goroutines (what the
-- latter do once the context is cancelled is in Interleaved), and what the stores answer once they
-- are closed; logging, tracing and metrics; deadlines, which are errors of the call that runs out
-- of time; and the generated description of the API. OpenTelemetry, the router chi, the PostgreSQL
-- server, the Ceph cluster and the file system are parameters: what they do inside is not modelled.
pub mod Prelude
pub mod Errors
pub mod Assertor
pub mod Storage
pub mod Fsm
pub mod Dependency
pub mod Broker
pub mod Application
pub mod Repository
pub mod Feature
pub mod Http
pub mod Config
pub mod Process
pub mod Nvmeof
mod Tests
