-- ===== src/Lib.antt =====
-- domainry-foundation: the shared infrastructure library of Domainry services, modelled for
-- verification. The packages of the repository are independent libraries that a service puts
-- together, so the model has one module per package and the theorems are about each package's
-- exported operations; a caller enters as an explicit sequence of calls.
--
-- What the modules share (Prelude): Boolean tests; lists measured by native numbers; Go's `int`
-- and `int64` as integers that `wrap` brings into 64 bits; `time.Time` as nanoseconds since the
-- zero time and `time.Duration` as an integer; `strings.TrimSpace`; Go maps as association lists
-- whose order is the order of a `range` loop; stable sorting; and checks in sequence, the first that
-- fails giving its error.
--
-- * Capacity (capacity/model.go, capacity/controller.go): the admission controller.
--   Capacity/Model holds the types and the counters, Admission `evictIdle`, `resetRateWindows` and
--   `admit`, Limits `normalizeLimits` and `NewController`, Controller `Acquire`, `Release` and
--   `Snapshot`. The lock makes every method one step on the controller; the clock's reading is an
--   argument. The floats of the two ratios are a parameter, a type with its comparison. Leases
--   has the leases with their `sync.Once`, and histories of calls. InFlight, Guards, Ledger, Caps,
--   Bounds, History, States and Calls are proofs.
-- * Pagination (pagination/cursor.go, pagination/numbered.go): Pagination/Model has both kinds
--   of page. `int` is the 64-bit one; a slice expression out of range is a panic. Walk has a client
--   that follows the continuation cursors, on fuel; a fuel above the number of items is enough.
-- * RateLimit (ratelimit/ratelimit.go): RateLimit/Model has the process-local limiter. The
--   request count of a bucket is a plain number: 2 ^ 63 requests are out of reach.
-- * Worker (worker/controller.go, worker/retry.go, worker/lifecycle.go): Worker/Control has the
--   `Controller` that admits claims and drains, its idle channels as numbers in a store of
--   closed channels; `WaitIdle` takes the calls made before its `select` is entered and then the
--   timer, pending with the calls made until it fires, or fired with what the `select` picks of two
--   ready channels. Worker/Retry has `RetryPolicy` and `nextAdaptiveInterval`; the loop of `Delay`
--   is a recursion on the attempt, which bounds its steps. Worker/Dispatch has
--   `StartWakeableDispatcherWithExecutors`: each step of the dispatcher goroutine or of an executor
--   is an event, a blocked goroutine having none, so that a list of events is an interleaving. The
--   end of the context is an event too, and a job that an executor holds says whether it came after
--   that; such a job is not executed. Worker/Broker has the lossy `WakeupBroker` of
--   worker/wakeup_broker.go. Drain, Waiting, Shutdown, Backoff, Slots, Closing, Handled and Wakeups
--   are proofs.
-- * Secrets (secrets/keyring.go): Secrets/KeyRing has `MemoryKeyRing` with the keys of
--   secrets/provider.go; Rotation and Revocation are proofs about histories of `Rotate` and `Revoke`.
-- * Idempotency (idempotency/idempotency_contract.go): Idempotency/Receipts has scopes, leases and
--   `Classify`; Claims is proofs. The store that allocates tokens is the service's own.
-- * AppError (apperror/app_error.go, apperror/app_error_contract.go): AppError/Errors has errors as
--   chains of wrapped errors, with `errors.As` as a walk down the chain, and the codes of errors; Codes
--   is proofs. Of `Error()` texts nothing is modelled.
-- * Expression (expression/contract/, expression/model/): Expression/Model has expressions, the values of
--   `any` and the record `Runtime` of what the code calls in fmt, strconv, strings, time and the decimal
--   package, whose own model is Decimal; Operators and Types are expression_validation_contract.go; Values and Evaluation are
--   expression_evaluation_contract.go. A panic of a type assertion is an outcome of its own. The clock of
--   a context is read once for an evaluation, and a nil clock or location is the caller's default.
--   Fitting, Applied, Results and Soundness prove what values evaluation gives, Agreement compares it with
--   validation, and Defects has valid expressions that go wrong.
-- * Worker/Fairness (worker/fairness.go): `FairOrder` with the loop that fills the result on fuel, one
--   round for each item, which is enough since every round takes an item; Fairness/Quota has
--   `QuotaFairOrder`, with the classes in the order in which the Go loop over the map meets them as an
--   argument. Queues, Rounds, Counts, Turns, Shares, Classes and Quotas are
--   proofs.
-- * Decimal (decimal/decimal.go): Decimal/Model has normalisation, arithmetic, comparison and the text in
--   which SQLite keeps a decimal, with the package github.com/shopspring/decimal as the parameter
--   `Shopspring`; texts are lists of code points, and Digits has what is used of math/big on them, where
--   the number itself is enough fuel for its digits. Numerals, Offsets and Storage are proofs. `IsExact` is the
--   documented exactness of the package that the proofs use.
-- * Health (health/health.go): Health/Registry has `Evaluate` and the states that the registry keeps. How
--   a check's `Run` and its context end is an argument, and so are the clock readings, as the texts they
--   are formatted to. Of results with one name the order after `sort.Slice` is not fixed; the model keeps
--   the order in which they were run. History and Summary are proofs.
-- * Action (action/contract.go, action/validation.go, action/registry.go, action/usage.go):
--   Action/Model has the definitions, their normal form and the identities of their bindings;
--   Action/Validation the validation, whose order of checks is the code's; Action/Batches the state of the
--   registry and the check of a batch; Action/Registry registration, freeze and the queries; Action/Usage
--   the requests and snapshots of permission usages. Each method holds the registry's lock, so it is one step, and a run is the list of the calls.
--   `strings.ToUpper` is a parameter, with `IsUpper` as what is used of it, and so is the encoding and
--   hashing of the frozen definitions to a revision. Normal, Indexes, Claims, Consistency, Preserved,
--   Outcome, Resolution and, below Usage, Found, Identities, Entries, Requests and Sound are proofs.
-- * ModuleCapability (modulecapability/contract.go, modulecapability/validation.go):
--   ModuleCapability/Summary has the summaries of modules and their validation, with a null JSON array
--   as `none`. Composition is proofs.
--
-- Not modelled: the event observer and the metrics (they do not feed back); goroutine scheduling
-- below the lock (every method that holds the mutex is one step); file locks, logging, telemetry
-- and the HTTP adapters, which are glue to libraries; and so far collection/,
-- the category documents and requests of modulecapability/, moduleinfo/, mutation/, requestcontext/ and the rest of
-- worker/, secrets/ and idempotency/.
pub mod Prelude
pub mod Action
pub mod Capacity
pub mod Worker
pub mod Secrets
pub mod Decimal
pub mod Expression
pub mod AppError
pub mod Health
pub mod Idempotency
pub mod ModuleCapability
pub mod Pagination
pub mod RateLimit
