-- ===== src/Lib.antt =====
-- ServerFlow routes chat requests of tenants to inference workers. A gateway authenticates a request, checks the
-- tenant's rate limits, admits it under a global cap, picks a worker that the control plane lists, and retries on
-- another worker within a budget; circuit breakers take failing workers out of the choice.
--
-- What is modelled, by file:
--
-- * RateLimit models internal/ratelimit. RateLimit/Model is model.go, the executable specification that the Lua scripts
--   of the limiter follow: `allow` is Model.Allow (`checks_of` its three buckets, `consider_tenant`, `consider_leases`
--   and `consider_model` the search for the longest wait, `charge` the writes), `release`, `renew` and `held` the other
--   operations. RateLimit/Keys is keys.go. The proofs are in RateLimit/Refill (how a bucket fills), Charge (what a
--   check writes), Decision and Allow (what it answers), Retry, Rate and Leases.
-- * Resilience models internal/resilience. Resilience/Window is the sliding window of doc.go, Resilience/Breaker the
--   state machine of breaker.go, Resilience/Breakers the breakers of all workers in breakers.go, with the calls in
--   Breakers/Calls and Breakers/Queries. The proofs are in Window/Counts and Window/History, Breaker/Backoff, and
--   Breakers/Cap (enforceCap),
--   Invariant (writing one breaker back), Capped (each internal step) and Runs (sequences of calls).
-- * Protocol models the workers' states and reports of pkg/protocol/worker.go, Registry the control plane's table of
--   workers in internal/registry/registry.go, for arguments that have been validated. The proofs are in Registry/Workers
--   and Registry/Drain.
-- * Resilience/Admission is admission.go, Resilience/Budget budget.go and Resilience/Queue queue.go; the proofs are in
--   Admission/Places, Budget/Tracked and Queue/Depth. The waiters of a queue are numbers into a store.
-- * Cost/Estimate and Cost/Work are internal/cost/estimate.go.
-- * Scheduler models internal/scheduler: Scheduler/Rotor the rotor and Scheduler/Candidates `eligible` and chooseWith of
--   scheduler.go, Scheduler/Strategies the six strategies with workaware.go. `select_worker` is SelectWorker of the
--   strategy that New returns. The proofs are in Scheduler/Kept and Choice (whom they choose), Fairness (the rotor's
--   turns) and Least.
-- * Auth models internal/auth. Auth/Base64 and Auth/Key are key.go, Auth/Types types.go, Auth/Lru lru.go (the list of its
--   items stands for the list and the map), and Auth/Authenticator, Auth/Authenticate and Auth/Calls authenticator.go: a
--   request is `begin` (up to fetch), `go_on` (fetch, up to the wait) and `conclude`, a lookup is `finish_lookup`, and
--   other steps stand between them. The flights map a prefix to whether its lookup refreshes a cached key. The proofs are in
--   Auth/Spelling, Slots, Runs, Fresh, Judged and Admitted.
-- * Gateway/Router models internal/gateway/router.go: it composes the scheduler, the breakers and the queue. `route` is
--   route, `reserve` the critical section that picks a worker and takes a slot, `release_slot` and `handoff_locked` the
--   way back. The loop of `reserve` runs on fuel, one more than there are workers, since each turn takes one eligible worker
--   out. The proofs are in Gateway/Reserve, Route and Release.
-- * Events is pkg/protocol/events.go up to its JSON encoding, Events/Checks and Payloads what the checks of its fields
--   and payloads say, Events/Carried and Valid what they amount to.
-- * Gateway/Snapshot is internal/gateway/snapshot.go, Gateway/Views what its views are good for.
-- * Gateway/Retry is internal/gateway/retry.go, which failed attempts may be followed by another; Gateway/Retryable is what its
--   answers say of the error.
-- * Prelude holds Boolean tests, lists, byte strings, association lists and signed integers over the native numbers.
--
-- How code and model correspond:
--
-- * A method that changes its receiver is a function from the old state to the new one. A mutex makes a method one
--   step, so a run of a component is a list of calls. The breakers' unlock hands the pending changes to a hook after
--   the state is consistent; a call returns them in a list.
-- * Counts, quotas, times and durations are natural numbers without an upper bound: int64 overflow is not modelled. Times
--   are nanoseconds (milliseconds in RateLimit); Go's zero time is 0. A subtraction of times that is compared is written
--   as a sum on the other side.
-- * A Go map is an association list with distinct keys; the order of the entries stands for Go's unspecified order of
--   iteration. Strings are byte strings. A pointer into a map is written back with `put`.
-- * float64 is a parameter (Prelude/Float): a type with the operations that the code uses, of which nothing is assumed.
--   The clock's reading and the random number of a call are arguments.
-- * The loop of enforceCap runs on fuel, as much as there are breakers, since each turn closes one. The loop of maxLevel
--   runs on fuel, as much as the largest cool-down, since the doubled cool-down at a level exceeds the level.
--
-- Not modelled: the Redis scripts and clients, PostgreSQL and Kafka, HTTP serving and streaming, configuration, metrics
-- and tracing, and the benchmark tools, which are I/O; the gateway's load ledger, which has no module here yet.
pub mod Prelude
pub mod RateLimit
pub mod Resilience
pub mod Protocol
pub mod Registry
pub mod Cost
pub mod Scheduler
pub mod Auth
pub mod Gateway
pub mod Events
