-- ===== src/Lib.antt =====
-- prism-2api: a server that gives one API over a pool of upstream accounts. This library models the
-- core of its account scheduling and states what makes that core correct.
--
-- The parts. Each account (internal/pool/account.go) keeps its switches, its limits, a sliding window of
-- uses, its slots for concurrent requests and its tokens. A request asks the scheduler
-- (internal/scheduler) for an account: it collects the accounts that are ready, prefers the one that the
-- session is bound to (the session cache), and otherwise picks by strategy in the tier of highest
-- priority. When the request ends, its outcome is classified (internal/failclass) and marked on the
-- account, which changes what later picks see. Clients present a key (internal/clientkeys), which may be
-- bound to a group of accounts (internal/groups) whose name the accounts and the keys refer to. The pool
-- (internal/pool/pool.go) owns the accounts and their sealed documents (internal/secret), which a flush
-- writes behind the requests. A request enters through a gate (internal/api/gate.go), asks for accounts
-- in a loop (internal/api/pick.go), and leaves through the proxies (internal/proxypool). Long
-- administrative work runs as tasks (internal/tasks).
--
-- The files.
--   Base: shared names, Boolean tests, integers over the native numbers, texts as lists of code points,
--     maps as association lists.
--   FailClass: internal/failclass/class.go, the classes, `Result` and `Duration`; also `result` and
--     `defaultHTTPStatus` of classify.go.
--   GroupNames: `cleanGroupNames` and the loop of `RenameGroup` of internal/pool/account.go.
--   Account/State, Limits, Slots, Marks, Ready: internal/pool/account.go. The record Account has the
--     fields that scheduling reads; a method that changes fields is a function from the state to the new
--     state, in the order of the source. `TokenManager` (internal/auth/login.go) is the optional token it
--     holds, with `DropAccessToken`.
--   Scheduler/Config, Select, Cache, Pick: the files of the same names in internal/scheduler; error.go
--     and `unavailableFrom` are in Unavailable. Their child modules hold the proofs.
--   ClientKeys: internal/clientkeys/store.go and the type Key; ClientKeys/Usage has verification, usage
--     and the cascades. Credits are a float64: their type, sum and sign test are parameters, and so is
--     the text that `Generate` draws. What the backend was last given is `saved`.
--   Groups: internal/groups/store.go. Whether the backend takes a write is an argument.
--   Scheduler/Session: internal/scheduler/session.go over JSON values.
--   Pool: internal/pool/pool.go in State, Calls, Load and Names; the document of an account, the admin patch
--     and the cached usage of account.go in Member and Document; internal/secret/secret.go in Secret;
--     `UsageSnapshot` of internal/adapter/types.go in Usage. An object of the source is a number that a heap
--     maps to its present state, so that the pool and the dirty set share objects.
--   Tasks: internal/tasks; Store, Slots (`acquire` and `release` of the runner) and Runner, where the life
--     of a task is a relation of steps.
--   Api: Iter for `accountIter` of internal/api/pick.go with internal/scheduler/wait.go, and Gate for
--     internal/api/gate.go with the release in `logMiddleware` of server.go.
--   Proxies: internal/proxypool, with `Settings` of internal/egress/resin.go.
--   Examples: runs on concrete data.
--
-- Conventions. A method that holds a mutex is one step. The clock is an argument; times are nanoseconds
-- since Go's zero time, so that 0 is `time.Time{}`; a duration that may be negative is an integer.
-- Counters, times and lengths are unbounded numbers, except where the source guards the bound itself
-- (the cursor of round robin, the saturating sums of weights). A Go map is an association list; where the
-- source ranges over a map, the order is that of the list.
-- `sort.Slice` by identifier is an insertion sort; identifiers of accounts are UUIDs, so no order of
-- equal ones is at stake. All loops follow a list or a count that the source bounds, but that of
-- `accountIter.Next`: it takes fuel, and one turn more than the waits that are left is enough.
--
-- Parameters: whether an access token is expired at a time (`isExpired`, JWT decoding), the limits that
-- the groups of an account give (`LimitResolver`), what the concurrency resolver returns, the reason
-- that a usage snapshot gives to the operations of an account, and the session identifiers of a request,
-- which are a field of it. The cipher, the hash, random draws, the reader of JSON, regular expressions,
-- floating-point numbers and the lower case of texts are parameters too, and so is whether a backend
-- takes a write. `encoding/json` is taken to give back the record that it was given.
--
-- Not modelled: the classification of errors into classes, null pointers among the accounts, the egress of
-- an account, HTTP handlers, the upstream client, storage, login, and the administration.
pub mod Api
pub mod Base
pub mod FailClass
pub mod GroupNames
pub mod Account
pub mod Scheduler
pub mod ClientKeys
pub mod Groups
pub mod Pool
pub mod Proxies
pub mod Tasks
mod Examples
