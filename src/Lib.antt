-- ===== src/Lib.antt =====
-- A verification library for arrow-resilience-kit, resilience patterns for Kotlin coroutines over
-- software transactional memory: a circuit breaker, two rate limiters, sagas, a cache, retry and
-- repeat loops, a time limiter and a bulkhead. The code is in
-- src/commonMain/kotlin/ro/sorinirmies/arrow/resiliencekit; the Kotlin files named below are files
-- there. The repository also has the pages of its documentation, with the scripts that run on them,
-- under docs/scripts; the JavaScript files named below are files there, and index.html is in docs.
--
-- The parts in Kotlin do not call each other, but for a saga's step with retries. Each is a class
-- whose variables (TVar) are read and written in transactions, `atomically { … }`, around a block
-- of the caller; each class is a record of its variables here, and each transaction a function on
-- that record. Where a property depends on how the transactions of several calls interleave, there
-- is a step relation over them; else a block is a function on the state, which it may change, as
-- other calls do while it runs. Listeners are a log of notifications in the state. An operation
-- that throws has an outcome, `returned v` or `thrown e` (Base.Ends). A constructor's `require`s
-- are a function into Option.
--
-- Base: Boolean tests, lists, association lists for Kotlin's maps, how often an item occurs in a
--   list, orders of turns, and Int and Long as bit patterns below 2^32 and 2^64 with their
--   wrap-around.
-- CircuitBreaker: CircuitBreaker.kt. `execute` is `check_and_update_state` and then
--   `execute_in_closed_state` or `execute_in_half_open_state`, each with the transactions that
--   follow the block. Diagram has the legal transitions, Execute and Sequential the calls one after
--   the other and the abstract circuit that they refine, Interleaving (with Progress and Told) the
--   step relation, in which notifyListeners is a step of its own after its transaction, and Race
--   the runs in which calls disturb each other.
-- RateLimiter: the token bucket of RateLimiter.kt, over a record of the operations on Double that
--   it uses (Arithmetic), with an instance on whole numbers. Bounds and Starvation are on it.
-- SlidingWindow: the sliding window of RateLimiter.kt, with an ideal limiter (Ideal) and its
--   counters.
-- Saga: `Saga` of Saga.kt; `execute` runs the steps, and `compensate` undoes them in reverse.
--   Rollback and Accounts (with Executed) are about what is undone and reported, Cancellation about what is thrown.
--   Parallel is ParallelSagaCoordinator: each saga is a machine whose turns run one action or one
--   compensation, and the turns of the sagas interleave; Machine relates the turns of one saga to
--   `execute`, Commuting and Reordering move the turns of sagas whose operations commute, and
--   Serial compares with one saga after the other. Builder is SagaBuilder, over withTimeout and
--   retryWithExponentialBackoff as parameters, with Atomic about the sagas that it builds.
-- Cache: `Cache` of Cache.kt, with the operations on one key in the file itself, those on many in
--   Bulk, getOrPut in Loading, and the class LoadingCache. Aligned, Invariant and Runs carry the
--   invariant, Reads is about get after put and getOrPut, and Eviction about the entry that an
--   eviction strategy chooses, with Victims for the least of the entries, and Recency and Sorted
--   for the access order.
-- Retry: RetryRepeat.kt. The loops of retryIf, retryWithFibonacci and retryWithCappedBackoff are
--   one loop with a test, a delay and a next delay; Loop says how they end. Recording is
--   retryWithHistory, with History about its result, and Repeat the repetitions, with Rounds about
--   repeatUntil.
-- TimeLimiter: TimeLimiter.kt, over `withTimeout` as a parameter. Counts is about the counters of
--   interleaved calls, and Retrying about executeWithRetry. All is executeAll, whose calls take
--   turns; Order, Totals and Results are about what it gives and counts.
-- Bulkhead: `Bulkhead` of Bulkhead.kt, with the acquisition of a permit as a parameter of
--   `execute`. Interleaving is the step relation over its transactions, with the number of free
--   permits, of which a call takes one when there is one; Bounds is on it. Registry is
--   BulkheadRegistry.
--
-- Registry: CircuitBreakerRegistry of CircuitBreaker.kt, whose transactions those of RateLimiter.kt
--   and TimeLimiter.kt share, and getOrCreate of CacheRegistry of Cache.kt. Shared is about
--   interleaved calls, and Bulk has the operations of all registries on all their values, over a
--   heap.
-- Stm: stm/StmHelpers.kt and stm/StmExtensions.kt, each operation as a function on the values of
--   the variables. Permits is about the semaphore, and Window compares the rate window, in
--   milliseconds, with the limiter of SlidingWindow, in nanoseconds.
-- Site: the scripts of the documentation pages. Each module has the page as far as its script reads
--   or writes it: elements have numbers where it matters which one they are, an attribute or a
--   class is a field, and a missing attribute or element is `none`. An event is a call of its
--   handler, and events come one after the other, as they do in a browser. Entries of the local
--   storage are fields, parsed. Text has strings as lists of code units.
--   platform-content-handler.js is Filters, Platforms, Tabs, Anchors, Theme and Load: the source
--   set filters (Persistence is about the local storage, Display with Blocks about what the page
--   shows, and Choice about the set of the active ones, on which a click is a Switch), the blocks
--   that depend on the platform, the tabs (Repeated and Restored), the anchors (Highlight), the
--   dark mode with the theme of the samples and the script at the head of index.html (Kept), and
--   the listener of `load`, which calls the initialisation of the others in turn (Complete).
--   Navigation is navigation-loader.js, Parameters symbol-parameters-wrapper_deferred.js, and
--   Clipboard clipboard.js. What the browser does is a parameter: the computed style, the layout
--   and its numbers, and `execCommand`; so are navigation.html and `sourceset_dependencies`. What the
--   library KotlinPlayground does after it is called are events of Theme.
--
-- Loops run on fuel and give Option, with `none` for no fuel left. The retrying loops start with
-- one round more than the retries, and executeWithRetry with two; the theorems on them say that the
-- result is there. `RateLimiter.execute` may wait for ever, so its fuel is an argument, the number
-- of rounds. The repetitions recurse on the number of rounds. The loop of navigation-loader.js
-- starts with one round more than the id of the page has characters, as each round makes it
-- shorter; the theorem on it says that the result is there.
--
-- Times and durations are natural numbers, and clock readings are arguments. Not modelled: loggers,
-- the text of exceptions, jitter (a delay is an arbitrary action on the world), ratios in Double,
-- the builders of configurations, executeRace, the cancellation of the other sagas or calls when
-- one of executeAll throws, two executions of one Saga object at once, calls of a SagaBuilder after
-- `build`, and the functions that only call a Schedule or withTimeout of a library or only read one
-- variable. Of docs/scripts: main.js, a minified bundle, prism.js, a copy of the library Prism,
-- sourceset_dependencies.js, which is generated data, `refreshPlaygroundSamples`, which calls the
-- editor of the samples, and the links of the footer. Transactions are taken to be atomic and to
-- succeed.
pub mod Base
pub mod CircuitBreaker
pub mod RateLimiter
pub mod Cache
pub mod Registry
pub mod Stm
pub mod Retry
pub mod TimeLimiter
pub mod Bulkhead
pub mod Site
pub mod Saga
pub mod SlidingWindow
