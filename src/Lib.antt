-- ===== src/Lib.antt =====
-- Verification of the core of swx, a FastAPI application framework (package swx_core).
--
-- Ledger (swx_core/services/ledger_service.py, swx_core/repositories/ledger_repository.py,
-- swx_core/models/ledger.py): the append-only ledger behind wallets and billing. Ledger/Model holds
-- the rows, requests, the session and the monad of state and exceptions; Ledger/Repository the
-- queries and statements; Ledger/Service `credit`, `debit` and `refund`; Ledger/Transfers
-- `transfer`, `get_balance` and `reconcile`. The proofs: Ledger/Books (entries against rows),
-- Ledger/Posting (the `try` blocks), Ledger/Reconciled, Ledger/Legs and Ledger/TransferLaws (what
-- the operations do to the books), Ledger/History (sequences of calls), Ledger/Atomic (error
-- paths), Ledger/Replay, Ledger/Holding and Ledger/Retried (idempotency keys), Ledger/Limits
-- (overdrafts and refunds). A table is a list of rows or, under a unique column, a dictionary; a
-- session holds the tables as its statements see them beside what is committed. Fresh UUIDs, the
-- clock, the settings, which statements the database refuses and which events the event bus raises
-- for come as an argument `Env`. Amounts are natural numbers, since the
-- requests validate `amount > 0`; balances are integers of any size. Two sessions at work at once
-- are not modelled: the service takes no row locks.
--
-- Policy (swx_core/services/policy): the attribute-based policy engine. Policy/Model holds the data
-- of swx_core/models/policy.py and the interface `Python` of the object operations that conditions
-- use; Policy/Actions the action patterns; Policy/Conditions attribute paths, references and
-- operators; Policy/Engine `PolicyEngine.evaluate` and `_find_policies`; Policy/Decision what it
-- decides; Policy/Finding what `_find_policies` finds; Policy/Registry the `PolicyRegistry`. Texts are
-- lists of code points there, as the code looks into them. Logging is left out everywhere.
--
-- Job (swx_core/services/job/job_runner.py, swx_core/models/job.py): the background jobs. Job/Model
-- holds the rows and what comes from outside; Job/Runner `_acquire_job`, `_execute_job` with its
-- ways to end, `_mark_job_timeout` and `_release_stale_locks` over one table; Job/Steps tests of the
-- rows that these keep; Job/Invariants, Job/Locking, Job/Retries and Job/Stale the results. A step
-- is one committed transaction of some worker; the end of a task applies to the row as it is then,
-- since the code refreshes it or writes only the columns it sets. The query's order leaves ties
-- open; the model takes the first row.
--
-- Cache (swx_core/auth/auth_cache.py): Cache/L1 is `_L1Cache`; Cache/Auth `AuthCache` and the
-- functions on its instances, where operations that share a body share a definition; Cache/Coherence
-- sets the bounded cache against an unbounded one, Cache/Invalidation reads after writes and
-- invalidations. Times are ticks of one clock. Redis is the record `Redis` of operations that may
-- raise.
--
-- Resilience (swx_core/services/llm/resilience.py): Resilience/Breaker is `CircuitBreaker` with what
-- its histories of calls show, Resilience/Retry `calculate_backoff` and `retry_with_backoff`, whose
-- loop is recursion on the retries left; a negative number of retries makes no call. The called
-- function, the clock, the random part of a delay and the sleep act on a world that is a parameter.
--
-- RateLimit (swx_core/utils/rate_limit.py): RateLimit/Memory is the in-memory side of `RateLimiter`,
-- RateLimit/Window its guarantee; RateLimit/Service is `RateLimiter` of
-- swx_core/services/rate_limit/rate_limiter.py, RateLimit/Limits the limits by plan of
-- limit_registry.py and rate_limit_override.py beside it; Cache/Memory is `MemoryCache` of
-- swx_core/utils/cache.py. A history is a list of requests with the time since the one before.
--
-- Container (swx_core/container): Container/Model is the state of `Container` and the code it is given,
-- as programs that may make keys; Container/Make resolution, with fuel for how deep calls of `make`
-- nest; Container/Registry all other operations. Container/Frame says what a call leaves as it was,
-- Container/Keeping and Container/Restored that it does; Container/Shared is about singletons;
-- Container/Reach, Container/Answers and Container/Fuel show how much fuel is enough.
--
-- Events (swx_core/events/dispatcher.py): Events/Model is the state of `EventBus`, Events/Bus its
-- registrations, Events/Pattern `_matches_pattern`, Events/Dispatch `dispatch`, `dispatch_sync` and the
-- fired events; Events/Order is about the order of listeners, Events/Once about one-time listeners.
--
-- Billing (swx_core/services/billing, swx_core/models/billing.py,
-- swx_core/repositories/billing_repository.py): Billing/Model is the rows, the queries and the session,
-- Billing/Subscriptions and Billing/Stripe `SubscriptionService`, Billing/Entitlements the resolver and
-- the quota checks, Billing/Usage the usage window. Billing/Counting counts active subscriptions,
-- Billing/Single and Billing/History are about there being one, Billing/Resets about the window's resets.
-- The fuel of a Stripe event is the two fetches that `depth` allows.
--
-- Guards (swx_core/guards/base.py, swx_core/guards/guard_manager.py): Guards/Manager is `GuardManager`
-- over guards that are parameters, Guards/Origin is about whose users it answers.
--
-- Versions (swx_core/utils/versioning.py): Versions/Parse is the comparison and negotiation of versions,
-- Versions/Router `VersionedRouter`, Versions/Order is about the latest version.
--
-- Not modelled: routes, controllers, models and migrations (glue and declarations), the command
-- line and code generators, mail, the providers of third-party services, and the other services.
pub mod Prelude
pub mod Ledger
pub mod Policy
pub mod Job
pub mod Cache
pub mod Resilience
pub mod RateLimit
pub mod Container
pub mod Events
pub mod Billing
pub mod Guards
pub mod Versions
