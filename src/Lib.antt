-- ===== src/Lib.antt =====
-- llmshim is a library, a proxy and a gateway between callers and the providers of language models.
-- A call names a model; the router finds the provider and the model, the shim translates the
-- request, the client dispatches it, and the answer, whole or streamed, is translated back. The
-- gateway adds tenants: limits, budgets, and replies that are replayed.
--
-- Parts, and how they interact:
--   the fallback chain asks the router for a target and the breaker for admission, dispatches
--   through the client, tells the breaker what came of it, and tries again or goes on to the next
--   model. Each dispatch is an attempt that a policy admits; in the gateway the policy is the
--   local attempt rates, which ask the token buckets and the spend ledger. The body of a streamed
--   answer goes through the decoder of server-sent events. The proxy's lifetime ends a stream that
--   takes too long, and may write an event of its own only at a boundary. The gateway's cache
--   replays a response that it has stored under the request's key. The policy context makes a
--   tracker for each attempt that the policy admits, and the tracker tells the policy how it ended.
--   What comes from outside is bounded before it is used: the proxy's rate limiter refuses requests,
--   the parser of bounded JSON refuses values, and the schema budget refuses schemas. While a tool
--   call is streamed, the progress reporter tells a reader of its steps.
--
-- Files, and the code that each is about:
--   Common        the library names that are passed on, tests on numbers and texts, maps, sums over
--                 maps, words of 64 bits, and `Float`, the interface for f64
--   Error         src/error.rs: ShimError, Result
--   Breaker       src/breaker.rs: ProviderBreaker, SharedHealth; its proofs in Breaker/Lookup,
--                 History, Threshold, Window, Probe and Shared
--   Sse           src/sse.rs: DataStream, one poll, one byte, one line; UTF-8 in Sse/Utf8; its proofs
--                 in Sse/Bounds, Text, Chunks, Lines and RoundTrip
--   Attempt       src/policy.rs: AttemptKind, AttemptAccounting, AttemptOutcome
--   Budget        src/gateway/budget.rs: the quotes and observations, may_finalize
--   Rates         src/proxy/ratelimit.rs: ProviderLimit, RateLimitConfig::resolve; TokenBucket,
--                 KeyBuckets and InMemoryRateLimiter in Rates/Limiter; proofs in
--                 Rates/Limiter/Keys and Penalty
--   Buckets       src/gateway/attempt.rs: Bucket, check_dimension, debit_dimension
--   Ledger        src/gateway/attempt.rs, the budget fields of LocalRateState: Ledger/Expiry is
--                 purge_expired_budget_state, Ledger/Usage observe_usage, Ledger/Settlement finish,
--                 Ledger/Admission the budget part of acquire_at_epoch; proofs in Ledger/Coverage,
--                 Ledger/Outcomes, Endings and Calls
--   LocalRates    src/gateway/attempt.rs: LocalAttemptRates, with acquire_at_epoch as a whole and
--                 penalize; proofs in LocalRates/Outcomes,
--                 Explained, Answers and History
--   Fallback      src/fallback.rs: completion_with_fallback_inner and is_retryable; DispatchFailure
--                 and breaker_outcome of src/client.rs; the refusals of src/policy.rs; proofs in
--                 Fallback/Bounds, Refusals and Answers
--   Boundary      src/proxy/lifetime.rs: SseBoundary; proofs in Boundary/Lines
--   Idempotency   src/gateway/idempotency.rs: IdempotencyCache; proofs in Idempotency/Removal, Room,
--                 Storage, Generic, Replay and History; Idempotency/Digest is digest_parts,
--                 Idempotency/Estimate the footprint of an entry, with its proof in Estimate/Total
--   Retention     src/stream_retention.rs: StreamRetentionLimits, RetainedBudget; proofs in
--                 Retention/Held
--   Json          serde_json::Value, with the capacities of its allocations; Json/Stack is the loop over
--                 values that wait on a stack
--   Bounded       crates/llmshim-catalog/src/bounded_json.rs: Limits, Usage, measure_value; the parser
--                 in Bounded/Parse; proofs in Bounded/Visit, Measure, Parse/Charges and Parse/Against
--   ToolProgress  src/toolcall/progress.rs: ProgressReporter; proofs in ToolProgress/Protocol and Reader
--   Tracker       src/policy.rs: DispatchPolicyContext::acquire, AttemptTracker and its guards as a
--                 step relation; proofs in Tracker/Endings
--   Router        src/router.rs: parse_model, route_target, expand_route, resolve_key, resolve; Route of
--                 src/config.rs; proofs in Router/Routes
--   SchemaBudget  src/schema/budget.rs: measure; RequestBudget in SchemaBudget/Request and Locations;
--                 proofs in SchemaBudget/Measure, Reservations and Within
--   Modules named Examples run the theorems at concrete inputs.
--
-- Conventions:
--   a method that changes `self` is a function that returns the new state; a call under a mutex is
--   one step. Time is an argument: an instant or a duration is a number of nanoseconds, an epoch a
--   number of seconds. A map is a list with one entry for each key. Where the code may panic on a
--   missing bucket or a total that was tested before, the function returns an Option, and `none` is
--   the panic. A UUID is a number. `u64` and `usize` are numbers; `checked_add`, `checked_sub`,
--   `saturating_add` and `saturating_mul` keep the bound of the word.
--
-- Bounds and fuel:
--   the breaker, the chain and the ledger need no fuel: their loops run on lists and on counters.
--   `purge_expired_budget_state` runs 128 rounds, the code's own limit. The purge of the idempotency
--   cache runs a round for each record of the index, and each round takes one away. A poll of the
--   decoder is given the rounds that its source and its bytes can use; that they suffice is part of
--   what is shown of it. A walk over a value with a stack is given a
--   round for each value in it, as many as it can take. The parser recurses on the events of its input.
--
-- Not modelled:
--   the deserializer of serde_json, whose calls are the parser's input, and the growth of vectors,
--   which is a parameter. In the router, the catalog's table, `to_lowercase` and the text of `{:?}`
--   are parameters. SHA-256, of which only the bytes that it is given are modelled.
--   f64 arithmetic, of which nothing is assumed: what the token buckets grant is whatever the
--   arithmetic says. The Redis backends of the gateway, which run Lua. Translation of requests,
--   responses, tools, schemas and reasoning for each provider. Making a client (bound_client of
--   src/lib.rs), whose failure is an argument of the chain. HTTP, OAuth and signing, logging,
--   configuration from the environment, metrics, the command line, and the clients in other
--   languages.
pub mod Attempt
pub mod Boundary
pub mod Bounded
pub mod Breaker
pub mod Buckets
pub mod Budget
pub mod Common
pub mod Error
pub mod Fallback
pub mod Idempotency
pub mod Json
pub mod Ledger
pub mod LocalRates
pub mod Rates
pub mod Retention
pub mod Router
pub mod SchemaBudget
pub mod Sse
pub mod ToolProgress
pub mod Tracker
