-- ===== src/Lib.antt =====
-- anyhook: a webhook delivery engine. A producer calls `send`; the engine stores one message for each
-- endpoint that subscribes, and a worker calls `processMessage` for each message, which delivers it,
-- retries it on a schedule, opens the circuit of an endpoint that fails, or adds it to the dead letters.
--
-- Where things are:
-- - Types: packages/core/src/types.
-- - Policy.Circuit, Policy.RateLimit, Policy.Retry, Policy.Outcome: packages/core/src/policy, a module for
--   each file, jitter.ts with Retry.
-- - Id, Fanout, Deliver: packages/core/src/id.ts, fanout.ts, deliver.ts.
-- - Ports: packages/core/src/ports/index.ts, the interfaces of the engine. A port is an action on a world:
--   a record of operations that Engine takes as a parameter.
-- - Engine: packages/core/src/engine.ts. `send` and `process_message` are the methods of the same names,
--   cut into one function for each branch (accept; to_endpoint, rate_gate, circuit_gate, pass_gate, park,
--   attempt_delivery, on_result, reschedule, dlq). Engine.Within and Engine.Simulation are what the engine
--   keeps over any ports.
-- - World: packages/testing/src/memory-transport.ts, memory-scheduler.ts, test-clock.ts around a store, with
--   the HTTP target, the signer, the URL policy and the draws as a parameter, `Outside`.
-- - Spec: what a store promises, as tables by tenant and key. Spec.Settled, Spec.Isolation and Spec.Accept
--   are about the engine over it.
-- - Memory: packages/testing/src/memory-state.ts, the in-memory store, its queries with Listing.
--   Memory.Refines relates it to Spec, and Memory.Delivery carries the theorems on the engine over.
--   Memory.State is the whole StateStore in its world, and Memory.Rewrites is about the methods that change
--   an endpoint.
-- - Run: the loops of packages/testing/src (drain, advance, runDeliveries of harness.ts) and the clock.
--   Run.Drain is about one drain, Run.Advance about the schedule, and Run.Rounds about runDeliveries.
-- - Portal: packages/core/src/portal/endpoints.ts and deliveries.ts over any StateStore. Portal.Replay and
--   Portal.Bulk are about replays over the in-memory store.
-- - Cloudflare: packages/cloudflare/src/tenant-do.ts (Tenant) and endpoint-do.ts (Endpoint), over a storage
--   that is a parameter. Tenant.Events is about the accepted events, Endpoint.Schedule about the
--   alarm, and Endpoint.Release about processDueSchedules.
--   Cloudflare.Names is endpointDoName of env.ts, and Cloudflare.Store is state-do.ts and scheduler-alarms.ts,
--   the routing to the objects.
-- - Fetch: packages/aws/src/http-fetch.ts and packages/cloudflare/src/http-fetch.ts, which have the same code.
-- - Receiver: packages/testing/src/mock-receiver.ts.
-- - Portal.Web and Portal.Http: packages/core/src/portal/http.ts, the router, with a request whose URL is
--   parsed and whose body is read. Portal.Http.Routes is about whose data a request reaches.
-- - Security: packages/core/src/security/url-policy.ts, the forms of a host (Security) and the check
--   (Security.Policy). Security.Fields describes the numerals of an address, and Security.Ranges is about the
--   addresses that are refused.
-- - Aws: packages/aws/src. Aws has config.ts, Aws.Table the items of the single table and the commands of
--   DynamoDB, which are a parameter with their documented behaviour. state-dynamo.ts is in Aws.Items (reading
--   and paging), Aws.Tenants (events and endpoints), Aws.Log (messages, attempts, dead letters) and Aws.Gates
--   (circuits and buckets); Aws.Calls lists its methods as data. Aws.Scheduler, Aws.Sweeper and Aws.Transport
--   are the files of the same names, and Aws.Adapter is adapter.ts.
-- - Tests: concrete inputs, with Tests.Policies, Tests.Stores, Tests.Cloudflare, Tests.Aws, Tests.Sweeps,
--   Tests.Portal, Tests.Security, Tests.Objects and Tests.Adapter; Tests.Strokes is a printing of numbers for them.
-- - Signing: packages/signing/src/secret.ts and sign.ts, and verify.ts in Signing.Verify, over a decoding of
--   base64, an HMAC, a printing and a reading of numbers that are parameters. Signing.Verify.Accepts is about
--   what is signed, Signing.Verify.Authentic about what is accepted, with Signing.Verify.Parts.
-- - Rng: the seeded generator of packages/testing/src/test-clock.ts.
-- - Base: shared names, tests on numbers and texts, the monad of async methods (Base.Exec) and
--   JavaScript's Map (Base.Dict).
--
-- An async method is a function of the world that gives a result or an error, and the world after it. One
-- method runs at a time: the model has no interleaving of two calls. What a method wrote before it threw
-- stays written.
--
-- Numbers: times are in ticks, 2^53 to the millisecond, so that a draw of Math.random (a multiple of
-- 2^-53) times a whole number of milliseconds is exact. Rates are in thousandths of a delivery per second,
-- and tokens in units of 1 / (1000 * 1000 * 2^53), in which a refill is exact: the rounding of floating
-- point is not modelled, so nothing is stated on how long a refused delivery waits for a token. A text is
-- a sequence of Unicode scalar values, and a payload is its JSON text.
--
-- Fuel: the printing of a number in base 36 (`base36`) takes one unit more than the number, and each step
-- divides it by 36. The loop of `drain` takes fuel, and Run.Drain is about how much; `run_deliveries` gives
-- each drain one unit more than the messages that wait.
--
-- The loops over the pages of a query (Aws.Items.query_all, Aws.Sweeper.sweep_pages) take fuel too;
-- Aws.Items.Pages and Aws.Sweeper.Run are about how much, the latter with what Aws.Sweeper.Paging asks of
-- the index and the queue.
--
-- Not modelled: the entrypoints (the Cloudflare worker, adapter and queue transport, and the Lambda
-- handlers), which are glue around platform services and packages that are not in the repository. Two AWS
-- writers are interleaved only where a theorem says so (a circuit that is read, written by another, and
-- written again; a row that is swept twice). A read of DynamoDB without ConsistentRead is taken to see the
-- last write. An endpoint has a secret, as each is created with one: a rotation of an endpoint without any
-- is not modelled. Negative timestamps in the query of a portal request, and a status there that is none
-- of the six, are not modelled. The hash, the random source, fetch, DynamoDB, SQS and the storage of
-- Durable Objects are parameters; so are the HTTP client, the signer and the URL policy for the engine.
pub mod Base
pub mod Types
pub mod Policy
pub mod Id
pub mod Fanout
pub mod Ports
pub mod Deliver
pub mod Engine
pub mod World
pub mod Rng
pub mod Portal
pub mod Cloudflare
pub mod Aws
pub mod Security
pub mod Fetch
pub mod Receiver
pub mod Run
pub mod Spec
pub mod Listing
pub mod Signing
pub mod Memory
pub mod Tests
