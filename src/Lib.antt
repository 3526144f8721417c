-- ===== src/Lib.antt =====
-- AntreTix sells concert tickets to a crowd that waits in a virtual queue. This library models the
-- parts that decide who is let in and who gets a ticket, and proves what makes them correct.
--
-- The program. Redis holds the waiting room and a fast copy of the stock, PostgreSQL the orders. Lua
-- scripts (packages/lua/scripts) change Redis in one atomic step each; three functions in PL/pgSQL
-- (packages/db/prisma/migrations) change PostgreSQL in one statement each; packages/core puts the two
-- together, and is called by the API (apps/api) and by the background jobs (apps/worker).
--
-- Which file models which part:
--   Shared/Constants, Keys, Policy, Errors, Eta: packages/shared/src, files of those names.
--     Shared/Double: the floating-point numbers that Eta uses, a record of operations with laws.
--   Redis: the interface of Redis, a record of commands with one documented law for each. The store
--     is a parameter of everything above it. Redis/Memory fills the record with a table, which the
--     examples run on; Redis/Order has the laws of sorted sets.
--   Lua/Stock: reserve.lua, release.lua. Lua/Queue: join.lua, admit.lua, cleanup.lua. Lua/Status:
--     status.lua. Lua/RateLimit: ratelimit.lua. Lua/Leader: leader.lua.
--   Database/Schema: schema.prisma. Database/Functions: antretix_reserve_order.
--     Database/Settlement: antretix_pay_order, antretix_release_order.
--     Database/Tally and Database/Consistency: the invariant of the tables and its proofs.
--   Lua/Queue/Line, Core/Queue/Moving, Core/Queue/Fifo: the waiting room as an abstract line, which
--     each call moves, and how the queue in Redis refines it.
--   Core/Events: packages/core/src/events.ts. Core/OrderViews, Core/Orders, Core/Releases: orders.ts.
--     Core/Payments: payments.ts. Core/Reconcile: reconcile.ts. Core/Queue: queue.ts.
--     Core/Admin: admin.ts, with upsertEvent in Core/Admin/Saving. Core/Context: context.ts.
--   Worker: apps/worker/src/jobs.ts. Worker/Turns: every, withJobLock. Worker/Syncing: syncEvents.
--     Worker/Admitting: admissionTick. Worker/Cleaning: cleanupTick. Worker/Periodic: expiryTick,
--     reconcileTick.
--   Core/InStep: the two stores together, over orders.ts and payments.ts.
--   Core/Interleaving: createOrder, releaseOrder and the payment statement of many requests at once,
--     as tasks that take turns in steps. A step is one script in Redis or one statement in PostgreSQL.
--     A process that stops in the middle of a request is left to the reconciliation.
--   Database/Passwords: packages/db/src/password.ts.
--   Shared/Json: the values of JSON, with the checks of Zod as a record of documented laws.
--   Api/Replies: setErrorHandler of apps/api/src/app.ts, and the bodies with a state of the queue.
--   Api/Protection: apps/api/src/protection.ts. Api/Auth: apps/api/src/auth.ts.
--   Api/Routes: requireEvent of apps/api/src/routes/events.ts. Api/Routes/Events: the rest of it.
--     Api/Routes/Orders: routes/orders.ts. Api/Routes/Waiting: routes/queue.ts.
--     Api/Routes/Stream: the stream of events of routes/queue.ts. Api/Routes/Accounts: routes/auth.ts.
--     Api/Routes/Administration: routes/admin.ts. Core/Events/Cache: EventMetaCache of events.ts.
--   Web/Connection: useQueueState of apps/web/lib/queue.ts. Web/Client: api of apps/web/lib/api.ts.
--     Web/Schemas: the schemas of packages/shared/src/types.ts that the pages read the answers with.
--     Web/Checkout: apps/web/app/events/[id]/checkout/page.tsx, apps/web/components/QueueWatcher.tsx.
-- A function keeps its name in snake case: createOrder is create_order.
--
-- How the program's data appears:
--   Identifiers, codes and names are opaque strings that are only compared, so natural numbers. A key
--     of Redis is a constructor with the identifiers that its template puts in.
--   Times are milliseconds. A score of the queue is a number of 2^-53, so that a random number below
--     1 and a time are both whole; join.lua and Math.random() give no others.
--   A counter of Redis is an integer. An integer column of PostgreSQL is a natural number, since the
--     CHECK constraints keep it from going below 0; a statement that would break a constraint raises.
--   Tables are lists with the newest row first. PostgreSQL runs the functions one after another, as
--     their row and advisory locks order them, so a history of calls is a list of statements.
--   An operation of packages/core acts on a World, the two stores, and ends with a value, an AppError
--     or another error. Where it waits, other requests may run: they are a function on the World that
--     is a parameter. The theorems say when it does nothing.
--   Random draws (UUIDs, codes, Math.random()) and the clock are arguments. The HMAC is a parameter.
--   What a schema of Zod makes of an input is an option: nothing if it refuses, which the API answers
--     as VALIDATION_ERROR. EventMetaCache is a function from identifiers to events in the
--     routes that only read it.
--   JSON Web Tokens are a record of sign and verify with what fast-jwt documents: a token verifies
--     until it ends, and not afterwards. The answer of the Turnstile service is a function.
--   The do loops of cleanupTick and expiryTick have a bound on their rounds: one more than there are
--     heartbeats, or orders. A full batch takes that many heartbeats away, or PENDING orders.
--   A job of the worker reads the clock once, where the code reads it again while it goes on.
--   handlePaymentNotification calls itself when it loses a race; the model counts the rounds. Two
--     are enough: an order that is no longer PENDING, and that nobody makes so again, ends the second.
--
--   The browser's EventSource, timers and requests are a step relation: only an open stream sends,
--     only a running timer fires, and only a request that was sent is answered. JSON.stringify and
--     JSON.parse are a record with the law that what was written is read back; the checks of Zod on a
--     text, a number, a boolean or an object are a record with the law that a value of the kind passes
--     as it is. scrypt is a parameter.
--
-- What is not modelled: loading the scripts and EVALSHA, the Prisma client, HTTP, metrics and
-- environment variables, which are I/O; the markup of apps/web and the storage of the browser; the
-- lint plugin under tools/oxlint; of admin.ts resetEventForLoadTest, which deletes keys by pattern, and
-- suspiciousSignupIps, one SQL report; the lists of events and the routes for load tests.
pub mod Api
pub mod Common
pub mod Core
pub mod Database
pub mod Lua
pub mod Redis
pub mod Shared
pub mod Web
pub mod Worker
