-- ===== src/Lib.antt =====
-- A verification library for the database backup tool: its backend, from the HTTP
-- routes to the worker, and the logic of its web client.
--
-- The API's routes check who a request comes from, look rows up in the tenant of the request, and put
-- jobs on queues; the worker takes a job from its queue, builds an adapter for a server whose password
-- it decrypts, moves the data, and reports on the job, to the audit log and to the user; the scheduler
-- adds backups at their times and deletes old ones. The web client keeps a session, shows what its user
-- may see, and follows a job by the stream of the API or by polling. Each part is a module:
--
-- Base: shared names, tests, lists, texts, JSON with its printer.
-- Errors: src/lib/errors.ts, src/api/errorHandler.ts (`error_handler`).
-- Config: src/config/index.ts (`config`).
-- Model: prisma/schema.prisma, the rows and their enums.
-- Effects: the calls that leave the code (`Call`, `Reply`), their arguments (src/queue/types.ts,
--   src/db/adapters/types.ts, in Effects/Inputs), asynchronous code (Effects/Io) and the rules to reason about it.
-- Auth: src/auth/ (`authenticate`, `requirePermission`, `getUserPermissions`, the catalog).
-- Crypto: src/lib/crypto.ts (`encryptSecret`, `decryptSecret`).
-- Audit: src/audit/audit.ts (`audit`, `verifyAuditChain`).
-- Jobs: src/modules/jobs/jobService.ts. Queue: src/queue/index.ts (`enqueue`).
-- Servers: src/modules/servers/serverService.ts, src/db/adapters/index.ts.
-- Notifications: src/modules/notifications/notificationService.ts.
-- Tenancy: src/modules/tenancy/bootstrap.ts.
-- HashStream: src/lib/hashStream.ts.
-- Sql: the command lines and statements of src/db/adapters/mysql.ts and src/db/adapters/postgres.ts.
-- Adapters: src/db/adapters/mysql.ts (`MysqlAdapter`) and src/db/adapters/postgres.ts (`PostgresAdapter`): their
--   pools, clients, queries and child processes; Adapters/Tools has captureStderr and collectExit.
-- Worker: src/worker.ts and src/worker/processors/, with one module for each kind of job.
-- Scheduler: src/scheduler.ts and src/scheduler/.
-- Routes: src/api/http.ts and src/api/routes/, handlers of signed-in users in Routes/Requests; the order
--   of src/api/routes/index.ts in Routes/Mounting, the stream of a job with subscribeProgress of
--   src/queue/index.ts in Routes/Stream; their table in Routes/Table, their schemas in Routes/Schemas.
-- Frontend: frontend/src/: lib/api.ts and store/auth.ts in Frontend/Session, PermissionGate, ProtectedRoute,
--   Sidebar and App in Frontend/Access, the hook useJobStream in Frontend/JobStream, hooks/ in
--   Frontend/Requests, the forms of pages/ in Frontend/Forms, what pages/ compute in Frontend/Views.
-- Examples: a small environment, and the theorems at concrete inputs.
--
-- A piece of asynchronous code is a function of an environment and of the history of its calls, the
-- latest first. The environment answers each call of Prisma, Redis, BullMQ, object storage, the drivers,
-- bcrypt, jsonwebtoken and nodemailer, by a value or by an error, and may answer by the whole history;
-- so a theorem for every environment holds however the calls behave. SHA-256, AES-GCM, base64, UTF-8,
-- the printing of dates, lower case and base 36 are functions of the environment, and so is uriToKey,
-- since src/lib/storage is not in the repository. What a theorem needs of these is among its hypotheses.
--
-- The state of an adapter is its record of pools, which its methods pass on; a connection and the hook
-- useJobStream are states with a list of what happens to them, in every order.
--
-- Loops are structural recursion on their lists. The loop over the batches of an insertion takes the
-- number of rows as its fuel, which is enough since each batch removes a row. A request of the web client
-- takes how often it may be sent as its fuel; Frontend.Session.Retries says that two is enough. Progress
-- is an integer. Texts are cut by code points, a tool's standard error by UTF-16 units, which a parameter
-- decodes from the bytes of each chunk. The rows of a worksheet may have holes, its header row is taken
-- without. A JSONB column is a function on JSON values, which may order keys anew. Numbers in JSON are
-- natural. `Promise.all` is taken by how its two promises settle and in which order. A transaction is the
-- sequence of its calls. Express is taken by its order of middleware. EventSource and Redis are taken to
-- deliver nothing once they are closed or unsubscribed.
--
-- Not modelled: promises that never settle, logging, the retries of BullMQ, the drivers and the tools
-- themselves, response headers and cookies, start-up, and the views of the web client.
pub mod Base
pub mod Errors
pub mod Model
pub mod Effects
pub mod Auth
pub mod Config
pub mod Crypto
pub mod Jobs
pub mod Adapters
pub mod Audit
pub mod Queue
pub mod Scheduler
pub mod Servers
pub mod Notifications
pub mod Frontend
pub mod HashStream
pub mod Worker
pub mod Routes
pub mod Sql
pub mod Examples
pub mod Tenancy
