-- ===== src/Lib.antt =====
-- The resume analysis queue: an API that admits jobs under limits, a worker that runs them on a
-- language model, and Redis between the two.
--
-- The parts of the program and their files
--   Redis       redis/keys.ts, redis/keys.types.ts. Keys and cells, and the server as an interface:
--               its state, its commands and the documented effect of each command on its own key.
--               Memory is a server in memory that meets the interface.
--   Scripts     redis/luaScripts/*.lua, types/queueCodes.ts. The five scripts, each a function from
--               its keys, its arguments and the state to its answer and the state after it.
--               History runs them in any order, with the commands beside them.
--   Modes       types/mode.ts, utils/mode.ts.
--   Limits      services/limitsCache.ts. The limits of a user, cached in a hash, and Preload
--               (services/userLimitsPreloader.ts). What the database answers is an argument.
--   Models      services/modelSelector.ts. The pools by priority and the chain that a mode may use.
--   Admission   routes/resume: QueueLength (queueUtils.ts), Selection (modelSelection.ts) and
--               Submission (prepareJobSubmission.ts, enqueueJob.ts).
--   Worker      worker: Consume (consumeLimitsIfNeeded.ts, consumeModelLimits.ts, returnTokens.ts),
--               Execute (executeModel.ts), Finalize (markInProgress.ts, finalizeSuccess.ts,
--               finalizeFailure.ts), Job (handleJob.ts), Failed (queueEvents.ts),
--               Concurrency (concurrencyManager.ts), Preflight (preflight.ts) and
--               Lifecycle (index.ts, configSubscription.ts).
--   Streaming   routes/resume/streamingLogic.ts: what a client reads of a stream. Live is the live loop,
--               on a list of the rounds that it meets, and Wire the text on the socket (utils/sse.ts).
--   Routes      routes/resume/resume.ts: submit a job, and read its status, result and stream;
--               Recent (its list of recent jobs, utils/queryUtils.ts) and Admin (routes/admin).
--   Server      server/app.ts and plugins: the hooks before a handler; Health (routes/health.ts).
--   Cron        cron: Expire (expireStaleJobs.ts), Locks (cleanupOrphanLocks.ts, utils/runWithLock.ts)
--               Reload (reloadModelLimits.ts) and Sync (syncDbResults.ts).
--               Schedule (index.ts) has the timers.
--   Shutdown    utils/shutdownEmitter.ts, and Process what the API closes on a signal (plugins).
--   Maintenance scripts/: Cleanup (cleanupStaleJobs.ts, with utils/scanKeys.ts of cron) and Admin
--               (makeAdminExisting.ts, createAdminUser.ts).
--   Errors      ai/utils/errorUtils.ts, ai/providers/gemini/errorMapping.ts and isRetryableError of
--               ai/providers/gemini/GeminiProvider.ts; Patterns has the search in messages.
--   Gemini      ai/schema (Schema, Definitions, Service), ai/providers/gemini/builders (Prompt), and
--               GeminiProvider.ts with ai/ModelProviderService.ts (Provider).
--   Database    db/client.ts: connections and transactions, over PostgreSQL as an interface.
--   Js          Number(text) and String(number) of the language, on integers.
-- All paths are below src/ of the repository, but for those of scripts/, which is beside it.
--
-- How they interact: a submission reads the limits of its user (Limits) and the chain of its mode
-- (Models), runs the admission script for each model of the chain until one is selected (Selection),
-- takes a slot in the queue of that model and writes the meta hash of the job (Submission). An attempt
-- of the worker reads that hash, charges the model once, calls the provider, writes the stream and the
-- result (Job). The 'failed' event gives back what a job that failed for good had taken (Failed), and
-- the expiry what a job that waited too long had taken (Cron).
--
-- The cron jobs run in every process of the API: Locks has them as steps that interleave. A request
-- reaches a handler through the hooks of Server, and a signal ends the process (Shutdown). Wire is the
-- text that a client of the stream gets.
--
-- Arguments of the model: the server, what the database answers, the clock and the Pacific date, the
-- id of a job, what the provider answers and how its stream ends, whether BullMQ takes a job, and
-- the state that it reports of a job, Fastify with its schemas, and the service of accounts. An error
-- of the Redis connection is not modelled.
--
-- Numbers: counters and limits are integers; Redis keeps 64-bit ones and JavaScript doubles, which
-- these counts do not reach. A numeric text is an integer literal; another text reads as not a number,
-- and as 0 where a count is wanted. The fraction 60 / avgSeconds and the factor 0.9 of the queue
-- bound are computed exactly (27 minutes of work).
--
-- Loops are structural: over the chain, the keys of a scan, the chunks of a stream, the attempts at a
-- job and the observed rounds of a live connection, so no fuel is needed. A theorem on the live loop is
-- on the rounds that it has met. The wait of Preflight takes fuel, a round for each millisecond of its
-- timeout, which is enough where a round takes time. The slices of the synchronisation take a unit for each
-- key, which is enough, and the search over the pages of accounts the 50 of the source.
--
-- The events of a shutdown are a list: signals, the end of the close of the server, and the handlers
-- one by one. The order of the recent jobs is a parameter of each query, and so is what PostgreSQL asks
-- of a row beside the columns that may not be null.
--
-- Not modelled: the plugins that open connections, the options of the clients of Redis and
-- PostgreSQL, the queues and workers of BullMQ, and the generated types.

mod Prelude
pub mod Redis
pub mod Js
pub mod Memory
pub mod Scripts
pub mod Modes
pub mod Limits
pub mod Admission
pub mod Models
pub mod Worker
pub mod Streaming
pub mod Routes
pub mod Cron
pub mod Maintenance
pub mod Server
pub mod Shutdown
pub mod Patterns
pub mod Errors
pub mod Gemini
pub mod Database
pub mod Examples
