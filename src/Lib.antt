-- ===== src/Lib.antt =====
-- Prism plan: the Go services of a task board with separate write and read models.
--
-- The services and how they interact:
--   - prism-api takes commands over HTTP, stamps them, and hands them to a pool of goroutines, which
--     put them into a queue; it serves the tasks and the settings of a user from a cache, or from the
--     tables of the read model, page by page.
--   - domain-service (C#, not modelled) turns the commands of the queue into events.
--   - read-model-updater applies each event to the tables of the read model, writes the cache anew, and
--     publishes the event.
--   - stream-service turns published events into messages for the connected browsers.
--
-- The files and the code they follow:
--   - Shared: byte strings, integers of a fixed width, `strconv.Atoi`, tests and lists. A Go string is
--     the list of its bytes (Str). An `int` or `int64` is an integer (ℤ) whose operations wrap around
--     where the code can overflow (wrap_int64, wrap_int32).
--   - Api/Timestamps: prism-api/api/utils.go, `nextTimestampRange` (reserve is one round of its loop)
--     and, in Reservations, any number of goroutines that run it on one `lastTimestamp`.
--   - Api/Commands, Api/Base36: `finalizeCommands` and `applyCommandMetadata` of
--     prism-api/api/handlers.go; `strconv.FormatInt` with base 36.
--   - Api/Pool: prism-api/api/pool.go, the sizes of the pool and the handoff of a job to its channel.
--     A select that waits is given the events that happen meanwhile, in order; what other handlers that
--     wait for the same channel send is left out of them. Api/Pool/Workers is the
--     pool from `initCommandSender` to the end of `shutdownCommandSender`, a step relation with one
--     constructor for each step of a handler, of a worker and of the shutdown.
--   - Api/Metrics: prism-api/api/metrics.go; Log is its report. The calls on the span are a list, and
--     what is logged without the queue another; a number of milliseconds is kept as its nanoseconds.
--   - Api/Handlers: the handlers of prism-api/api/handlers.go, given what authentication, the decoder
--     of the body and the storage answer; the page size comes trimmed, and the durations that the
--     clock gives are arguments.
--   - Tokens: the continuation tokens of prism-api/storage/storage.go and read-model-updater/cache.go;
--     Tokens/Base64 is `base64.RawURLEncoding`.
--   - Storage: prism-api/storage/storage.go. Storage/Pages is `fetchTasksFromCache` on a loaded entry,
--     Storage/Fetch the reads through cache and table, Storage/Clients `New` (also that of
--     read-model-updater/storage/storage.go), Storage/Enqueue `EnqueueCommands`, whose goroutines are a
--     step relation: every step of the producing loop, of a worker and of the caller's context is one
--     constructor.
--   - Json: `encoding/json` as far as the services fill flat structs with it.
--   - ReadModel/Events: read-model-updater/domain/events.go and entities.go. ReadModel/Tasks:
--     task_service.go over the interface TaskStorage, with the specification of a row in Project.
--   - ReadModel/Users: user_service.go over UserStorage. ReadModel/Process: orchestrator.go and
--     processor.go, whose calls after an accepted event are a list of effects. ReadModel/Cache:
--     cache.go, up to the request that goes to Redis (CacheWrite), and in Cache/Transparent what
--     prism-api makes of the entry. ReadModel/Tables: storage/storage.go over the clients of Azure
--     (TablesClient), whose bodies of JSON are records of columns; Tables/TaskTable and
--     Tables/UserTable are it as the storages that the two services count on.
--   - Stream: stream-service. Registry is the map of clients of api/handlers.go, where a channel is a
--     number and holds at most one message; Messages is domain/subscription.go, from a decoded event to
--     the payload, Subscription the loop around it; Keys is domain/consts.go. Hub is the life of the
--     connections, with the lock making each operation on the registry one step, Hub/Received what a
--     connection is sent and receives over a run; Sse is what `stream` writes, where a write that fails
--     may have taken a part of its bytes, and Sse/Parser how a browser reads it.
--   - StorageInit: storage-init/main.go, which makes the tables and the queues; the account is a state
--     that each call takes to another.
--   - Startup: the `main` of the three services, as far as they turn the environment into settings, and
--     the handler of read-model-updater/main.go. `log.Fatal` is an error.
--   - Auth: UserIDFromAuthHeader of prism-api/api/auth.go and stream-service/api/auth.go; Verifier is
--     what they use of golang-jwt.
--   - Examples: the theorems at concrete inputs.
--
-- Bounds and fuel: the retry loop of the task service runs on fuel and answers `running` where the
-- fuel is used up; 2^64 + 1 rounds are enough, since each round meets a newer timestamp, which is an
-- int64. The other loops are structural. The keys of a table are shorter than 2^32 bytes, as a length
-- prefix has 32 bits. Timestamps keep clear of the end of int64, which the clock reaches in the year
-- 2262.
--
-- Parameters: the tables, the queue, Redis, the JWT library and the codec sonic are arguments
-- (Backend, TaskStorage, UserStorage, TablesClient, CacheUpdater, Verifier, AzureClients, Account,
-- Libraries, the replies of the queue), with what the code relies on as named laws (TableLaws,
-- UserTableLaws, ClientLaws, UserClientLaws, AccountLaws, RejectsIntegers, ConflictLaws, KeysFit,
-- ListingLaws, SameTable).
--
-- Not modelled: the log levels and the middleware of the services, the routes and the listening, the
-- warm-up that prism-api starts with (its probes are in Storage/Fetch), the pool of timers of the
-- command sender, the tools for tests, and all that is not written in Go. Log lines are left out, but
-- for those of the pool's workers.
pub mod Shared
pub mod Api
pub mod Tokens
pub mod Storage
pub mod Json
pub mod ReadModel
pub mod Stream
pub mod Auth
pub mod StorageInit
pub mod Startup
pub mod Examples
