-- ===== src/Lib.antt =====
-- TaxLien gateway: the Python gateway of legacy/app. Clients of the public API and scraping
-- workers send it requests; it authenticates them, limits their rate, counts their daily
-- quotas, relays public requests to the upstream services (parser and ml) behind circuit
-- breakers, and hands tasks out to the workers through queues in Redis.
--
-- How a public request goes: AuthMiddleware (legacy/app/core/auth.py) makes its AuthContext or
-- answers 401; RateLimitMiddleware (legacy/app/core/ratelimit.py) takes a token of its bucket
-- or answers 429; the handler (legacy/app/api/v1) asks enforce_tier
-- (legacy/app/core/authorization.py), which counts the call in the daily quota
-- (legacy/app/services/usage.py); the handler answers from the cache or asks an upstream
-- service by ServiceClient.request (legacy/app/services/http_client.py), which the service's
-- CircuitBreaker lets through or not. A worker's request goes through AuthMiddleware to the
-- handlers of legacy/app/api/internal, which use WorkerQueue
-- (legacy/app/services/worker_queue.py) and store results in PostgreSQL
-- (legacy/app/services/properties.py).
--
--   Models.Auth, Models.Worker: legacy/app/models/auth.py and legacy/app/models/worker.py, a
--     record for each pydantic model. AuthContext.tier holds a member of UserTier or the plain
--     text of a token's claim (`Tier`), since the assignment in legacy/app/core/auth.py is not
--     validated.
--   Http: requests, responses, and what a handler comes to (a response, an HTTPException, an
--     exception that nothing catches).
--   Redis: the commands that the gateway issues, as an interface with the laws that their
--     documentation states; Redis.Memory is a store in memory that has the laws.
--   Breaker: legacy/app/services/http_client.py, class CircuitBreaker (record_success,
--     record_failure, can_execute); History reads the state off the calls made so far,
--     Interleaving is the step relation of calls that overlap.
--   ServiceClient: legacy/app/services/http_client.py, class ServiceClient (__init__ is
--     new_client, request); Failing follows the calls of a failing service.
--   RateLimit: legacy/app/services/ratelimit.py: TOKEN_BUCKET_LUA is token_bucket, then
--     RateLimiter.check and is_rate_limited; Ticking sets it against a bucket that is refilled
--     all the time.
--   Usage: legacy/app/services/usage.py: TIER_LIMITS, UsageTracker.check_and_increment and
--     get_user_usage.
--   WorkerQueue: legacy/app/services/worker_queue.py: push_task, pop_tasks and complete_task,
--     with the two loops of pop_tasks as structural recursion on the platforms and on the
--     priorities 1 to 4. Workers is the step relation of many workers whose Redis commands
--     interleave, with Runs, where whole operations are runs of its steps, Operations, any
--     sequence of them, and Contents, what several lists hold together; Programs has the
--     operations as programs that await one Redis command after another, Handlers the handlers
--     that run at the same time, each with its program, and Shapes the two loops of the pop and
--     the completion under any predicate on programs; Threads follows all the lists in use
--     under them, Custody the list of one worker, HandOut how often a text is handed out, and
--     Commands what a program can come to; Others is what others do between two commands of
--     complete_task; Waiting, Drain, Rounds and Fairness follow a worker that keeps asking.
--   Auth: legacy/app/core/auth.py, AuthMiddleware.dispatch, in its three stages.
--   Gateway: legacy/app/core/ratelimit.py, RateLimitMiddleware.dispatch is limit_request;
--     serve_public is a request from AuthMiddleware to its handler; Gate says what a request
--     can come to, Flood counts the requests that reach handlers.
--   Metrics: legacy/app/core/metrics.py, the counter, the histogram and PrometheusMiddleware
--     (record_request).
--   Apps: legacy/app/apps: create_public_app, create_parcel_internal_app and
--     create_party_internal_app, an App being its middleware and its routes, and go_through, a
--     request on its way through a stack of middleware; Apps.Routes: the routers of
--     legacy/app/api, with find_route; Apps.Public: the public application with its handlers
--     (dispatch); Apps.Internal: the internal ones with theirs, over a Redis that has a
--     database session and files beside it (Redis.Beside). Stack, Counting, Access, Unrouted,
--     Searches and Work say what the applications come to.
--   Api: legacy/app/api/v1/properties.py, search.py, top_lists.py, predictions.py and usage.py
--     there, and legacy/app/core/authorization.py: the handlers over a world of Redis, the
--     breakers and the metrics; Reports sets the usage report against the check that counts.
--   Internal: legacy/app/api/internal/parcel/work.py and tasks.py, and monitoring.py: get_work,
--     complete, fail_task and worker_heartbeat. Internal.Party: the handlers of
--     legacy/app/api/internal/party, whose text is the same.
--   Proxy: legacy/app/api/internal/proxy.py, create_proxy and rotate_proxy.
--   Cache: legacy/app/services/cache.py, CacheService, which no handler calls.
--   Lifecycle.Manager: legacy/app/core/redis.py, RedisManager and get_redis; Lifecycle.Session:
--     get_db of legacy/app/core/db.py, where an `Exception` and a cancellation differ;
--     Lifecycle.Engine: DatabaseManager there; Lifecycle.Logging: legacy/app/core/logging.py;
--     Lifecycle.Servers: run_servers of legacy/app/main.py with init_firebase of
--     legacy/app/core/auth.py; Lifecycle.Main: the process that main.py is; Lifecycle.Settings:
--     what these read of the settings.
--   RawFiles: legacy/app/api/internal/raw_files.py: upload_raw_file on a dictionary of files,
--     with the fate of its calls of the operating system.
--   Database: legacy/app/models/parcel.py and a session on its table, as an interface with the
--     laws of a PostgreSQL transaction; Database.Memory is a table in memory that has the laws.
--   Results: legacy/app/api/internal/parcel/results.py with legacy/app/services/properties.py
--     and the commit of legacy/app/core/db.py: submit_results; Counts, Persist and Loss say
--     what its response counts and what is in the table afterwards.
--
-- Times are natural numbers of microseconds, and `time.time()`, `date.today()` and the answers
-- of other services are arguments. Tokens of a bucket are counted in ten-millionths, so that
-- the rates 0.1 to 10 tokens per second are whole numbers of units per microsecond; the
-- rounding of floating point numbers is not modelled. All loops of the code are structural
-- recursion: no fuel is used anywhere. The calls that Drain repeats are counted by the tasks
-- that wait. Numbers are unbounded, as Python's are.
--
-- Parameters, since their code is not in the repository: Redis (the interface of that name,
-- whose laws Redis.Memory has), PostgreSQL behind SQLAlchemy (Database), the JSON texts of
-- pydantic models (WorkerQueue.Codec), the settings of the missing legacy/app/core/config.py,
-- the verification of a Firebase token, and httpx (the reply of an upstream call). While
-- `request` awaits its answer other tasks may do anything to the breakers (`meanwhile`), and
-- the operations of the queue interleave command by command (WorkerQueue.Handlers); the other
-- handlers are taken to run alone.
--
-- Not modelled: the entries that are logged, failing Redis commands in the services, a lost
-- database connection, other transactions that write at the same time, the routes that FastAPI
-- adds for its documentation, and the Go gateway beside legacy/. Starlette's router and
-- CORSMiddleware, uvicorn's servers and the names of its log levels, the file system, the proxy
-- service, json, hashlib and the text that Prometheus makes of the metrics are parameters.
pub mod Prelude
pub mod Models
pub mod Http
pub mod Auth
pub mod Redis
pub mod Breaker
pub mod ServiceClient
pub mod RateLimit
pub mod Usage
pub mod WorkerQueue
pub mod Database
pub mod Results
pub mod Internal
pub mod RawFiles
pub mod Proxy
pub mod Metrics
pub mod Api
pub mod Cache
pub mod Gateway
pub mod Apps
pub mod Lifecycle
