-- ===== src/Lib.antt =====
-- ghpulse: a dashboard of the public activity of a GitHub account in other people's repositories.
-- A scheduled ingestion fetches one complete snapshot, validates it, replaces the tables by it in one
-- transaction, invalidates the cached responses and tells the browsers. The dashboard reads the tables
-- and returns buckets of events over a range of time. Sessions decide who reaches which route.
--
-- Parts and files:
-- - Prelude: native numbers, integers, lists, dictionaries, exceptions as values, equality tests.
-- - Cache (backend/cache.py, `_TTLCache`): its entries, generation and operations; Cache/History
--   replays a log of calls. Keys are texts, times are numbers, the lock makes each call one step.
--   Cache/Refresh is the rest of the file: threads that take turns at `cache_response`, the key locks
--   and the background refreshes, in any order.
-- - Snapshot (backend/ingest.py, `_validate_snapshot` and its helpers): the JSON of the source in
--   Snapshot, the `_require_…` helpers in Snapshot/Require, the validation in Snapshot/Validate. What
--   an accepted snapshot satisfies stands in Snapshot/Sound and the files below it.
-- - Store (backend/schema.sql): rows and tables; Store/Schema has the column checks, Store/Table the
--   upserts and deletions of one table.
-- - Ingest (backend/ingest.py): Ingest/Rows has the three upserts, Ingest/Commit `_commit_snapshot`,
--   Ingest/Run `run_ingest` with the rows it opens and finishes, its lock, progress and broadcasts. It
--   uses Snapshot for the validation, Store for the tables and Cache for the responses. Ingest/Replace
--   is about one commit, and two of the same snapshot; Ingest/Run/Endings about the ways out of a run,
--   Ingest/Run/Failure about one that raises, Ingest/Run/Recorded about the rows of the runs.
-- - Range (backend/api_common.py): `_bucket_seconds`, `bucket_epoch`, `dense_bucket_bounds`; Range/Parse
--   has `_parse_range` and its pattern.
-- - Dashboard (backend/api_dashboard.py): `_event_union`, `_event_rows`, `_fold_buckets` and the two
--   panels of `_dashboard_build`, over the tables of Store and the bins of Range. Dashboard/Window has
--   `build_window`; Dashboard/Response the whole `_dashboard_build`, with the open counts, the list of
--   repositories (backend/api.py, `_repository_options`) and the sync status of the handler.
-- - Session (backend/session.py): Session/Token has the tokens, Session/Users the secrets in the users
--   table, Session/Gate `auth_middleware` and the gates below it.
-- - Auth (backend/auth.py): the stored passwords and their check.
-- - Login (backend/login.py): the limit on failed logins by address; Login/Post the routes that log in
--   and out, over Auth, Session and the limit.
-- - Source (backend/github_source.py): the public boundary and the adapter that Ingest fetches from.
-- - Events (backend/events.py and `_event_stream` of backend/app.py): the subscribers' queues, the
--   callbacks of the loop and the streams, as a step relation.
-- - Lifespan (backend/app.py): `_IngestCoordinator` and `lifespan`, with ingests and refreshes beside it.
--   APScheduler's `shutdown` raises there for a scheduler that does not run, as its documentation says.
-- - Health (backend/app.py): the payload of `/health` and its response, over the state that Ingest leaves.
-- - Dotenv (backend/db.py, `load_dotenv`): the variables that a file of assignments adds.
-- - Durations (scripts/ci/compare_durations.py): the comparison of two builds' test times.
--   Durations/Floor is about the rounds, Durations/Timed about the reports that they come from.
--
-- Representation: a time is an integer number of microseconds since the Unix epoch, and in Session and
-- Login of seconds. A call that raises returns a `Result`; an error names the `raise`, not its text. SQL is
-- modelled by its effect on the rows; a transaction that raises leaves the tables as they were. The
-- loop of `dense_bucket_bounds` runs on fuel, one round for each second from the first epoch to the
-- last, which is enough because each round moves on by at least one second.
--
-- Parameters: `casefold`, `strip` and `fromisoformat` (`TextRules`); `int`, `str`, `strip`, the HMAC
-- digest, `urlparse` and the two ways a JSON value becomes text (`Platform`); the password digest and
-- the codec of its salt (`PasswordRules`); the source of snapshots, the credentials, the clock, and
-- whether the database and the broadcaster work (`Environment`); the limit of staleness and the clock
-- of the health check (`Settings`); the collation by which the database orders names; what the vendored
-- module returns (`Vendor`) and which literals with a point equal 1; `float` of a report's time; which
-- variables the system takes (`Rules`). Threads, their order, the clock and the endpoint's results are
-- free in Cache/Refresh, and so are the texts, the threads and the clients in Events.
--
-- Not modelled: the HTML of the login form; of backend/app.py the routes for assets, their headers and
-- compression; the timings of the phases; of backend/api.py the one-line route of the identity; how
-- backend/github_source.py loads the vendored module; of backend/db.py the connection pools and the
-- check of the schema, which only call the driver; failures of the auth database; backend/version.py;
-- the rendered table of scripts/ci/compare_durations.py and the shell scripts; the frontend.
pub mod Prelude
pub mod Cache
pub mod Snapshot
pub mod Store
pub mod Ingest
pub mod Range
pub mod Dashboard
pub mod Session
pub mod Auth
pub mod Login
pub mod Source
pub mod Dotenv
pub mod Events
pub mod Lifespan
pub mod Durations
pub mod Health
