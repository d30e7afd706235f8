-- ===== src/Lib.antt =====
-- The backend of an anime catalogue: a pipeline that mirrors the Tenrai API into a database and an
-- object store, and a web API with accounts and sessions. What is modelled is the ingestion core
-- under app/ingestion, the sessions under app/security and the accounts under app/users.
--
-- How the parts work together. A fetch run (`FetchAnimeJob`) claims the rows of the task queue
-- (`TaskRepository`) one by one, asks Tenrai for each through the adapter (`TenraiAdapter`), which
-- waits for the rate limiter, retries, and reports to the circuit breaker, stores the response in S3
-- (`RawStore`), writes its index row (`RawTenraiRepository`), marks the task and commits. The run and
-- its counters are recorded through a second session (`MetricsRepository`). A discovery run
-- (`DiscoveryJob`) fills the queue: it reads the anime list page by page and creates the tasks of
-- its anime, or sends them back to pending.
--
-- A clean run (`CleanAnimeJob`) reads the index rows in batches, loads the responses from S3, parses
-- them and writes them to the catalogue (`CatalogueRepository`), one commit for each batch.
--
-- Accounts (`UserService`): an account is created unverified and a token is mailed to its address. The
-- tokens of verification and of a password reset are keys in Redis, which are deleted when they are
-- read. What ends sessions (a new password or address, a deletion) deletes the refresh tokens and
-- revokes the access tokens.
--
-- Sessions (`JWTService`): a refresh token is a row of refresh_token, which is revoked when it is
-- exchanged; the use of a revoked one ends all sessions of its user. Access tokens are tracked and
-- revoked in Redis, and `get_current_user` and `require_admin` ask there. A request commits at its
-- end and rolls back if it raises (`get_db`).
--
-- The files, by the code they model:
--   Prelude, Prelude/Lists, Prelude/Int   shared names, Boolean tests and list functions
--   Prelude/Dict          Python's dicts as lists of pairs
--   Exec, Exec/Post       exceptions that keep the state, and postconditions on both exits
--   Json                  the values that json.loads returns
--   Ingestion/Enums       app/ingestion/enums (Resource, TaskStatus, RunStatus), keys of tasks
--   Ingestion/Errors      app/ingestion/exceptions.py and the exceptions of libraries
--   Ingestion/Runtime     the world outside: Tenrai, clocks, the database and S3 as inputs
--   Ingestion/Breaker     app/ingestion/utils/circuit_breaker.py; Breaker/History its specification
--   Ingestion/Limiter     app/ingestion/utils/rate_limiter.py; Limiter/Spacing its specification
--   Ingestion/Adapter     app/ingestion/adapters/tenrai.py; Adapter/Attempts and Adapter/Calls
--                         are about one request and one call
--   Ingestion/Tasks       app/ingestion/repository/task_repository.py; Tasks/Sound has the invariant
--                         of the table, Tasks/Claim, Tasks/Refresh and Tasks/Budget the statements
--   Ingestion/Raw         app/ingestion/repository/raw_tenrai_repository.py
--   Ingestion/Runs        app/ingestion/repository/metrics_repository.py
--   Ingestion/World       the sessions, the object store and the adapter as one state
--   Ingestion/Fetch       app/ingestion/jobs/fetch_anime_job.py, one task; Fetch/Outcome and
--                         Fetch/Durable are about what it leaves behind; Fetch/Loop is the run,
--                         with Loop/Ledger, Loop/Ends and Loop/Total about it
--   Ingestion/Listing     app/ingestion/jobs/discovery_job.py, one page of the anime list;
--                         Listing/Rows is about its rows
--   Ingestion/Parsers     app/ingestion/parsers/common.py, with Parsers/Links, Parsers/Statistics,
--                         Parsers/Episodes, Parsers/Reviews and Parsers/Details for the files of
--                         these names; Links/Firsts, Statistics/Votes, Episodes/Lasts,
--                         Reviews/Lasts and Details/Minutes are about them
--   Catalogue             app/catalogue/models.py; Catalogue/Upsert and Catalogue/Repository are
--                         app/catalogue/repository.py, with Upsert/Replay, Repository/Mirrors and
--                         Repository/Replaced about it; Catalogue/Columns is its comparison of rows
--   Ingestion/Clean       app/ingestion/jobs/clean_raw_job.py, the state and its steps; Clean/Collect
--                         is what a batch collects, Clean/Batch one batch, with Batch/Held,
--                         Batch/Saves and Batch/Progress about it; Clean/Loop is the run, with
--                         Loop/Resumes and Loop/Ends about it
--   Ingestion/Discovery   app/ingestion/jobs/discovery_job.py, the paging loop, of which
--                         Discovery/Progress and Discovery/Saved are about what it saves;
--                         Discovery/Whole is a run, with Whole/Kept and Whole/Resume about it, and
--                         Discovery/Weekly the weekly one, with Weekly/Chunks about it
--   Security/State        app/security/repository.py, the models of tokens and users, Redis, and
--                         app/core/database/database.py (get_db)
--   Security/Tokens       app/security/utils; Tokens/Frame is about what it leaves alone
--   Security/Service      app/security/service.py, refresh and login; Service/Rotation and
--                         Service/Once are about the exchange of a token
--   Security/Logout       app/security/service.py, the logouts
--   Security/Guards       app/core/deps.py; Guards/Revoked is about revoked tokens
--   Users/Rows            app/users/repository.py
--   Users/Keys            the Redis commands on single keys, and app/core/workers/enqueue.py
--   Users/Mailing         app/users/service.py, the mails with a one-time token: keys, cooldown, use;
--                         Mailing/Once and Mailing/Cooldown are about them
--   Users/Service         app/users/service.py, signup, verification and reset; Service/Erase,
--                         Service/Passwords and Service/Used are about them
--   Users/Accounts        app/users/service.py, changes and deletion of accounts; Accounts/Bulk and
--                         Accounts/Erased are about the bulk delete, Accounts/Password about passwords
--   Tests                 concrete inputs
--
-- State and time. An operation takes the state and returns its result or exception with the new
-- state, which an exception keeps. A session has the rows it sees and the rows that are saved; commit
-- and rollback move one to the other. `Outside` says, by a counter of events, how long each step
-- takes, what Tenrai answers, which database or S3 call fails, which rows other sessions lock, and
-- when the program is interrupted, so the theorems hold for every such behaviour. Times are
-- microseconds on the natural numbers, where the code has float seconds. Sizes of stored objects and
-- texts of exceptions are inputs too.
--
-- Fuel and bounds. The loop of the fetch run is on fuel; every task it processes loses at least one
-- of its attempts or stops being open, so the sum of the attempts left, which `budget` computes,
-- bounds the turns. The loop of a discovery run is on fuel as well, and without a page limit nothing
-- but Tenrai ends it.
-- The loop of a clean run is on fuel too; each batch ends at a later index row, so the number of
-- index rows bounds the turns. Everything else recurs on structure: the attempts of the adapter, the
-- pages of episodes (at most 100).
--
-- Numbers. A float of a JSON response is kept as the decimal that its text writes, and its infinities
-- and NaN are left out, on which `to_int` would raise. The quotient of seconds in `_duration_minutes`
-- is taken exactly, which rounds as the float one does below 2^50 seconds. The limiter's requests per
-- minute are a whole number, and its interval is cut to a microsecond. Postgres's rounding of
-- `Numeric(4, 2)` and its equality of decimals and of moments are inputs.
--
-- Statements with a key twice. Postgres refuses to write a row a second time in one statement: an
-- upsert of the catalogue is refused then, and so is what the discovery jobs send to
-- `insert_or_reset_tasks`; that function itself is for rows that are not refused.
--
-- Not modelled: log lines, float rates of the summaries, the HTTP and S3 clients themselves,
-- SQLAlchemy, PyJWT, bcrypt, and the parts outside the list above (IMDb files, run scripts,
-- controllers, mail). Another session's writes between two statements are not modelled, only its row
-- locks.
pub mod Prelude
pub mod Exec
pub mod Json
pub mod Ingestion
pub mod Security
pub mod Users
pub mod Catalogue
pub mod Tests
