-- ===== src/Ingestion/Errors.antt =====
-- The exceptions that the jobs and the adapter raise and catch (app/ingestion/exceptions.py, and
-- the ones of the libraries by the classes that the code tests for). Messages are left out.
use anime_app_backend.Prelude.{ℕ, Bool, true, false, Option}

pub data Exc : Type 0 where
  -- GoneError, PermanentError (its subclasses too), AccessDeniedError: with the HTTP status
  gone_error permanent_error access_denied : Option ℕ → Exc
  -- TransientError, and its subclass NetworkError
  transient_error network_error : Option ℕ → Exc
  -- CircuitOpenError: with the seconds until a retry
  circuit_open : ℕ → Exc
  raw_store_error : Exc
  repeated_unexpected : ℕ → Exc
  -- a SQLAlchemyError of the database session
  database_error : Exc
  -- any other subclass of Exception: a bug in the code that ran
  unexpected : Exc
  -- a BaseException that is no Exception: Ctrl-C or cancellation
  interrupted : Exc

-- `except TransientError` takes the subclass NetworkError too.
abbrev pub is_transient : Exc → Bool
is_transient (transient_error s) = true
is_transient (network_error s) = true
is_transient e = false

-- `except (GoneError, PermanentError)`
abbrev pub is_answered : Exc → Bool
is_answered (gone_error s) = true
is_answered (permanent_error s) = true
is_answered e = false
