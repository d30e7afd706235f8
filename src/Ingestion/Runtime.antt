-- ===== src/Ingestion/Runtime.antt =====
-- What the code takes from outside: the two clocks, the wait of `asyncio.sleep`, interruption,
-- and the answers of Tenrai. Each use is numbered by a counter in the state, and what happens at
-- that number is a parameter, so every schedule of delays, faults and answers is covered.
use Prim.Native.Char.{Char}
use anime_app_backend.Prelude.{ℕ, ◌+◌, Bool, Option, String, List, if◌then◌else◌}
use anime_app_backend.Exec.{Exec, ok, err}
use anime_app_backend.Json.{Json}
use anime_app_backend.Ingestion.Enums.{Key}
use anime_app_backend.Ingestion.Errors.{Exc, interrupted}

-- The requests that the adapter sends: the endpoint, with the query's numbers and filters.
pub data Request : Type 0 where
  full statistics : (mal_id : ℕ) → Request
  episodes reviews : (mal_id page : ℕ) → Request
  anime_list : (page limit : ℕ) → (filters : List (String × String)) → Request

-- What `float(r.headers.get("Retry-After", DEFAULT_RETRY_AFTER_S))` comes to; a finite value that
-- is not negative is given in ticks, of which a second has a million.
pub data RetryAfter : Type 0 where
  absent not_a_number not_finite negative : RetryAfter
  finite : ℕ → RetryAfter

-- How `httpx.AsyncClient.get` ends: a TransportError, an interruption, another exception, of httpx
-- (such as DecodingError and TooManyRedirects) or of any library, or a response with its
-- status, its Retry-After header and its body, if that is JSON.
pub data Answer : Type 0 where
  transport_error cancelled other_error : Answer
  response : (status : ℕ) → RetryAfter → (body : Option Json) → Answer

-- How an S3 call fails: with an error of boto3, or with another exception.
pub data StorageFault : Type 0 where
  client_error : StorageFault
  other_fault : Exc → StorageFault

pub record Outside : Type 0 where
  -- how long the program takes until the event with this number is over
  pub delay : ℕ → ℕ
  -- whether Ctrl-C or a cancellation ends the wait with this number
  pub interrupts : ℕ → Bool
  -- Tenrai's answer to a request, at this number
  pub answer : ℕ → Request → Answer
  -- `datetime.now(UTC)`, in microseconds, at this number
  pub utc : ℕ → ℕ
  -- the exception, if any, of the database call or of the S3 call with this number
  pub database_fault : ℕ → Option Exc
  pub storage_fault : ℕ → Option StorageFault
  -- whether another session holds the lock of a task row at this number
  pub locked : ℕ → Key → Bool
  -- `_describe(exc)`, and the size of the gzipped JSON text of a payload
  pub describe : Exc → List Char
  pub stored_size : Json → ℕ

-- `time` is what `time.monotonic` reads, in ticks; `events` numbers the next event.
pub record Clock : Type 0 where
  pub time : ℕ
  pub events : ℕ

abbrev pub advance : Outside → ℕ → Clock → Clock
advance out duration c = record {
  time = c.time + duration + out.delay c.events;
  events = c.events + 1;
}

-- `clock()`: reading it takes a while.
abbrev pub read_clock : Outside → Clock → ℕ × Clock
read_clock out c = let c' = advance out 0 c in (c'.time, c')

-- `await asyncio.sleep(duration)` returns after `duration` at the earliest, or is interrupted.
abbrev pub sleep : Outside → ℕ → Exec Exc Clock (Unit {0})
sleep out duration c =
    if out.interrupts c.events
    then (err interrupted, advance out 0 c)
    else (ok tt, advance out duration c)
