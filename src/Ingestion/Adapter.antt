-- ===== src/Ingestion/Adapter.antt =====
-- `TenraiAdapter` (app/ingestion/adapters/tenrai.py). Its methods are actions on its own state,
-- with the limiter, the breaker and the clock in it. Endpoints stand for the paths of the URLs.
pub mod Attempts
pub mod Calls
use anime_app_backend.Prelude.{
  ℕ, zero, suc, ◌+◌, ◌-◌, ◌*◌, ◌^◌, Bool, true, false, ◌||◌, Option, none, some, List, ◌∷◌, String,
  ltb, ◌==◌, if◌then◌else◌,
}
use anime_app_backend.Exec.{
  Result, Exec, ok, err, pure, raise, modify, recover, continue, ◌>>=◌, ◌>>◌,
}
use anime_app_backend.Json.{Json}
use anime_app_backend.Ingestion.Errors.{
  Exc, gone_error, permanent_error, access_denied, transient_error, network_error, unexpected,
  interrupted, is_transient, is_answered,
}
use anime_app_backend.Ingestion.Runtime.{
  Outside, Clock, Request, Answer, transport_error, cancelled, other_error, response, RetryAfter,
  finite, full, statistics, episodes, reviews, anime_list, advance, sleep,
}
use anime_app_backend.Ingestion.Breaker
use anime_app_backend.Ingestion.Breaker.{Breaker}
use anime_app_backend.Ingestion.Limiter.{Limiter, acquire}

abbrev pub second : ℕ
second = 1_000_000

abbrev pub default_retry_after : ℕ
default_retry_after = 30 * second

pub record Adapter : Type 0 where
  pub limiter : Limiter
  pub breaker : Breaker
  pub clock : Clock
  pub max_attempts : ℕ
  pub request_count : ℕ
  pub retry_count : ℕ
  pub rate_limited_count : ℕ

-- `__init__`: no attempts at all is a ValueError.
unfoldable pub new : Limiter → Breaker → Clock → ℕ → Option Adapter
new limiter breaker clock max_attempts =
    if ltb max_attempts 1
    then none
    else some (record {
      limiter = limiter;
      breaker = breaker;
      clock = clock;
      max_attempts = max_attempts;
      request_count = 0;
      retry_count = 0;
      rate_limited_count = 0;
    })

-- RETRYABLE_STATUSES and ACCESS_DENIED_STATUSES
abbrev pub is_retryable : ℕ → Bool
is_retryable status = status == 500 || status == 502 || status == 503 || status == 504

abbrev pub is_access_denied : ℕ → Bool
is_access_denied status = status == 401 || status == 403

-- `_retry_after`
abbrev pub retry_after : RetryAfter → ℕ
retry_after (finite ticks) = ticks
retry_after other = default_retry_after

-- `last_status` and `last_was_network`, and the wait before the next attempt.
pub record Failure : Type 0 where
  pub last_status : Option ℕ
  pub last_was_network : Bool
  pub wait : ℕ

-- One answer either ends the call or asks for another attempt.
pub data Reading : Type 0 where
  final : Result Exc Json → Reading
  again : Failure → Reading

-- The answer to a request that is not asked for again.
abbrev pub final_reading : ℕ → Option Json → Result Exc Json
final_reading status body =
    if status == 404
    then err (gone_error (some 404))
    else if is_access_denied status
    then err (access_denied (some status))
    else if status == 200
    then (elim body [ none ↦ err (permanent_error (some 200)) | some json ↦ ok json ])
    else err (permanent_error (some status))

unfoldable pub read_answer : ℕ → Answer → Reading
read_answer backoff transport_error =
    again (record { last_status = none; last_was_network = true; wait = backoff })
read_answer backoff cancelled = final (err interrupted)
read_answer backoff other_error = final (err unexpected)
read_answer backoff (response status header body) =
    if status == 429
    then again
        (record { last_status = some 429; last_was_network = false; wait = retry_after header })
    else if is_retryable status
    then again (record { last_status = some status; last_was_network = false; wait = backoff })
    else final (final_reading status body)

abbrev pub is_rate_limited : Answer → Bool
is_rate_limited (response status header body) = status == 429
is_rate_limited other = false

-- What is raised when the attempts are used up.
abbrev pub given_up : Failure → Exc
given_up f =
    if f.last_was_network then network_error f.last_status else transient_error f.last_status

module _ (out : Outside) where
  -- `await self._rate_limiter.acquire()`
  let_through : Exec Exc Adapter (Unit {0})
  let_through a =
      let (r, l, c) = acquire out a.limiter a.clock in (r, record a { limiter = l; clock = c })

  -- `await self._sleep(wait)`, not after the last attempt
  pause : ℕ → ℕ → Exec Exc Adapter (Unit {0})
  pause attempt wait a =
      if ltb attempt a.max_attempts
      then (let (r, c) = sleep out wait a.clock in (r, record a { clock = c }))
      else (ok tt, a)

  -- `await self._client.get(endpoint, params)`, counted before it is sent
  send : Request → Exec Exc Adapter Answer
  send request a = (
    ok (out.answer a.clock.events request),
    record a { request_count = a.request_count + 1; clock = advance out 0 a.clock },
  )

  -- the first attempt is no retry
  count_retry : ℕ → Exec Exc Adapter (Unit {0})
  count_retry attempt a =
      (ok tt, if ltb 1 attempt then record a { retry_count = a.retry_count + 1 } else a)

  count_rate_limited : Answer → Exec Exc Adapter (Unit {0})
  count_rate_limited answer a = (
    ok tt,
    if is_rate_limited answer
        then record a { rate_limited_count = a.rate_limited_count + 1 }
        else a,
  )

  -- The end of one turn of the loop; `rest` is the loop from the next attempt on.
  settle : ℕ → Reading → (Failure → Exec Exc Adapter Json) → Exec Exc Adapter Json
  unfolding pause
  settle attempt (final r) rest a = (r, a)
  settle attempt (again failure) rest a =
      continue (pause attempt failure.wait a) (λ _. rest failure)

  exchange : Request → ℕ → (Failure → Exec Exc Adapter Json) → Exec Exc Adapter Json
  unfolding send count_rate_limited settle read_answer
  exchange request attempt rest = do
    answer ← send request
    count_rate_limited answer
    settle attempt (read_answer (2 ^ (attempt - 1) * second) answer) rest

  one_attempt : Request → ℕ → (Failure → Exec Exc Adapter Json) → Exec Exc Adapter Json
  unfolding let_through count_retry
  one_attempt request attempt rest = do
    count_retry attempt
    let_through
    exchange request attempt rest

  -- The loop of `_fetch`, with the number of attempts that are left.
  attempts : Request → ℕ → ℕ → Failure → Exec Exc Adapter Json
  attempts request zero attempt last = raise (given_up last)
  attempts request (suc left) attempt last =
      one_attempt request attempt (attempts request left (attempt + 1))

  -- `_fetch`: the loop overwrites the failure that it starts from, since `max_attempts` is not 0.
  pub fetch : Request → Exec Exc Adapter Json
  fetch request a =
      attempts request a.max_attempts 1
        (record { last_status = none; last_was_network = false; wait = 0 }) a

  -- `self._breaker.check()`, and its two records, at the time that the clock shows
  check_breaker : Exec Exc Adapter (Unit {0})
  unfolding Breaker.check
  check_breaker a = ((Breaker.check a.clock.time a.breaker).0, a)

  -- What `_get` tells the breaker about an exception before it raises it again.
  report : Exc → Adapter → Adapter
  report e a =
      if is_transient e
      then record a { breaker = Breaker.record_failure a.clock.time a.breaker }
      else if is_answered e
      then record a { breaker = Breaker.record_success a.breaker }
      else a

  -- The part of `_get` behind the breaker's check.
  guarded : Result Exc Json × Adapter → Result Exc Json × Adapter
  unfolding report
  guarded fetched = continue (recover fetched (λ e a. (err e, report e a))) λ json. do
    modify (λ (a : Adapter). record a { breaker = Breaker.record_success a.breaker })
    pure json

  -- `_get`
  pub get : Request → Exec Exc Adapter Json
  unfolding check_breaker guarded
  get request = do check_breaker; (λ a. guarded (fetch request a))

  pub get_full : ℕ → Exec Exc Adapter Json
  get_full anime_id = get (full anime_id)

  pub get_statistics : ℕ → Exec Exc Adapter Json
  get_statistics anime_id = get (statistics anime_id)

  pub get_episodes : ℕ → ℕ → Exec Exc Adapter Json
  get_episodes anime_id page = get (episodes anime_id page)

  -- the page is 1 where the caller names none
  pub get_reviews : ℕ → ℕ → Exec Exc Adapter Json
  get_reviews anime_id page = get (reviews anime_id page)

  -- the callers leave the limit and the rating as they are
  pub list_anime : ℕ → List (String × String) → Exec Exc Adapter Json
  list_anime page filters = get (anime_list page 100 (("rating", "g,pg,pg13,r17,r") ∷ filters))
