-- ===== src/Ingestion/Adapter/Attempts.antt =====
-- The retry loop of `_fetch`: how many requests it sends, and what its result rests on.
use anime_app_backend.Prelude.{
  ℕ, zero, suc, ◌+◌, ◌-◌, ◌≤◌, ◌≡◌, refl, ap, ◌∙◌, none, some, true, false, ltb, arith,
  if◌then◌else◌,
}
use anime_app_backend.Exec.{Result, Exec, ok, err, continue}
use anime_app_backend.Json.{Json}
use anime_app_backend.Ingestion.Errors.{Exc, interrupted, is_transient}
use anime_app_backend.Ingestion.Runtime.{
  Outside, Clock, Request, Answer, transport_error, cancelled, other_error, response, RetryAfter,
}
use anime_app_backend.Ingestion.Limiter.{Limiter, acquire}
use anime_app_backend.Ingestion.Adapter.{
  Adapter, Failure, Reading, final, again, read_answer, given_up, pause, count_retry, settle,
  exchange, one_attempt, attempts, fetch,
}

acquire-err :
    (out : Outside) (l : Limiter) (c : Clock) {e : Exc}
    → (acquire out l c).0 ≡ err e
    → e ≡ interrupted
unfolding acquire
acquire-err out l c h = ground arith

-- What a result of `_fetch` rests on.
pub data Grounds (out : Outside) (request : Request) : Result Exc Json → Type 0 where
  -- the call was interrupted while it waited
  interruption : {e : Exc} → e ≡ interrupted → Grounds out request (err e)
  -- an answer that settles the call was received
  settled :
      (event backoff : ℕ) {r : Result Exc Json}
      → read_answer backoff (out.answer event request) ≡ final r
      → Grounds out request r
  -- the last attempt got an answer that asks for another one
  used_up :
      (event backoff : ℕ) {f : Failure} {e : Exc}
      → read_answer backoff (out.answer event request) ≡ again f
      → e ≡ given_up f
      → Grounds out request (err e)

-- 1 for the first attempt of a call, which counts no retry.
abbrev pub first : ℕ → ℕ
first attempt = if ltb 1 attempt then 0 else 1

-- What up to `left` attempts, from `attempt` on, make of the state `a`: each sends at most one
-- request, each but the first counts one retry, and a call that gives up has used them all.
pub record Spent (left attempt : ℕ) (a : Adapter) (end : Result Exc Json × Adapter) : Type 0 where
  pub requests_le : end.1.request_count ≤ a.request_count + left
  pub retries_le : end.1.retry_count ≤ a.retry_count + (left - first attempt)
  pub requests-le-retries :
      end.1.request_count + a.retry_count ≤ a.request_count + end.1.retry_count + first attempt
  pub retries-le-requests :
      a.request_count + end.1.retry_count ≤ end.1.request_count + a.retry_count + 1
  pub gives_up_last :
      (e : Exc)
      → end.0 ≡ err e
      → is_transient e ≡ true
      → end.1.request_count ≡ a.request_count + left
  pub breaker_kept : end.1.breaker ≡ a.breaker
  pub attempts_kept : end.1.max_attempts ≡ a.max_attempts

final_not_transient :
    (backoff : ℕ) (answer : Answer) {e : Exc}
    → read_answer backoff answer ≡ final (err e)
    → is_transient e ≡ false
unfolding read_answer
final_not_transient backoff transport_error h = cc
final_not_transient backoff cancelled h = ground arith
final_not_transient backoff other_error h = ground arith
final_not_transient backoff (response status header body) h = ground arith

module _ (out : Outside) (request : Request) where
  -- The state of the call after the request of an attempt that began at `a`.
  record Sent (attempt : ℕ) (a b : Adapter) : Type 0 where
    requests : b.request_count ≡ a.request_count + 1
    retries : b.retry_count ≡ (if ltb 1 attempt then a.retry_count + 1 else a.retry_count)
    breaker : b.breaker ≡ a.breaker
    max_attempts : b.max_attempts ≡ a.max_attempts

  -- An attempt ends the call, or goes on with the rest of the loop after a request.
  data Turn (attempt : ℕ) (a : Adapter) (rest : Failure → Exec Exc Adapter Json)
      : Result Exc Json × Adapter → Type 0 where
    unsent :
        {e : Exc} (b : Adapter)
        → e ≡ interrupted
        → b.request_count ≡ a.request_count
        → b.retry_count ≡ (if ltb 1 attempt then a.retry_count + 1 else a.retry_count)
        → b.breaker ≡ a.breaker
        → b.max_attempts ≡ a.max_attempts
        → Turn attempt a rest (err e, b)
    over :
        {r : Result Exc Json} {b : Adapter}
        → Grounds out request r
        → ((e : Exc) → r ≡ err e → is_transient e ≡ false)
        → Sent attempt a b
        → Turn attempt a rest (r, b)
    on :
        (f : Failure) (b : Adapter) (event backoff : ℕ)
        → read_answer backoff (out.answer event request) ≡ again f
        → Sent attempt a b
        → Turn attempt a rest (rest f b)

  module _ (attempt : ℕ) (a : Adapter) (rest : Failure → Exec Exc Adapter Json) where
    pause-interrupted :
        (wait : ℕ) (b : Adapter) {e : Exc} → (pause out attempt wait b).0 ≡ err e → e ≡ interrupted
    unfolding pause
    pause-interrupted wait b h = ground arith

    pause-Sent :
        (wait : ℕ) (b : Adapter) → Sent attempt a b → Sent attempt a (pause out attempt wait b).1
    unfolding pause
    pause-Sent wait b sent = ground arith

    paused-Turn :
        (f : Failure) (b : Adapter) (event backoff : ℕ)
        → read_answer backoff (out.answer event request) ≡ again f
        → (p : Result Exc (Unit {0}) × Adapter) → ((e : Exc) → p.0 ≡ err e → e ≡ interrupted)
        → Sent attempt a p.1
        → Turn attempt a rest (continue p (λ _. rest f))
    paused-Turn f b event backoff asked (ok u, b') cut sent = on f b' event backoff asked sent
    paused-Turn f b event backoff asked (err e, b') cut sent =
        over (interruption (cut _ refl)) (λ e' h. ground (arith, cut e refl)) sent

    settle-Turn :
        (reading : Reading) (b : Adapter) (event backoff : ℕ)
        → read_answer backoff (out.answer event request) ≡ reading
        → Sent attempt a b
        → Turn attempt a rest (settle out attempt reading rest b)
    unfolding settle
    settle-Turn (final r) b event backoff read sent =
        over (settled event backoff read)
          (λ e h. final_not_transient backoff (out.answer event request) (read ∙ ap final h)) sent
    settle-Turn (again f) b event backoff read sent =
        paused-Turn f b event backoff read (pause out attempt f.wait b)
          (λ e h. pause-interrupted f.wait b h) (pause-Sent f.wait b sent)

    exchange-Turn :
        (b : Adapter)
        → b.request_count ≡ a.request_count
        → b.retry_count ≡ (if ltb 1 attempt then a.retry_count + 1 else a.retry_count)
        → b.breaker ≡ a.breaker
        → b.max_attempts ≡ a.max_attempts
        → Turn attempt a rest (exchange out request attempt rest b)
    unfolding exchange
    exchange-Turn b req ret br mx = settle-Turn _ _ b.clock.events _ refl (ground arith)

    let_through-Turn :
        (p : Result Exc (Unit {0}) × Limiter × Clock) (b : Adapter)
        → ((e : Exc) → p.0 ≡ err e → e ≡ interrupted)
        → b.request_count ≡ a.request_count
        → b.retry_count ≡ (if ltb 1 attempt then a.retry_count + 1 else a.retry_count)
        → b.breaker ≡ a.breaker
        → b.max_attempts ≡ a.max_attempts
        → Turn attempt a rest (
            continue
              (p.0, record b { limiter = p.1; clock = p.2 })
              (λ _. exchange out request attempt rest))
    let_through-Turn (ok u, l, c) b cut req ret br mx =
        exchange-Turn (record b { limiter = l; clock = c }) req ret br mx
    let_through-Turn (err e, l, c) b cut req ret br mx =
        unsent (record b { limiter = l; clock = c }) (cut e refl) req ret br mx

  one_attempt-Turn :
      (attempt : ℕ) (a : Adapter) (rest : Failure → Exec Exc Adapter Json)
      → Turn attempt a rest (one_attempt out request attempt rest a)
  unfolding one_attempt
  one_attempt-Turn attempt a rest =
      let b = (count_retry out attempt a).1 in
      let_through-Turn attempt a rest (acquire out b.limiter b.clock) b
        (λ e h. acquire-err out b.limiter b.clock h) (ground arith) (ground arith) (ground arith)
        (ground arith)

  abbrev Asked : Failure → Type 0
  Asked f = (event : ℕ) × (backoff : ℕ) × (read_answer backoff (out.answer event request) ≡ again f)

  next-Spent :
      (left attempt : ℕ) (a : Adapter) (rest : Failure → Exec Exc Adapter Json)
      {end : Result Exc Json × Adapter}
      → 1 ≤ attempt
      → Turn attempt a rest end
      → ((f : Failure) (b : Adapter)
          → Asked f
          → Spent left (attempt + 1) b (rest f b) × Grounds out request (rest f b).0)
      → Spent (suc left) attempt a end × Grounds out request end.0
  next-Spent left attempt a rest positive (unsent b cut req ret br mx) after = (
    record {
      requests_le = omega arith;
      retries_le = ground arith;
      requests-le-retries = ground arith;
      retries-le-requests = ground arith;
      gives_up_last = λ e h t. ground arith;
      breaker_kept = br;
      attempts_kept = mx;
    },
    interruption cut,
  )
  next-Spent left attempt a rest positive (over {r} {b} grounds kind sent) after = (
    record {
      requests_le = omega arith;
      retries_le = ground arith;
      requests-le-retries = ground arith;
      retries-le-requests = ground arith;
      gives_up_last = λ e h t. cc (kind e h);
      breaker_kept = sent.breaker;
      attempts_kept = sent.max_attempts;
    },
    grounds,
  )
  next-Spent left attempt a rest positive (on f b event backoff asked sent) after =
      let (spent, grounds) = after f b (event, backoff, asked) in
      (
        record {
          requests_le = ground arith;
          retries_le = ground arith;
          requests-le-retries = ground arith;
          retries-le-requests = ground arith;
          gives_up_last = λ e h t. ground (arith, spent.gives_up_last e h t);
          breaker_kept = ground arith;
          attempts_kept = ground arith;
        },
        grounds,
      )

  attempts-Spent :
      (left attempt : ℕ) (last : Failure) (a : Adapter)
      → 1 ≤ attempt
      → Asked last
      → Spent left (attempt + 1) a (attempts out request left (attempt + 1) last a)
        × Grounds out request (attempts out request left (attempt + 1) last a).0
  unfolding attempts
  attempts-Spent zero attempt last a positive (event, backoff, asked) =
      (ground arith, used_up event backoff asked refl)
  attempts-Spent (suc left) attempt last a positive asked =
      next-Spent left (attempt + 1) a (attempts out request left (attempt + 1 + 1)) (omega arith)
        (one_attempt-Turn (attempt + 1) a (attempts out request left (attempt + 1 + 1)))
        (λ f b asked'. attempts-Spent left (attempt + 1) f b (omega arith) asked')

  fetch_from :
      (n : ℕ) (a : Adapter) (last : Failure)
      → 1 ≤ n
      → Spent n 1 a (attempts out request n 1 last a)
        × Grounds out request (attempts out request n 1 last a).0
  unfolding attempts
  fetch_from zero a last positive = absurd (omega arith)
  fetch_from (suc left) a last positive =
      next-Spent left 1 a (attempts out request left (1 + 1)) (omega arith)
        (one_attempt-Turn 1 a (attempts out request left (1 + 1)))
        (λ f b asked. attempts-Spent left 1 f b (omega arith) asked)

  -- A call of an adapter that may make at least one attempt sends at most `max_attempts` requests
  -- and counts at most `max_attempts - 1` retries. It sends at most one request more than it counts
  -- retries, and counts at most one retry more than it sends requests (one whose wait was
  -- interrupted). A call that ends with a transient or a network error has sent exactly
  -- `max_attempts` requests. It leaves the breaker and the limit of attempts as they were.
  pub fetch-Spent :
      (a : Adapter) → 1 ≤ a.max_attempts → Spent a.max_attempts 1 a (fetch out request a)
  unfolding fetch
  fetch-Spent a positive = (fetch_from a.max_attempts a _ positive).0

  -- Tenrai answered this request with JSON.
  abbrev pub Answered : Json → Type 0
  Answered json =
      (event : ℕ) × (header : RetryAfter) × (out.answer event request
        ≡ response 200 header (some json))

  answer-Answered :
      (backoff : ℕ) (answer : Answer) {json : Json}
      → read_answer backoff answer ≡ final (ok json)
      → (header : RetryAfter) × (answer ≡ response 200 header (some json))
  unfolding read_answer
  answer-Answered backoff transport_error h = absurd (cc h)
  answer-Answered backoff cancelled h = absurd (cc h)
  answer-Answered backoff other_error h = absurd (cc h)
  answer-Answered backoff (response status header none) h = absurd (ground (arith, h))
  answer-Answered backoff (response status header (some body)) h = (header, ground (arith, h))

  Grounds-Answered :
      {r : Result Exc Json} {json : Json} → Grounds out request r → r ≡ ok json → Answered json
  Grounds-Answered (interruption e) h = absurd (cc h)
  Grounds-Answered (settled event backoff e) h =
      let (header, told) = answer-Answered backoff (out.answer event request) (e ∙ ap final h) in
      (event, header, told)
  Grounds-Answered (used_up event backoff asked e) h = absurd (cc h)

  attempts-Answered :
      (n : ℕ) (a : Adapter) (last : Failure) {json : Json}
      → (attempts out request n 1 last a).0 ≡ ok json
      → Answered json
  unfolding attempts
  attempts-Answered zero a last h = absurd (cc h)
  attempts-Answered (suc n) a last h =
      Grounds-Answered (fetch_from (suc n) a last (omega arith)).1 h

  -- What `_fetch` returns is what Tenrai answered.
  pub fetch-Answered :
      (a : Adapter) {json : Json} → (fetch out request a).0 ≡ ok json → Answered json
  unfolding fetch
  fetch-Answered a h = attempts-Answered a.max_attempts a _ h
