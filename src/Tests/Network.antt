-- ===== src/Tests/Network.antt =====
-- The breaker, the limiter and the adapter at concrete inputs.
use anime_app_backend.Prelude.{ℕ, ◌+◌, ◌*◌, ◌/◌, ◌≤◌, ◌≡◌, refl, false, none, some, [], ◌∷◌, arith}
use anime_app_backend.Exec.{err}
use anime_app_backend.Ingestion.Errors.{circuit_open}
use anime_app_backend.Ingestion.Runtime.{Outside, Clock, transport_error, full}
use anime_app_backend.Ingestion.Breaker
use anime_app_backend.Ingestion.Breaker.{Breaker}
use anime_app_backend.Ingestion.Breaker.History.{success, failure, replay, check-replay}
use anime_app_backend.Ingestion.Limiter
use anime_app_backend.Ingestion.Limiter.{Limiter, acquire}
use anime_app_backend.Ingestion.Limiter.Spacing.{burst, new-burst}
use anime_app_backend.Ingestion.Adapter.{Adapter, fetch, get}
use anime_app_backend.Ingestion.Adapter.Attempts.{Spent, fetch-Spent}
use anime_app_backend.Ingestion.Adapter.Calls.{breaker_after, get-breaker}

-- Tenrai cannot be reached.
abbrev outage : Outside
outage = record {
  delay = λ n. 1;
  interrupts = λ n. false;
  answer = λ n request. transport_error;
  utc = λ n. n;
  database_fault = λ n. none;
  storage_fault = λ n. none;
  locked = λ n key. false;
  describe = λ e. [];
  stored_size = λ payload. 0;
}

abbrev fresh_breaker : Breaker
fresh_breaker = record {
  failure_threshold = 2;
  cooldown = 100;
  consecutive_failures = 0;
  opened_at = none;
}

abbrev open_breaker : Breaker
open_breaker = record {
  failure_threshold = 2;
  cooldown = 100;
  consecutive_failures = 2;
  opened_at = some 20;
}

abbrev fresh_limiter : Limiter
fresh_limiter = record { interval = 60; last_request_time = none }

abbrev caller : Breaker → Adapter
caller breaker = record {
  limiter = fresh_limiter;
  breaker = breaker;
  clock = record { time = 50; events = 0 };
  max_attempts = 3;
  request_count = 0;
  retry_count = 0;
  rate_limited_count = 0;
}

check-replay_example :
    Breaker.check 50 (replay fresh_breaker (failure 20 ∷ failure 10 ∷ success ∷ []))
    ≡ (err (circuit_open 70), replay fresh_breaker (failure 20 ∷ failure 10 ∷ success ∷ []))
check-replay_example =
    check-replay 2 100 50 (failure 20 ∷ failure 10 ∷ success ∷ []) (unfold Breaker.new in refl)

abbrev clock_at : ℕ → ℕ → Clock
clock_at time events = record { time = time; events = events }

new-burst_example : 1 + 2 * (60_000_000 / 1_000_000) ≤ 125
unfolding Limiter.new acquire burst
new-burst_example =
    new-burst outage 1_000_000 2 (clock_at 0 0) {l = fresh_limiter}
      {l₁ = record { interval = 60; last_request_time = some 1 }}
      {l' = record { interval = 60; last_request_time = some 125 }} {c₁ = clock_at 1 1}
      {c' = clock_at 125 7} refl refl refl

fetch-Spent_example :
    Spent 3 1 (caller fresh_breaker) (fetch outage (full 1) (caller fresh_breaker))
fetch-Spent_example = fetch-Spent outage (full 1) (caller fresh_breaker) (omega arith)

get-breaker_example :
    let (r, b) = get outage (full 1) (caller fresh_breaker) in
    b.breaker ≡ breaker_after r b.clock.time fresh_breaker
get-breaker_example =
    get-breaker outage (full 1) (caller fresh_breaker) (omega arith) (unfold Breaker.check in refl)
