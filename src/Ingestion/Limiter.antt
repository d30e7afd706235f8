-- ===== src/Ingestion/Limiter.antt =====
-- `RateLimiter` (app/ingestion/utils/rate_limiter.py). The lock makes `acquire` one step. A tick
-- of the clock is a microsecond.
pub mod Spacing
use anime_app_backend.Prelude.{ℕ, ◌+◌, ◌-◌, ◌/◌, Bool, Option, none, some, ltb, leb, if◌then◌else◌}
use anime_app_backend.Exec.{Exec, Result, ok, err}
use anime_app_backend.Ingestion.Errors.{Exc}
use anime_app_backend.Ingestion.Runtime.{Outside, Clock, read_clock, sleep}

pub record Limiter : Type 0 where
  pub interval : ℕ
  pub last_request_time : Option ℕ

-- `__init__` for a whole number of requests per minute; zero is a ValueError.
unfoldable pub new : ℕ → Option Limiter
new requests_per_minute =
    if leb requests_per_minute 0
    then none
    else some (record { interval = 60_000_000 / requests_per_minute; last_request_time = none })

-- The reading of the clock that ends every branch of `acquire`.
stamp : Outside → Limiter → Clock → Result Exc (Unit {0}) × Limiter × Clock
stamp out l c =
    let (now, c') = read_clock out c in (ok tt, record l { last_request_time = some now }, c')

after_sleep :
    Outside → Limiter → Result Exc (Unit {0}) × Clock → Result Exc (Unit {0}) × Limiter × Clock
unfolding stamp
after_sleep out l (ok u, c) = stamp out l c
after_sleep out l (err e, c) = (err e, l, c)

unfoldable pub acquire : Outside → Limiter → Clock → Result Exc (Unit {0}) × Limiter × Clock
unfolding stamp after_sleep
acquire out l c = elim l.last_request_time [
  | none ↦ stamp out l c
  | some last ↦
      let (now, c') = read_clock out c in
      let elapsed = now - last in
      if ltb elapsed l.interval
      then after_sleep out l (sleep out (l.interval - elapsed) c')
      else stamp out l c'
]
