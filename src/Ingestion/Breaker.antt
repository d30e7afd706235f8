-- ===== src/Ingestion/Breaker.antt =====
-- `CircuitBreaker` (app/ingestion/utils/circuit_breaker.py). A time is a number of ticks of the
-- clock; the reading of the clock is an argument of the methods that read it.
pub mod History
use anime_app_backend.Prelude.{
  ℕ, zero, ◌+◌, ◌-◌, Bool, Option, none, some, is_some, leb, ltb, if◌then◌else◌,
}
use anime_app_backend.Exec.{Exec, pure, raise}
use anime_app_backend.Ingestion.Errors.{Exc, circuit_open}

pub record Breaker : Type 0 where
  pub failure_threshold : ℕ
  pub cooldown : ℕ
  pub consecutive_failures : ℕ
  pub opened_at : Option ℕ

-- `__init__`: a threshold or a cooldown of zero is a ValueError.
unfoldable pub new : ℕ → ℕ → Option Breaker
new failure_threshold cooldown =
    if ltb failure_threshold 1
    then none
    else if leb cooldown 0
    then none
    else some (record {
      failure_threshold = failure_threshold;
      cooldown = cooldown;
      consecutive_failures = 0;
      opened_at = none;
    })

unfoldable pub is_open : Breaker → Bool
is_open b = is_some b.opened_at

-- `remaining` is positive exactly when `opened_at + cooldown` is after the clock, and the
-- subtraction is made only then.
unfoldable pub check : ℕ → Exec Exc Breaker (Unit {0})
check now b = elim b.opened_at [
  | none ↦ pure tt b
  | some opened_at ↦
      if ltb now (opened_at + b.cooldown)
      then raise (circuit_open (opened_at + b.cooldown - now)) b
      else pure tt b
]

unfoldable pub record_success : Breaker → Breaker
record_success b = record b { consecutive_failures = 0; opened_at = none }

unfoldable pub record_failure : ℕ → Breaker → Breaker
record_failure now b =
    let b' = record b { consecutive_failures = b.consecutive_failures + 1 } in
    if leb b'.failure_threshold b'.consecutive_failures
    then record b' { opened_at = some now }
    else b'
