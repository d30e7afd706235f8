-- ===== src/Ingestion/Breaker/History.antt =====
-- The breaker against the history of the calls: what it does is decided by how many failures
-- stand at the end of the history, and by the time of the last of them.
use anime_app_backend.Prelude.{
  ℕ, ◌+◌, ◌-◌, ◌≤◌, ◌≡◌, Option, none, some, List, [], ◌∷◌, ltb, leb, if◌then◌else◌, arith,
}
use anime_app_backend.Exec.{Result, ok, err}
use anime_app_backend.Ingestion.Errors.{Exc, circuit_open}
use anime_app_backend.Ingestion.Breaker.{Breaker, new, check, record_success, record_failure}

-- What a call reported to the breaker, the latest first.
pub data Report : Type 0 where
  success : Report
  failure : ℕ → Report

abbrev pub replay : Breaker → List Report → Breaker
replay b [] = b
replay b (success ∷ past) = record_success (replay b past)
replay b (failure now ∷ past) = record_failure now (replay b past)

-- How many failures stand at the end of the history, with no success between them.
abbrev pub failures_in_a_row : List Report → ℕ
failures_in_a_row [] = 0
failures_in_a_row (success ∷ past) = 0
failures_in_a_row (failure now ∷ past) = failures_in_a_row past + 1

-- When the last report was a failure, its time.
abbrev pub last_failure : List Report → Option ℕ
last_failure (failure now ∷ past) = some now
last_failure past = none

abbrev pub remaining_of : ℕ → ℕ → Option ℕ → Option ℕ
remaining_of cooldown now none = none
remaining_of cooldown now (some t) =
    if ltb now (t + cooldown) then some (t + cooldown - now) else none

-- For how long a call is refused at `now` after this history, if it is.
abbrev pub verdict : ℕ → ℕ → List Report → ℕ → Option ℕ
verdict threshold cooldown past now =
    remaining_of cooldown now
      (if leb threshold (failures_in_a_row past) then last_failure past else none)

abbrev pub refusal : Option ℕ → Result Exc (Unit {0})
refusal none = ok tt
refusal (some remaining) = err (circuit_open remaining)

-- The breaker's two fields as the history determines them.
pub opened_since : ℕ → List Report → Option ℕ
opened_since threshold past =
    if leb threshold (failures_in_a_row past) then last_failure past else none

record Fits (threshold cooldown : ℕ) (past : List Report) (b : Breaker) : Type 0 where
  threshold_kept : b.failure_threshold ≡ threshold
  cooldown_kept : b.cooldown ≡ cooldown
  failures_counted : b.consecutive_failures ≡ failures_in_a_row past
  opened : b.opened_at ≡ opened_since threshold past

new-Fits :
    (threshold cooldown : ℕ) {b : Breaker}
    → new threshold cooldown ≡ some b
    → (1 ≤ threshold) × Fits threshold cooldown [] b
unfolding new opened_since
new-Fits threshold cooldown h = ground arith

replay-Fits :
    (threshold cooldown : ℕ) (b : Breaker) (past : List Report)
    → 1 ≤ threshold
    → Fits threshold cooldown [] b
    → Fits threshold cooldown past (replay b past)
unfolding opened_since record_success record_failure
replay-Fits threshold cooldown b [] h f = f
replay-Fits threshold cooldown b (success ∷ past) h f =
    ground (arith, replay-Fits threshold cooldown b past h f)
replay-Fits threshold cooldown b (failure now ∷ past) h f =
    ground (arith, replay-Fits threshold cooldown b past h f)

check_of_Fits :
    (threshold cooldown now : ℕ) (past : List Report) (b : Breaker)
    → Fits threshold cooldown past b
    → check now b ≡ (refusal (verdict threshold cooldown past now), b)
unfolding check opened_since
check_of_Fits threshold cooldown now past b f = ground arith

-- A call that comes at `now` after any history of reports to a new breaker is refused exactly
-- when at least `threshold` failures stand at its end and less than the cooldown has passed
-- since the last one; the refusal says how long is left, and checking changes nothing.
pub check-replay :
    (threshold cooldown now : ℕ) {b : Breaker} (past : List Report)
    → new threshold cooldown ≡ some b
    → check now (replay b past) ≡ (refusal (verdict threshold cooldown past now), replay b past)
check-replay threshold cooldown now {b} past h =
    let (positive, fits) = new-Fits threshold cooldown h in
    check_of_Fits threshold cooldown now past (replay b past)
      (replay-Fits threshold cooldown b past positive fits)
