-- ===== src/Ingestion/Adapter/Calls.antt =====
-- `_get`: what a call tells the circuit breaker, and that an open breaker lets no request out.
use anime_app_backend.Prelude.{ℕ, List, ◌∷◌, String, ◌≤◌, ◌≡◌, ap, arith}
use anime_app_backend.Exec.{Result, ok, err, continue}
use anime_app_backend.Json.{Json}
use anime_app_backend.Ingestion.Errors.{
  Exc, gone_error, permanent_error, access_denied, transient_error, network_error, circuit_open,
  raw_store_error, repeated_unexpected, database_error, unexpected, interrupted,
}
use anime_app_backend.Ingestion.Runtime.{Outside, Request, anime_list}
use anime_app_backend.Ingestion.Breaker
use anime_app_backend.Ingestion.Breaker.{Breaker}
use anime_app_backend.Ingestion.Adapter.{Adapter, fetch, report, guarded, get, list_anime}
use anime_app_backend.Ingestion.Adapter.Attempts.{Answered, fetch-Answered, fetch-Spent}

-- The breaker after a call that it let through, by how the call ended and when.
abbrev pub breaker_after : Result Exc Json → ℕ → Breaker → Breaker
breaker_after (ok json) now b = Breaker.record_success b
breaker_after (err (gone_error status)) now b = Breaker.record_success b
breaker_after (err (permanent_error status)) now b = Breaker.record_success b
breaker_after (err (transient_error status)) now b = Breaker.record_failure now b
breaker_after (err (network_error status)) now b = Breaker.record_failure now b
breaker_after (err (access_denied status)) now b = b
breaker_after (err (circuit_open remaining)) now b = b
breaker_after (err raw_store_error) now b = b
breaker_after (err (repeated_unexpected n)) now b = b
breaker_after (err database_error) now b = b
breaker_after (err unexpected) now b = b
breaker_after (err interrupted) now b = b

module _ (out : Outside) (request : Request) (a : Adapter) where
  report-breaker :
      (e : Exc) (b : Adapter)
      → b.breaker ≡ a.breaker
      → (report out e b).breaker ≡ breaker_after (err e) (report out e b).clock.time a.breaker
  unfolding report
  report-breaker (gone_error status) b kept = ap Breaker.record_success kept
  report-breaker (permanent_error status) b kept = ap Breaker.record_success kept
  report-breaker (access_denied status) b kept = kept
  report-breaker (transient_error status) b kept = ap (Breaker.record_failure b.clock.time) kept
  report-breaker (network_error status) b kept = ap (Breaker.record_failure b.clock.time) kept
  report-breaker (circuit_open remaining) b kept = kept
  report-breaker raw_store_error b kept = kept
  report-breaker (repeated_unexpected n) b kept = kept
  report-breaker database_error b kept = kept
  report-breaker unexpected b kept = kept
  report-breaker interrupted b kept = kept

  guarded-breaker :
      (fetched : Result Exc Json × Adapter)
      → fetched.1.breaker ≡ a.breaker
      → let (r, b) = guarded out fetched in b.breaker ≡ breaker_after r b.clock.time a.breaker
  unfolding guarded
  guarded-breaker (ok json, b) kept = ap Breaker.record_success kept
  guarded-breaker (err e, b) kept = report-breaker e b kept

  -- Where the breaker does not refuse, and at least one attempt may be made: JSON, or the error that
  -- the anime is gone or that the answer is unusable, is recorded as a success; a transient or a
  -- network error as a failure at the time of the call's end; and any other error, a refusal of
  -- access or an interruption among them, leaves the breaker as it was.
  pub get-breaker :
      1 ≤ a.max_attempts
      → (Breaker.check a.clock.time a.breaker).0 ≡ ok tt
      → let (r, b) = get out request a in b.breaker ≡ breaker_after r b.clock.time a.breaker
  unfolding get
  get-breaker positive h = ground (
    arith,
    guarded-breaker (fetch out request a) (fetch-Spent out request a positive).breaker_kept,
  )

  guarded-ok :
      (fetched : Result Exc Json × Adapter) {json : Json}
      → (guarded out fetched).0 ≡ ok json
      → fetched.0 ≡ ok json
  unfolding guarded
  guarded-ok (ok json, b) h = h
  guarded-ok (err e, b) h = absurd (cc h)

  -- What a call returns is what Tenrai answered.
  pub get-Answered : {json : Json} → (get out request a).0 ≡ ok json → Answered out request json
  unfolding get
  get-Answered {json} h = by_check (Breaker.check a.clock.time a.breaker).0 h
    where
      by_check :
          (r : Result Exc (Unit {0}))
          → (continue (r, a) (λ _ a. guarded out (fetch out request a))).0 ≡ ok json
          → Answered out request json
      by_check (ok u) k = fetch-Answered out request a (guarded-ok (fetch out request a) k)
      by_check (err e) k = absurd (cc k)

pub list_anime-Answered :
    (out : Outside) (page : ℕ) (filters : List (String × String)) (a : Adapter) {json : Json}
    → (list_anime out page filters a).0 ≡ ok json
    → Answered out (anime_list page 100 (("rating", "g,pg,pg13,r17,r") ∷ filters)) json
unfolding list_anime
list_anime-Answered out page filters a h =
    get-Answered out (anime_list page 100 (("rating", "g,pg,pg13,r17,r") ∷ filters)) a h
