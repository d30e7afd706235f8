-- ===== src/Ingestion/Parsers/Details/Minutes.antt =====
-- About the duration of an episode in minutes.
use anime_app_backend.Prelude.{
  ℕ, ◌+◌, ◌*◌, ◌^◌, ◌==◌, max, ◌≤◌, ◌<◌, ◌≡◌, refl, inl, inr, ◌⊎◌, Bool, true, false, none, some,
  arith, if◌then◌else◌,
}
use anime_app_backend.Ingestion.Parsers.Details.{rounded_minutes, minutes_of}

pub rounded_minutes-near :
    (seconds : ℕ)
    → (60 * rounded_minutes seconds ≤ seconds + 30) × (seconds ≤ 60 * rounded_minutes seconds + 30)
rounded_minutes-near seconds = ground arith

bounded : (m seconds : ℕ) → seconds ≤ 60 * m + 30 → seconds ≤ 60 * max 1 m + 30
bounded m seconds h = ground arith

near : (m seconds : ℕ) → 60 * m ≤ seconds + 30 → (max 1 m ≡ 1) ⊎ (60 * max 1 m ≤ seconds + 30)
near m seconds h = ground arith

-- For a duration below 2^50 seconds, where the float quotient of the code rounds as the exact one
-- does: there are no minutes exactly when the parts of the duration add up to nothing. Otherwise
-- there is at least one, and if there are more, they are at most half a minute off.
pub minutes_of-near :
    (seconds : ℕ)
    → seconds < 2 ^ 50
    → ((minutes_of seconds ≡ none) × (seconds ≡ 0))
      ⊎ ((m : ℕ) × (minutes_of seconds ≡ some m)
          × (0 < seconds)
          × (1 ≤ m)
          × (seconds ≤ 60 * m + 30)
          × ((m ≡ 1) ⊎ (60 * m ≤ seconds + 30)))
unfolding minutes_of
minutes_of-near seconds exact = by_test (seconds == 0) refl
  where
    by_test :
        (b : Bool)
        → (seconds == 0) ≡ b
        → (((if b then none else some (max 1 (rounded_minutes seconds))) ≡ none) × (seconds ≡ 0))
          ⊎ ((m : ℕ) × ((if b then none else some (max 1 (rounded_minutes seconds))) ≡ some m)
              × (0 < seconds)
              × (1 ≤ m)
              × (seconds ≤ 60 * m + 30)
              × ((m ≡ 1) ⊎ (60 * m ≤ seconds + 30)))
    by_test true e = inl (refl, ground (arith, e))
    by_test false e = inr (
      max 1 (rounded_minutes seconds),
      refl,
      ground (arith, e),
      ground arith,
      bounded (rounded_minutes seconds) seconds (rounded_minutes-near seconds).1,
      near (rounded_minutes seconds) seconds (rounded_minutes-near seconds).0,
    )
