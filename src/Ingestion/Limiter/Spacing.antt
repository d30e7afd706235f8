-- ===== src/Ingestion/Limiter/Spacing.antt =====
-- How the requests that the limiter lets through are spaced.
use anime_app_backend.Prelude.{
  ap, refl, ℕ, zero, suc, ◌+◌, ◌*◌, ◌/◌, ◌≤◌, ◌≡◌, Option, none, some, arith,
}
use anime_app_backend.Exec.{Result, ok, err}
use anime_app_backend.Ingestion.Errors.{Exc}
use anime_app_backend.Ingestion.Runtime.{Outside, Clock}
use anime_app_backend.Ingestion.Limiter.{Limiter, new, acquire}

-- The last request was let through at `t`, which is not in the future.
pub record LastAt (l : Limiter) (c : Clock) (t : ℕ) : Type 0 where
  pub stamped : l.last_request_time ≡ some t
  pub past : t ≤ c.time

module _ (out : Outside) (l : Limiter) (c : Clock) where
  -- A call that returns has stamped the limiter with the time that the clock shows.
  pub acquire-LastAt :
      {l' : Limiter} {c' : Clock}
      → acquire out l c ≡ (ok tt, l', c')
      → LastAt l' c' c'.time × (l'.interval ≡ l.interval) × (c.time ≤ c'.time)
  unfolding acquire
  acquire-LastAt h = ground arith

  -- After an earlier request it has waited until the interval was over.
  pub acquire_waits :
      {l' : Limiter} {c' : Clock} (t : ℕ)
      → LastAt l c t
      → acquire out l c ≡ (ok tt, l', c')
      → t + l.interval ≤ c'.time
  unfolding acquire
  acquire_waits t past h = ground arith

-- `n` further requests, with whatever the program does in between; `none` if one is interrupted.
unfoldable pub burst : Outside → ℕ → Limiter → Clock → Option (Limiter × Clock)
burst out zero l c = some (l, c)
burst out (suc n) l c =
    let (r, l', c') = acquire out l c in elim r [ ok u ↦ burst out n l' c' | err e ↦ none ]

-- What one more request adds to the bound, given the bound `rest` for those that follow it.
burst_spaced-next :
    (out : Outside) (n t : ℕ) (l : Limiter) (c : Clock) (r : Result Exc (Unit {0})) (l₁ : Limiter)
    (c₁ : Clock) {l' : Limiter} {c' : Clock}
    → LastAt l c t
    → acquire out l c ≡ (r, l₁, c₁)
    → (elim r [ ok u ↦ burst out n l₁ c₁ | err e ↦ none ]) ≡ some (l', c')
    → (LastAt l₁ c₁ c₁.time
        → burst out n l₁ c₁ ≡ some (l', c')
        → c₁.time + n * l₁.interval ≤ c'.time)
    → t + suc n * l.interval ≤ c'.time
burst_spaced-next out n t l c (err e) l₁ c₁ past step h rest = cc
burst_spaced-next out n t l c (ok u) l₁ c₁ past step h rest =
    let (last, kept, later) = acquire-LastAt out l c step in
    let waited = acquire_waits out l c t past step in
    let bound = rest last h in omega (arith, ap (λ (i : ℕ). n * i) kept)

burst_spaced :
    (out : Outside) (n t : ℕ) (l : Limiter) (c : Clock) {l' : Limiter} {c' : Clock}
    → LastAt l c t
    → burst out n l c ≡ some (l', c')
    → t + n * l.interval ≤ c'.time
unfolding burst
burst_spaced out zero t l c past h = ground arith
burst_spaced out (suc n) t l c past h =
    let (r, l', c') = acquire out l c in
    burst_spaced-next out n t l c r l' c' past refl h (burst_spaced out n c'.time l' c')

-- From the moment a new limiter lets its first request through, `n` further requests take at
-- least `n` intervals of 60 seconds divided by the requests per minute.
pub new-burst :
    (out : Outside) (requests_per_minute n : ℕ) (c : Clock) {l l₁ l' : Limiter} {c₁ c' : Clock}
    → new requests_per_minute ≡ some l
    → acquire out l c ≡ (ok tt, l₁, c₁)
    → burst out n l₁ c₁ ≡ some (l', c')
    → c₁.time + n * (60_000_000 / requests_per_minute) ≤ c'.time
unfolding new
new-burst out rpm n c {l} {l₁} {l'} {c₁} made first rest =
    let (last, kept, later) = acquire-LastAt out l c first in
    let bound = burst_spaced out n c₁.time l₁ c₁ last rest in
    let interval : l₁.interval ≡ 60_000_000 / rpm = ground arith in
    omega (arith, ap (λ (i : ℕ). n * i) interval)
