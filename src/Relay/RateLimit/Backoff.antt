-- ===== src/Relay/RateLimit/Backoff.antt =====
-- src/relay/rate_limit.rs: the backoff schedule against its formula.
use wotcrawler.Prelude.{
  ℕ, ◌+◌, ◌-◌, ◌*◌, ◌/◌, ◌%◌, ◌^◌, ◌≤◌, ◌<◌, min, ◌≡◌, arith, if◌then◌else◌, ◌==◌,
}
use native.Mathlib.Decide.{dec_le}
use native.Mathlib.Nat.{pow-le-pow_right}
use wotcrawler.Relay.RateLimit.{backoff_delay_unjittered, backoff_delay}

pow_bound : (n : ℕ) → n ≤ 63 → 2 ^ n ≤ 2 ^ 63
pow_bound n h = pow-le-pow_right (omega arith) h

pow_large : (n : ℕ) → 64 ≤ n → 2 ^ 64 ≤ 2 ^ n
pow_large n h = pow-le-pow_right (omega arith) h

-- For a base of at least a nanosecond, and a base and a cap below 2^64 nanoseconds (584 years), the
-- schedule is the formula: no shift loses bits, and no number of failures comes back to a short
-- delay.
pub backoff_delay_unjittered-eq-min :
    (failures base cap : ℕ)
    → 0 < base
    → base < 2 ^ 64
    → cap < 2 ^ 64
    → backoff_delay_unjittered failures base cap ≡ min (base * 2 ^ failures) cap
unfolding backoff_delay_unjittered
backoff_delay_unjittered-eq-min failures base cap pos small fits = elim (dec_le 64 failures) [
  | yes many ↦
      let big = pow_large failures many in
      let product : 2 ^ failures ≤ base * 2 ^ failures = grind arith in ground arith
  | no few ↦
      let bound = pow_bound failures (omega arith) in
      let product : base * 2 ^ failures ≤ base * 2 ^ 63 = grind arith in ground arith
]

-- The delay after jitter lies in the upper half of the scheduled delay, whatever is drawn.
pub backoff_delay_bounds :
    (draw : ℕ → ℕ) (failures base cap : ℕ)
    → ((n : ℕ) → draw n ≤ n)
    → (backoff_delay_unjittered failures base cap / 2 ≤ backoff_delay draw failures base cap)
      × (backoff_delay draw failures base cap ≤ backoff_delay_unjittered failures base cap)
unfolding backoff_delay
backoff_delay_bounds draw failures base cap fair =
    bounds (backoff_delay_unjittered failures base cap)
  where
    bounds :
        (capped : ℕ)
        → let half = capped / 2 in
          let span = capped - half in
          let delay = half + (if span == 0 then 0 else draw (span % 2 ^ 64)) in
          (half ≤ delay) × (delay ≤ capped)
    bounds capped = ground (arith, fair ((capped - capped / 2) % 2 ^ 64))

-- The schedule never shortens as failures mount, and never passes the cap.
pub backoff_delay_unjittered_mono :
    (failures more base cap : ℕ)
    → failures ≤ more
    → 0 < base
    → base < 2 ^ 64
    → cap < 2 ^ 64
    → (backoff_delay_unjittered failures base cap ≤ backoff_delay_unjittered more base cap)
      × (backoff_delay_unjittered more base cap ≤ cap)
backoff_delay_unjittered_mono failures more base cap le pos small fits =
    let power : 2 ^ failures ≤ 2 ^ more = pow-le-pow_right (omega arith) le in
    let product : base * 2 ^ failures ≤ base * 2 ^ more = grind arith in
    let e = backoff_delay_unjittered-eq-min failures base cap pos small fits in
    let f = backoff_delay_unjittered-eq-min more base cap pos small fits in
    (omega arith, omega arith)
