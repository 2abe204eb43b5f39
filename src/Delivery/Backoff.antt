-- ===== src/Delivery/Backoff.antt =====
-- How long a failed delivery waits.
use native.Mathlib.Nat.{one-le-pow, pow-le-pow_right, pow-succ'}
use qu_v.Prelude.{ℕ, zero, suc, ◌+◌, ◌-◌, ◌*◌, ◌^◌, ◌≤◌, ◌≡◌, refl, min, arith}
use qu_v.Delivery.{backoff_ms}

doubled : (m : ℕ) → 1 ≤ m → 2 ^ (m + 1 - 1) ≡ 2 * 2 ^ (m - 1)
doubled zero h = absurd (omega (arith, h))
doubled (suc m) h =
    let next : suc m + 1 - 1 ≡ suc m = omega arith in
    let this : suc m - 1 ≡ m = omega arith in rw (next, this, pow-succ' 2 m) refl

-- The wait after the first attempt is thirty seconds, and each further attempt doubles it, up to six
-- hours; so it is never less than thirty seconds, never more than six hours, and never shorter after
-- more attempts.
pub backoff_ms-doubles :
    (m d : ℕ)
    → 1 ≤ m
    → (backoff_ms 1 ≡ 30000)
      × (backoff_ms (m + 1) ≡ min (2 * backoff_ms m) 21600000)
      × (30000 ≤ backoff_ms m)
      × (backoff_ms m ≤ backoff_ms (m + d))
      × (backoff_ms (m + d) ≤ 21600000)
unfolding backoff_ms
backoff_ms-doubles m d h =
    let one : 1 ≤ 2 ^ (m - 1) = one-le-pow (m - 1) 2 (omega arith) in
    let more : 2 ^ (m - 1) ≤ 2 ^ (m + d - 1) =
      pow-le-pow_right {n = 2} (omega arith) (omega arith) in
    let twice = doubled m h in (refl, omega arith, omega arith, omega arith, omega arith)
