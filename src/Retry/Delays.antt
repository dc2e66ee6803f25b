-- ===== src/Retry/Delays.antt =====
-- The delays between attempts.
use core_provider.Base.{ℕ, zero, suc, ◌*◌, ◌^◌, ◌<◌, min, ◌≡◌, true, false, arith}
use core_provider.Retry.{int64_half, int64_lt, delay}

-- Where a positive maximum is given, no attempt waits longer than it, also where the shift overflows.
pub delay_bounded :
    (initial maximum attempt : ℕ)
    → int64_lt 0 maximum ≡ true
    → int64_lt maximum (delay initial maximum attempt) ≡ false
unfolding delay
delay_bounded initial maximum attempt h = ground arith

-- While the doubled delay fits in an int64, attempt n waits the smaller of initial * 2^(n-1) and the
-- maximum, if that is positive.
pub delay-min :
    (initial maximum n : ℕ)
    → 0 < maximum
    → maximum < int64_half
    → initial * 2 ^ n < int64_half
    → delay initial maximum (suc n) ≡ min (initial * 2 ^ n) maximum
unfolding delay
delay-min initial maximum zero pos h fits = ground arith
delay-min initial maximum (suc n) pos h fits = ground arith
