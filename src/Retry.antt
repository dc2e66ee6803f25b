-- ===== src/Retry.antt =====
-- internal/tools/retry: an operation is called again after a delay while its error allows it.
-- The state `S` is all that the operation and the wait may read or change.
pub mod Attempts
pub mod Delays
use core_provider.Base.{
  ℕ, zero, suc, ◌+◌, ◌-◌, ◌*◌, ◌%◌, ◌^◌, Bool, true, false, not, ◌&&◌, ◌||◌, ltb, leb, ◌==◌,
  if◌then◌else◌,
}
use core_provider.Base.Result.{Error, canceled, text, Result, ok, err, is_canceled}
use core_provider.Base.Exec.{Exec}

-- time.Duration: the 64 bits of an int64.
abbrev pub int64_mod : ℕ
int64_mod = 18446744073709551616

abbrev pub int64_half : ℕ
int64_half = 9223372036854775808

-- a < b as int64
abbrev pub int64_lt : ℕ → ℕ → Bool
int64_lt a b = ltb ((a + int64_half) % int64_mod) ((b + int64_half) % int64_mod)

-- Go's `int`, as far as `Attempts` needs it: `negsuc n` is the negative number -(n + 1).
pub data ℤ : Type 0 where
  pos : ℕ → ℤ
  negsuc : ℕ → ℤ

abbrev clamp_delay : ℕ → ℕ → ℕ
clamp_delay maximum delay = if int64_lt 0 maximum && int64_lt maximum delay then maximum else delay

-- Delay(initial, maximum, attempt)
unfoldable pub delay : ℕ → ℕ → ℕ → ℕ
delay initial maximum attempt =
    if leb attempt 1
    then clamp_delay maximum initial
    else clamp_delay maximum (initial * 2 ^ (attempt - 1) % int64_mod)

-- `Wait` is given the delay, `OnRetry` the attempt, the delay and the error. A caller that leaves
-- `Retryable` nil is `no_retry`.
pub record Config (S : Type 0) : Type 0 where
  pub attempts : ℤ
  pub initial_delay : ℕ
  pub maximum_delay : ℕ
  pub wait : ℕ → Exec S (Unit {0})
  pub retryable : Error → Bool
  pub on_retry : ℕ → ℕ → Error → S → S

abbrev pub no_retry : Error → Bool
no_retry e = false

-- if attempts <= 0 { attempts = 1 }
unfoldable pub effective_attempts : ℤ → ℕ
effective_attempts (pos zero) = 1
effective_attempts (pos (suc n)) = suc n
effective_attempts (negsuc n) = 1

abbrev pub exhausted : Error
exhausted = text "retry exhausted unexpectedly"

-- if err := wait(ctx, delay); err != nil { return zeroValue, err }
abbrev pub after_wait : {S A : Type 0} → Exec S A → Result (Unit {0}) × S → Result A × S
after_wait next (ok u, s) = next s
after_wait next (err e, s) = (err e, s)

module _ {S A : Type 0} (cfg : Config S) (operation : Exec S A) where
  -- what follows a failed attempt that is to be repeated: OnRetry, the wait, and the next round
  abbrev pub wait_then : ℕ → Error → Exec S A → Exec S A
  wait_then attempt e next s =
      let d = delay cfg.initial_delay cfg.maximum_delay attempt in
      after_wait next (cfg.wait d (cfg.on_retry attempt d e s))

  abbrev pub attempt_result : ℕ → ℕ → Exec S A → Result A → Exec S A
  attempt_result attempts attempt next (ok a) s = (ok a, s)
  attempt_result attempts attempt next (err e) s =
      if not (cfg.retryable e) || attempt == attempts
      then (err e, s)
      else wait_then attempt e next s

  -- The loop: the rounds that are left, `attempts`, and the number of this attempt.
  unfoldable pub retry_loop : ℕ → ℕ → ℕ → Exec S A
  retry_loop zero attempts attempt s = (err exhausted, s)
  retry_loop (suc rounds) attempts attempt s =
      let (r, s') = operation s in
      attempt_result attempts attempt (λ t. retry_loop rounds attempts (attempt + 1) t) r s'

  -- Do(ctx, cfg, operation)
  unfoldable pub retry_do : Exec S A
  unfolding effective_attempts retry_loop
  retry_do = let n = effective_attempts cfg.attempts in retry_loop n n 1
