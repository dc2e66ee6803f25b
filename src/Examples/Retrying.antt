-- ===== src/Examples/Retrying.antt =====
-- Retries, delays, digests and watches at concrete inputs.
use core_provider.Base.{
  ℕ, suc, ◌+◌, ◌*◌, ◌^◌, ◌≤◌, min, List, [], ◌∷◌, some, Bool, true, false, ◌≡◌, refl, arith, ◌==◌,
  if◌then◌else◌,
}
use core_provider.Base.Result.{net, Result, ok, err}
use core_provider.Base.Exec.{Exec}
use core_provider.Base.Exec.Keeps.{Keeps}
use core_provider.Retry.{Config, pos, effective_attempts, retry_do, int64_lt, delay}
use core_provider.Retry.Attempts.{Run, retry_do-Run}
use core_provider.Retry.Delays.{delay_bounded, delay-min}
use core_provider.Hash.Digest.{get_hash-injective}
use core_provider.Watcher.{Signal, event, watch_loop}
use core_provider.Watcher.Outcomes.{BecomesReady, watch_loop-ok}

-- An operation that counts its calls and answers at the third, tried four times at most.
abbrev third_time : Exec ℕ ℕ
third_time n = if n == 2 then (ok 7, n + 1) else (err (net true false), n + 1)

abbrev four_times : Config ℕ
four_times = record {
  attempts = pos 4;
  initial_delay = 100;
  maximum_delay = 300;
  wait = λ d n. (ok tt, n);
  retryable = λ e. true;
  on_retry = λ attempt d e n. n;
}

retry_do-Run_example :
    (calls : ℕ) × Run four_times third_time
      (effective_attempts four_times.attempts)
      1
      calls
      0
      (retry_do four_times third_time 0).0
      (retry_do four_times third_time 0).1
    × (1 ≤ calls)
    × (calls ≤ effective_attempts four_times.attempts)
retry_do-Run_example = retry_do-Run four_times third_time 0

abbrev IsSmall : ℕ → Type 0
IsSmall n = n ≤ 100

abbrev modest : Exec ℕ ℕ
modest n = if n == 2 then (ok 7, n) else (err (net true false), 2)

modest-Keeps : Keeps IsSmall modest
modest-Keeps = record { holds = λ s h. ground arith }

three_calls : retry_do four_times third_time 0 ≡ (ok 7, 3)
unfolding retry_do
three_calls = refl

delay_bounded_example : int64_lt 300 (delay 100 300 3) ≡ false
delay_bounded_example = delay_bounded 100 300 3 refl

delay-min_example : delay 100 300 (suc 2) ≡ min (100 * 2 ^ 2) 300
delay-min_example = delay-min 100 300 2 (omega arith) (omega arith) (omega arith)

get_hash-injective_example : ◌≡◌ {A = ℕ} 255 255
get_hash-injective_example = get_hash-injective 255 255 (omega arith) (omega arith) refl

abbrev one_byte : ℕ → Result (List ℕ)
one_byte n = ok (n ∷ [])

abbrev is_three : ℕ → Bool
is_three n = n == 3

abbrev becomes_three : List (Signal ℕ)
becomes_three = event "ADDED" (some 1) ∷ event "MODIFIED" (some 3) ∷ []

watch_loop-ok_example :
    (watch_loop is_three becomes_three ≡ ok tt → BecomesReady is_three becomes_three)
    × (BecomesReady is_three becomes_three → watch_loop is_three becomes_three ≡ ok tt)
watch_loop-ok_example = watch_loop-ok is_three becomes_three
