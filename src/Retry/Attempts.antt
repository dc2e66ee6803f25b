-- ===== src/Retry/Attempts.antt =====
-- What `Do` does.
use mathlib.Core.Path.{subst}
use native.Mathlib.Decide.{dec_lt}
use core_provider.Base.{
  lt→eqb, eqb_of_eq, ap, ◌∙◌, ℕ, zero, suc, ◌+◌, ◌≤◌, ◌<◌, ◌≡◌, ◌⊎◌, inl, inr, true, false, arith,
  Bool-cases,
}
use core_provider.Base.Result.{Error, Result, ok, err, Result-cases}
use core_provider.Base.Exec.{Exec}
use core_provider.Base.Exec.Keeps.{Keeps}
use core_provider.Retry.{
  Config, ℤ, pos, negsuc, delay, effective_attempts, wait_then, after_wait, attempt_result,
  retry_loop, retry_do,
}

-- The runs that the retry discipline allows: `Run attempt calls s r s'` is a run that begins with
-- attempt number `attempt` in state `s`, calls the operation `calls` times and ends in `s'` with `r`.
module _ {S A : Type 0} (cfg : Config S) (operation : Exec S A) where
  pub data Run (attempts : ℕ) : ℕ → ℕ → S → Result A → S → Type 0 where
    succeed :
        {attempt : ℕ} {s s' : S} (a : A)
        → operation s ≡ (ok a, s')
        → Run attempts attempt 1 s (ok a) s'
    give_up :
        {attempt : ℕ} {s s' : S} (e : Error)
        → operation s ≡ (err e, s')
        → (cfg.retryable e ≡ false) ⊎ (attempt ≡ attempts)
        → Run attempts attempt 1 s (err e) s'
    stop :
        {attempt : ℕ} {s s' t : S} (e x : Error)
        → operation s ≡ (err e, s')
        → cfg.retryable e ≡ true
        → attempt < attempts
        → cfg.wait
            (delay cfg.initial_delay cfg.maximum_delay attempt)
            (cfg.on_retry attempt (delay cfg.initial_delay cfg.maximum_delay attempt) e s')
          ≡ (err x, t)
        → Run attempts attempt 1 s (err x) t
    again :
        {attempt calls : ℕ} {s s' t u : S} {r : Result A} (e : Error)
        → operation s ≡ (err e, s')
        → cfg.retryable e ≡ true
        → attempt < attempts
        → cfg.wait
            (delay cfg.initial_delay cfg.maximum_delay attempt)
            (cfg.on_retry attempt (delay cfg.initial_delay cfg.maximum_delay attempt) e s')
          ≡ (ok tt, t)
        → Run attempts (attempt + 1) calls t r u
        → Run attempts attempt (suc calls) s r u

  -- Some run from attempt number `attempt` gives the outcome `o`, in at most `most` calls.
  abbrev pub Outcome : ℕ → ℕ → ℕ → S → Result A × S → Type 0
  Outcome attempts most attempt s o =
      (calls : ℕ) × Run attempts attempt calls s o.0 o.1 × (calls ≤ most)

  waited-Outcome :
      (attempts most attempt : ℕ) (e : Error) (s t : S) (next : Exec S A)
      → operation s ≡ (err e, t)
      → cfg.retryable e ≡ true
      → attempt < attempts
      → ((u : S) → Outcome attempts most (attempt + 1) u (next u))
      → Outcome attempts (suc most) attempt s (wait_then cfg operation attempt e next t)
  waited-Outcome attempts most attempt e s t next h yes_retry lt rest =
      let d = delay cfg.initial_delay cfg.maximum_delay attempt in
      elim (Result-cases (cfg.wait d (cfg.on_retry attempt d e t))) [
        | inl (u, t', w) ↦
            let (calls, run, few) = rest t' in
            rw (w, wait_then, after_wait) (suc calls, again e h yes_retry lt w run, omega arith)
        | inr (x, t', w) ↦ rw (w, wait_then, after_wait) (1, stop e x h yes_retry lt w, omega arith)
      ]

  failed-Outcome :
      (attempts most attempt : ℕ) (e : Error) (s t : S) (next : Exec S A)
      → operation s ≡ (err e, t)
      → attempt ≤ attempts
      → (attempt < attempts → (u : S) → Outcome attempts most (attempt + 1) u (next u))
      → Outcome attempts
          (suc most)
          attempt
          s
          (attempt_result cfg operation attempts attempt next (err e) t)
  failed-Outcome attempts most attempt e s t next h le rest = elim (Bool-cases (cfg.retryable e)) [
    | inr stop_now ↦ rw stop_now (1, give_up e h (inl stop_now), omega arith)
    | inl go_on ↦ elim (dec_lt attempt attempts) [
      | yes lt ↦
          rw (go_on, lt→eqb attempt attempts lt)
            (waited-Outcome attempts most attempt e s t next h go_on lt (rest lt))
      | no ge ↦
          let last : attempt ≡ attempts = omega arith in
          rw (go_on, eqb_of_eq attempt attempts last) (1, give_up e h (inr last), omega arith)
    ]
  ]

  retry_loop-Outcome :
      (attempts rounds attempt : ℕ) (s : S)
      → rounds + attempt ≡ attempts
      → Outcome attempts
          (suc rounds)
          attempt
          s
          (retry_loop cfg operation (suc rounds) attempts attempt s)
  unfolding retry_loop
  retry_loop-Outcome attempts zero attempt s e = elim (Result-cases (operation s)) [
    | inl (a, t, h) ↦ rw h (1, succeed a h, omega arith)
    | inr (x, t, h) ↦ rw h (
        failed-Outcome attempts 0 attempt x s t
          (λ u. retry_loop cfg operation 0 attempts (attempt + 1) u) h (omega arith)
          (λ lt. absurd (omega arith)))
  ]
  retry_loop-Outcome attempts (suc rounds) attempt s e = elim (Result-cases (operation s)) [
    | inl (a, t, h) ↦ rw h (1, succeed a h, omega arith)
    | inr (x, t, h) ↦ rw h (
        failed-Outcome attempts (suc rounds) attempt x s t
          (λ u. retry_loop cfg operation (suc rounds) attempts (attempt + 1) u) h (omega arith)
          (λ lt u. retry_loop-Outcome attempts rounds (attempt + 1) u (omega arith)))
  ]

  Run-calls :
      {attempts attempt calls : ℕ} {s s' : S} {r : Result A}
      → Run attempts attempt calls s r s'
      → 1 ≤ calls
  Run-calls (succeed a h) = omega arith
  Run-calls (give_up e h g) = omega arith
  Run-calls (stop e x h y lt w) = omega arith
  Run-calls (again e h y lt w run) = omega arith

  effective_attempts_pos : (n : ℤ) → 0 < effective_attempts n
  unfolding effective_attempts
  effective_attempts_pos (pos zero) = omega arith
  effective_attempts_pos (pos (suc n)) = omega arith
  effective_attempts_pos (negsuc n) = omega arith

  retry_from-Outcome : (n : ℕ) (s : S) → 0 < n → Outcome n n 1 s (retry_loop cfg operation n n 1 s)
  retry_from-Outcome zero s h = elim h [ ]
  retry_from-Outcome (suc n) s h = retry_loop-Outcome (suc n) n 1 s (omega arith)

  -- Every call of `Do` is a run of the retry discipline that starts with attempt 1 and calls the
  -- operation at least once and at most `Attempts` times, once where `Attempts` is not positive.
  -- In particular a value or an error is the operation's own or the wait's.
  pub retry_do-Run :
      (s : S)
      → (calls : ℕ) × Run
          (effective_attempts cfg.attempts)
          1
          calls
          s
          (retry_do cfg operation s).0
          (retry_do cfg operation s).1
        × (1 ≤ calls)
        × (calls ≤ effective_attempts cfg.attempts)
  unfolding retry_do
  retry_do-Run s =
      let n = effective_attempts cfg.attempts in
      let (calls, run, few) = retry_from-Outcome n s (effective_attempts_pos cfg.attempts) in
      (calls, run, Run-calls run, few)

  -- An operation, a wait and a notification that keep `P` are repeated under `P`.
  module _ (P : S → Type 0) (op : Keeps P operation) (waits : (d : ℕ) → Keeps P (cfg.wait d))
      (notes : (n d : ℕ) (e : Error) (s : S) → P s → P (cfg.on_retry n d e s)) where
    after : {s t : S} {r : Result A} → operation s ≡ (r, t) → P s → P t
    after {s} h p = subst (λ o. P o.1) h (op.holds s p)

    after_waiting :
        {s t u : S} {r : Result (Unit {0})} {n d : ℕ} {e : Error} {q : Result A}
        → operation s ≡ (q, t)
        → cfg.wait d (cfg.on_retry n d e t) ≡ (r, u)
        → P s
        → P u
    after_waiting {t = t} {n = n} {d = d} {e = e} h w p =
        subst (λ o. P o.1) w ((waits d).holds (cfg.on_retry n d e t) (notes n d e t (after h p)))

    Run-keeps :
        {attempts attempt calls : ℕ} {s s' : S} {r : Result A}
        → Run attempts attempt calls s r s'
        → P s
        → P s'
    Run-keeps (succeed a h) p = after h p
    Run-keeps (give_up e h g) p = after h p
    Run-keeps (stop e x h y lt w) p = after_waiting h w p
    Run-keeps (again e h y lt w run) p = Run-keeps run (after_waiting h w p)

    -- What the operation, the waits and the notifications keep holds at the end of `Do`, whatever it
    -- returns, if it holds at the beginning.
    pub retry_do-keeps : (s : S) → P s → P (retry_do cfg operation s).1
    retry_do-keeps s p = Run-keeps (retry_do-Run s).1 p

    pub retry_do-Keeps : Keeps P (retry_do cfg operation)
    retry_do-Keeps = record { holds = retry_do-keeps }

  -- What holds of every state in which an attempt is made: of the first, and, where an attempt
  -- fails, of the next.
  module _ (P : S → Type 0) (fails : (s t : S) (e : Error) → operation s ≡ (err e, t) → P s → P t)
      (waits : (d : ℕ) → Keeps P (cfg.wait d))
      (notes : (n d : ℕ) (e : Error) (s : S) → P s → P (cfg.on_retry n d e s)) where
    Run-ok :
        {attempts attempt calls : ℕ} {s s' : S} {r : Result A}
        → Run attempts attempt calls s r s'
        → P s
        → (a : A) → r ≡ ok a
        → (t : S) × P t × (operation t ≡ (ok a, s'))
    Run-ok {s = s} (succeed b h) p a e = (s, p, cc)
    Run-ok (give_up e h g) p a q = cc
    Run-ok (stop e x h y lt w) p a q = cc
    Run-ok (again {attempt = n} {s = s} {s' = t} e h y lt w run) p a q =
        let d = delay cfg.initial_delay cfg.maximum_delay n in
        let p' = (waits d).holds (cfg.on_retry n d e t) (notes n d e t (fails s t e h p)) in
        Run-ok run (subst (λ o. P o.1) w p') a q

    -- A value that `Do` returns is the answer of one call of the operation, made in a state that
    -- satisfies `P`, and the state is the one that this call leaves: nothing follows it. `P` is any
    -- property of the first state that failed calls, waits and notifications keep.
    pub retry_do-ok :
        (s t : S) (a : A)
        → retry_do cfg operation s ≡ (ok a, t)
        → P s
        → (u : S) × P u × (operation u ≡ (ok a, t))
    retry_do-ok s t a h p =
        let (u, q, e) = Run-ok (retry_do-Run s).1 p a (ap (λ o. o.0) h) in
        (u, q, e ∙ ap (λ (x : S). (ok a, x)) (ap (λ o. o.1) h))
