-- ===== src/Base/Exec/Keeps.antt =====
-- Invariants of actions, one rule for each way to build an action.
use mathlib.Core.Path.{◌≡◌, refl, subst}
use mathlib.Core.Bool.{Bool, true, false}
use core_provider.Base.Tests.{if◌then◌else◌}
use core_provider.Base.Result.{Error, Result, ok, err}
use core_provider.Base.Exec.{Exec, pure, raise, lift, attempt, on_error, continue, ◌>>=◌}

-- An action keeps an invariant if the state that it leaves, beside a value or an error, has it.
pub record Keeps {ℓ} {W A : Type ℓ} (I : W → Type ℓ) (action : Exec W A) : Type ℓ where
  pub holds : (w : W) → I w → I (action w).1

module _ {ℓ} {W A B : Type ℓ} {I : W → Type ℓ} where
  continue-Keeps :
      (next : A → Exec W B)
      → ((x : A) → Keeps I (next x))
      → (outcome : Result A × W) → I outcome.1
      → I (continue outcome.0 next outcome.1).1
  continue-Keeps next rest (ok x, w) i = (rest x).holds w i
  continue-Keeps next rest (err e, w) i = i

  pub Keeps-bind :
      (first : Exec W A) (next : A → Exec W B)
      → Keeps I first
      → ((x : A) → Keeps I (next x))
      → Keeps I (first >>= next)
  unfolding ◌>>=◌
  Keeps-bind first next one rest = record {
    holds = λ w i. continue-Keeps next rest (first w) (one.holds w i);
  }

module _ {ℓ} {W A : Type ℓ} {I : W → Type ℓ} where
  -- what does not touch the state
  abbrev idle : (r : Result A) → Keeps I (lift r)
  idle r = record { holds = λ w i. i }

  pub Keeps-lift : (r : Result A) → Keeps I (lift r)
  Keeps-lift = idle

  pub Keeps-pure : (x : A) → Keeps I (pure x)
  Keeps-pure x = idle (ok x)

  pub Keeps-raise : (e : Error) → Keeps I (raise {A = A} e)
  Keeps-raise e = idle (err e)

  pub Keeps-if :
      (test : Bool) (then_part else_part : Exec W A)
      → (test ≡ true → Keeps I then_part)
      → (test ≡ false → Keeps I else_part)
      → Keeps I (if test then then_part else else_part)
  Keeps-if false then_part else_part on_yes on_no = on_no refl
  Keeps-if true then_part else_part on_yes on_no = on_yes refl

  pub Keeps-attempt : (action : Exec W A) → Keeps I action → Keeps I (attempt action)
  Keeps-attempt action k = record { holds = λ w i. k.holds w i }

  pub Keeps-on_error :
      (f : Error → Error) (action : Exec W A) → Keeps I action → Keeps I (on_error f action)
  unfolding on_error
  Keeps-on_error f action k = record { holds = λ w i. k.holds w i }

-- an invariant after an action with a known outcome
pub after {ℓ} :
    {W A : Type ℓ} {I : W → Type ℓ} {m : Exec W A} {w w' : W} {r : Result A}
    → Keeps I m
    → m w ≡ (r, w')
    → I w
    → I w'
after {I = I} {w = w} k e i = subst (λ o. I o.1) e (k.holds w i)

pub ruleset keeps_rules =
    (Keeps-bind, Keeps-on_error, Keeps-attempt, Keeps-if, Keeps-pure, Keeps-lift, Keeps-raise)
