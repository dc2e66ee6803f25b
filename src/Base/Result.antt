-- ===== src/Base/Result.antt =====
-- Go's `error` values and functions that return one.
-- `context.Canceled`, `context.DeadlineExceeded`, `net.Error` and wrapping by `%w` are the standard
-- library's. `status` is a `*apierrors.StatusError`, of which the program reads `ErrStatus.Code`.
-- `panic` stands for a panic of the Go runtime, which no caller below the reconciler recovers.
-- The text of an error is its format, without the values that are put in.
use Prim.Native.Nat.{ℕ}
use Prim.Native.String.{String}
use mathlib.Core.Path.{◌≡◌, refl}
use mathlib.Core.Logic.{◌⊎◌, inl, inr}
use mathlib.Core.Bool.{Bool, true, false, ◌||◌}

pub data Error : Type 0 where
  canceled deadline_exceeded : Error
  net : Bool → Bool → Error
  status : ℕ → String → Error
  text : String → Error
  panic : String → Error
  wrap : String → Error → Error

pub data Result {ℓ} (A : Type ℓ) : Type ℓ where
  ok : A → Result A
  err : Error → Result A

-- errors.Is(err, context.Canceled)
unfoldable pub is_canceled : Error → Bool
is_canceled canceled = true
is_canceled (wrap m e) = is_canceled e
is_canceled _ = false

-- errors.Is(err, context.DeadlineExceeded)
unfoldable pub is_deadline_exceeded : Error → Bool
is_deadline_exceeded deadline_exceeded = true
is_deadline_exceeded (wrap m e) = is_deadline_exceeded e
is_deadline_exceeded _ = false

-- errors.As(err, &netErr) && (netErr.Timeout() || netErr.Temporary()); the error of an exceeded
-- deadline is a net.Error that says yes to both
unfoldable pub is_transient_net : Error → Bool
is_transient_net deadline_exceeded = true
is_transient_net (net timeout temporary) = timeout || temporary
is_transient_net (wrap m e) = is_transient_net e
is_transient_net _ = false

-- k8s.io/apimachinery/pkg/api/errors: the tests on an error that the program calls.
pub record ApiErrors : Type 0 where
  pub is_not_found : Error → Bool
  pub is_forbidden : Error → Bool
  pub is_unauthorized : Error → Bool
  pub is_invalid : Error → Bool
  pub is_bad_request : Error → Bool

-- To split on a result, and on the outcome of an action and keep the equation.
pub Result-split {ℓ} :
    {A : Type ℓ} (r : Result A) → ((a : A) × (r ≡ ok a)) ⊎ ((e : Error) × (r ≡ err e))
Result-split (ok a) = inl (a, refl)
Result-split (err e) = inr (e, refl)

pub Result-cases {ℓ κ} :
    {A : Type ℓ} {S : Type κ} (o : Result A × S)
    → ((a : A) × (t : S) × (o ≡ (ok a, t))) ⊎ ((e : Error) × (t : S) × (o ≡ (err e, t)))
Result-cases (ok a, t) = inl (a, t, refl)
Result-cases (err e, t) = inr (e, t, refl)
