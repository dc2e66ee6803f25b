-- ===== src/Base/Exec.antt =====
-- Functions that change a state and may return an error: what was changed before the error stays.
pub mod Keeps
use mathlib.Core.Path.{◌≡◌, refl}
use mathlib.Core.Logic.{◌⊎◌, inl, inr}
use mathlib.Core.Bool.{Bool, true, false}
use core_provider.Base.Tests.{if◌then◌else◌}
use core_provider.Base.Result.{Error, Result, ok, err}

-- `W` is the world: what the action reads and changes.
abbrev pub Exec {ℓ} : Type ℓ → Type ℓ → Type ℓ
Exec W A = W → Result A × W

module _ {ℓ} {W A : Type ℓ} where
  -- a result that is there already
  abbrev pub lift : Result A → Exec W A
  lift r w = (r, w)

  abbrev pub pure : A → Exec W A
  pure x = lift (ok x)

  abbrev pub raise : Error → Exec W A
  raise e = lift (err e)

  -- the error becomes a value: `if err != nil { … }`
  abbrev pub attempt : Exec W A → Exec W (Result A)
  attempt action w = let (r, w') = action w in (ok r, w')

  -- fmt.Errorf with `%w`, and with `%v` or `%s`
  unfoldable pub on_error : (Error → Error) → Exec W A → Exec W A
  on_error f action w = let (r, w') = action w in (elim r [ ok x ↦ ok x | err e ↦ err (f e) ], w')

  pub on_error-ok :
      (f : Error → Error) (action : Exec W A) (w end : W) (x : A)
      → on_error f action w ≡ (ok x, end)
      → action w ≡ (ok x, end)
  unfolding on_error
  on_error-ok f action w end x h = go (action w) h
    where
      go :
          (outcome : Result A × W)
          → ◌≡◌ {A = Result A × W}
              (elim outcome.0 [ ok y ↦ ok y | err e ↦ err (f e) ], outcome.1)
              (ok x, end)
          → outcome ≡ (ok x, end)
      go (ok y, u) q = q
      go (err e, u) q = cc

module _ {ℓ} {W A B : Type ℓ} where
  -- `if err != nil { return err }` before the rest
  abbrev pub continue : Result A → (A → Exec W B) → Exec W B
  continue (err e) next w = (err e, w)
  continue (ok x) next w = next x w

  infixl 10 ◌>>=◌ ◌>>◌
  unfoldable pub ◌>>=◌ : Exec W A → (A → Exec W B) → Exec W B
  ◌>>=◌ first next w = let (r, w') = first w in continue r next w'

  abbrev pub ◌>>◌ : Exec W A → Exec W B → Exec W B
  first >> second = first >>= λ _. second

  -- A chain that returns a value has had one from its first part.
  pub >>=-ok :
      (first : Exec W A) (next : A → Exec W B) (w : W) (y : B) (end : W)
      → (first >>= next) w ≡ (ok y, end)
      → (x : A) × (u : W) × (first w ≡ (ok x, u)) × (next x u ≡ (ok y, end))
  unfolding ◌>>=◌
  >>=-ok first next w y end h = go (first w) h
    where
      go :
          (outcome : Result A × W)
          → continue outcome.0 next outcome.1 ≡ (ok y, end)
          → (x : A) × (u : W) × (outcome ≡ (ok x, u)) × (next x u ≡ (ok y, end))
      go (ok x, u) e = (x, u, refl, e)
      go (err x, u) e = cc

  -- the same where the first part is a result that is there already
  pub lift-ok :
      (r : Result A) (next : A → Exec W B) (w : W) (y : B) (end : W)
      → (lift r >>= next) w ≡ (ok y, end)
      → (x : A) × (r ≡ ok x) × (next x w ≡ (ok y, end))
  unfolding ◌>>=◌
  lift-ok (ok x) next w y end h = (x, refl, h)
  lift-ok (err e) next w y end h = cc

  -- A chain that returns an error has it from its first part or from the rest.
  pub >>=-err :
      (first : Exec W A) (next : A → Exec W B) (w : W) (e : Error) (end : W)
      → (first >>= next) w ≡ (err e, end)
      → (first w ≡ (err e, end))
        ⊎ ((x : A) × (u : W) × (first w ≡ (ok x, u)) × (next x u ≡ (err e, end)))
  unfolding ◌>>=◌
  >>=-err first next w e end h = go (first w) h
    where
      go :
          (outcome : Result A × W)
          → continue outcome.0 next outcome.1 ≡ (err e, end)
          → (outcome ≡ (err e, end))
            ⊎ ((x : A) × (u : W) × (outcome ≡ (ok x, u)) × (next x u ≡ (err e, end)))
      go (ok x, u) q = inr (x, u, refl, q)
      go (err x, u) q = inl cc

module _ {ℓ} {X W A : Type ℓ} where
  -- an action on the world, beside a value that it does not touch
  unfoldable pub beside : Exec W A → Exec (X × W) A
  beside m (x, w) = let (r, w') = m w in (r, (x, w'))

  pub beside-ok :
      {B : Type ℓ} (m : Exec W A) (next : A → Exec (X × W) B) (x : X) (w : W) (y : B) (end : X × W)
      → (beside m >>= next) (x, w) ≡ (ok y, end)
      → (a : A) × (u : W) × (m w ≡ (ok a, u)) × (next a (x, u) ≡ (ok y, end))
  unfolding beside ◌>>=◌
  beside-ok {B} m next x w y end h = go (m w) h
    where
      go :
          (o : Result A × W)
          → continue o.0 next (x, o.1) ≡ (ok y, end)
          → (a : A) × (u : W) × (o ≡ (ok a, u)) × (next a (x, u) ≡ (ok y, end))
      go (ok a, u) q = (a, u, refl, q)
      go (err e, u) q = cc

-- the branch that an action under a test has taken
pub if-outcome {ℓ} :
    {W A : Type ℓ} (test : Bool) (m n : Exec W A) (w : W) (o : Result A × W)
    → (if test then m else n) w ≡ o
    → ((test ≡ true) × (m w ≡ o)) ⊎ ((test ≡ false) × (n w ≡ o))
if-outcome true m n w o h = inl (refl, h)
if-outcome false m n w o h = inr (refl, h)
