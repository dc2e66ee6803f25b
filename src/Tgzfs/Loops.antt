-- ===== src/Tgzfs/Loops.antt =====
-- The loops by which a reader of internal/tools/tgzfs/file.go reads a file, or lists a directory, to the
-- end: a call for at most so many bytes or entries, again and again until an error.
use native.Mathlib.Nat.{zero-add}
use core_provider.Base.{
  ℕ, zero, suc, ◌+◌, ◌-◌, ◌≤◌, ◌<◌, List, [], ◌∷◌, ◌++◌, Option, none, some, ◌≡◌, refl, ◌⊎◌, inl,
  inr, ap, arith, length, take, drop, length-append,
}
use core_provider.Base.Result.{Error, Result, ok, err}
use core_provider.Tgzfs.Files.{eof}

-- what a round adds to the later ones
unfoldable pub extend : Result (List ℕ) → Option (List ℕ × Error) → Option (List ℕ × Error)
extend (err e) rest = some ([], e)
extend (ok got) none = none
extend (ok got) (some (more, e)) = some (got ++ more, e)

module _ {S : Type 0} (call : S → Result (List ℕ) × S) where
  -- All that the calls give, and the error that ends them; `none` means that the fuel ran out.
  unfoldable pub collect : ℕ → S → Option (List ℕ × Error)
  collect zero s = none
  collect (suc k) s = let rest = collect k (call s).1 in extend (call s).0 rest

  -- A call at the end is an io.EOF; another gives a part of what is left, and leaves the rest.
  abbrev pub Advances : (S → Type 0) → (S → List ℕ) → S → Type 0
  Advances I left s =
      ((left s ≡ []) × ((call s).0 ≡ err eof))
      ⊎ ((got : List ℕ) × (s' : S) × (call s ≡ (ok got, s'))
          × (left s ≡ got ++ left s')
          × (0 < length got)
          × I s')

  -- Then the loop ends, with all that is left and io.EOF, and a round for each item is enough.
  pub collect-left :
      (I : S → Type 0) (left : S → List ℕ)
      → ((s : S) → I s → Advances I left s)
      → (k : ℕ) (s : S) → I s
      → length (left s) < k
      → collect k s ≡ some (left s, eof)
  unfolding collect extend
  collect-left I left advance zero s i fuel = absurd (omega arith)
  collect-left I left advance (suc k) s i fuel = elim (advance s i) [
    | inl (over, e) ↦ rw (e, over) refl
    | inr (got, s', e, parts, some_got, i') ↦
        rw e
          (rw (collect-left I left advance k s' i' (shorter got s' parts some_got)) (rw parts refl))
  ]
    where
      shorter :
          (got : List ℕ) (s' : S) → left s ≡ got ++ left s' → 0 < length got → length (left s') < k
      shorter got s' parts some_got =
          omega (arith, ap (λ (xs : List ℕ). length xs) parts, length-append got (left s'))

module _ {ℓ} {A : Type ℓ} where
  pub length-drop : (n : ℕ) (xs : List A) → length (drop n xs) ≡ length xs - n
  length-drop zero xs = omega arith
  length-drop (suc n) [] = omega arith
  length-drop (suc n) (x ∷ xs) = omega (arith, length-drop n xs)

  pub length-take : (n : ℕ) (xs : List A) → n ≤ length xs → length (take n xs) ≡ n
  length-take zero xs h = refl
  length-take (suc n) [] h = absurd (omega arith)
  length-take (suc n) (x ∷ xs) h = ap suc (length-take n xs (omega arith))

  pub take_pos : (n : ℕ) (xs : List A) → 0 < n → 0 < length xs → 0 < length (take n xs)
  take_pos zero xs h k = absurd (omega arith)
  take_pos (suc n) [] h k = absurd (omega arith)
  take_pos (suc n) (x ∷ xs) h k = omega arith

  take-nil : (n : ℕ) → take {A = A} n [] ≡ []
  take-nil zero = refl
  take-nil (suc n) = refl

  -- a part of the rest, and the rest behind it
  pub take-drop : (m n : ℕ) (xs : List A) → drop m xs ≡ take n (drop m xs) ++ drop (m + n) xs
  take-drop zero n xs = rw zero-add (parts n xs)
    where
      parts : (n : ℕ) (xs : List A) → xs ≡ take n xs ++ drop n xs
      parts zero xs = refl
      parts (suc n) [] = refl
      parts (suc n) (x ∷ xs) = ap (λ (ys : List A). x ∷ ys) (parts n xs)
  take-drop (suc m) n [] = let e : suc m + n ≡ suc (m + n) = omega arith in rw (e, take-nil n) refl
  take-drop (suc m) n (x ∷ xs) =
      let e : suc m + n ≡ suc (m + n) = omega arith in rw e (take-drop m n xs)

  pub take-length : (n : ℕ) (xs : List A) → take (length (take n xs)) xs ≡ take n xs
  take-length zero xs = refl
  take-length (suc n) [] = refl
  take-length (suc n) (x ∷ xs) = ap (λ (ys : List A). x ∷ ys) (take-length n xs)

  pub drop_past : (n : ℕ) (xs : List A) → length xs ≤ n → drop n xs ≡ []
  drop_past zero [] h = refl
  drop_past zero (x ∷ xs) h = absurd (omega arith)
  drop_past (suc n) [] h = refl
  drop_past (suc n) (x ∷ xs) h = drop_past n xs (omega arith)
