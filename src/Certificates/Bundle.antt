-- ===== src/Certificates/Bundle.antt =====
-- What a CA bundle is that validateCABundleFormat accepts.
use core_provider.Base.{
  ℕ, suc, ◌≤◌, ◌<◌, List, [], ◌∷◌, ◌++◌, Option, none, some, true, ◌≡◌, inl, inr, refl, sym, ap,
  ◌∙◌, arith, length, Bool-cases,
}
use core_provider.Base.Result.{ok}
use core_provider.Certificates.{
  begin_marker, end_marker, has_prefix, one_later, index, in_order, validate_ca_bundle_format,
}

has_prefix-append : (m s : List ℕ) → has_prefix m s ≡ true → (ys : List ℕ) × (s ≡ m ++ ys)
unfolding has_prefix
has_prefix-append [] s h = (s, refl)
has_prefix-append (m ∷ ms) [] h = cc
has_prefix-append (m ∷ ms) (x ∷ xs) h =
    let (ys, e) = has_prefix-append ms xs (ground arith) in (ys, ground arith)

-- the later index, where the first place is no occurrence
one_later-some :
    (o : Option ℕ) (i : ℕ) → one_later o ≡ some i → (j : ℕ) × (o ≡ some j) × (i ≡ suc j)
unfolding one_later
one_later-some none i h = cc
one_later-some (some j) i h = (j, refl, ground arith)

-- bytes.Index finds an occurrence
index-occurs :
    (s m : List ℕ) (i : ℕ)
    → index s m ≡ some i
    → (xs ys : List ℕ) × (s ≡ xs ++ m ++ ys) × (length xs ≡ i)
unfolding index
index-occurs [] m i h = elim (Bool-cases (has_prefix m [])) [
  | inl here ↦ let (ys, e) = has_prefix-append m [] here in ([], ys, e, ground arith)
  | inr nowhere ↦ ground arith
]
index-occurs (x ∷ xs) m i h = elim (Bool-cases (has_prefix m (x ∷ xs))) [
  | inl here ↦ let (ys, e) = has_prefix-append m (x ∷ xs) here in ([], ys, e, ground arith)
  | inr later ↦
      let (j, found, next) = one_later-some (index xs m) i (ground arith) in
      let (us, ys, e, len) = index-occurs xs m j found in
      (x ∷ us, ys, ap (λ t. x ∷ t) e, omega (arith, len, next))
]

append-has_prefix : (m ys : List ℕ) → has_prefix m (m ++ ys) ≡ true
unfolding has_prefix
append-has_prefix [] ys = refl
append-has_prefix (m ∷ ms) ys = ground (arith, append-has_prefix ms ys)

index-here : (s m : List ℕ) → has_prefix m s ≡ true → index s m ≡ some 0
unfolding index
index-here [] m h = ground arith
index-here (x ∷ xs) m h = ground arith

-- and there is no earlier one
index-least : (xs m ys : List ℕ) → (i : ℕ) × (index (xs ++ m ++ ys) m ≡ some i) × (i ≤ length xs)
unfolding index one_later
index-least [] m ys = (0, index-here (m ++ ys) m (append-has_prefix m ys), omega arith)
index-least (x ∷ xs) m ys =
    let (j, found, le) = index-least xs m ys in
    elim (Bool-cases (has_prefix m (x ∷ (xs ++ m ++ ys)))) [
      | inl here ↦ (0, ground arith, omega arith)
      | inr later ↦ (suc j, ground arith, omega (arith, le))
    ]

-- The marker `m` occurs after `xs` bytes, and nowhere before.
pub record FirstOccurrence (s m xs : List ℕ) : Type 0 where
  pub after_it : List ℕ
  pub occurs : s ≡ xs ++ m ++ after_it
  pub first : (us vs : List ℕ) → s ≡ us ++ m ++ vs → length xs ≤ length us

index-FirstOccurrence :
    (s m : List ℕ) (i : ℕ)
    → index s m ≡ some i
    → (xs : List ℕ) × FirstOccurrence s m xs × (length xs ≡ i)
index-FirstOccurrence s m i h =
    let (xs, ys, e, len) = index-occurs s m i h in
    (xs, record { after_it = ys; occurs = e; first = least xs len }, len)
  where
    least :
        (xs : List ℕ) → length xs ≡ i → (us vs : List ℕ) → s ≡ us ++ m ++ vs → length xs ≤ length us
    least xs len us vs q =
        let (j, found, le) = index-least us m vs in
        let same : some i ≡ some j = sym h ∙ ap (λ t. index t m) q ∙ found in
        ground (arith, same, len, le)

in_order-ok :
    (a b : Option ℕ) → in_order a b ≡ ok tt → (i j : ℕ) × (a ≡ some i) × (b ≡ some j) × (i < j)
unfolding in_order
in_order-ok none b h = cc
in_order-ok (some i) none h = cc
in_order-ok (some i) (some j) h = (i, j, refl, refl, ground arith)

-- A CA bundle that is accepted has a first "-----BEGIN" and, after a longer part, a first "-----END".
pub validate_ca_bundle_format-ok :
    (s : List ℕ)
    → validate_ca_bundle_format s ≡ ok tt
    → (xs ys : List ℕ) × FirstOccurrence s begin_marker xs
      × FirstOccurrence s end_marker ys
      × (length xs < length ys)
unfolding validate_ca_bundle_format
validate_ca_bundle_format-ok [] h = cc
validate_ca_bundle_format-ok (b ∷ bs) h =
    let s = b ∷ bs in
    let (i, j, begins, ends, lt) = in_order-ok (index s begin_marker) (index s end_marker) h in
    let (xs, first_begin, len_x) = index-FirstOccurrence s begin_marker i begins in
    let (ys, first_end, len_y) = index-FirstOccurrence s end_marker j ends in
    (xs, ys, first_begin, first_end, omega (arith, len_x, len_y, lt))
