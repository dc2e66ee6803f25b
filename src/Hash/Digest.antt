-- ===== src/Hash/Digest.antt =====
-- The digest stands for the sum, and sums accumulate.
use native.Mathlib.Nat.{pow-suc}
use core_provider.Base.{
  ℕ, zero, suc, ◌+◌, ◌*◌, ◌-◌, ◌%◌, ◌/◌, ◌^◌, ◌<◌, ◌≡◌, refl, sym, ap, ◌∙◌, List, [], ◌∷◌, ◌++◌,
  arith, ltb, if◌then◌else◌, inl, inr, Bool-cases, ◌==◌,
}
use core_provider.Base.Result.{Result, Result-split}
use core_provider.Base.Exec.{◌>>=◌, ◌>>◌}
use core_provider.Hash.{sum_mod, sum_hash, write, hex_digit, hex_loop, get_hash}

abbrev digit_value : ℕ → ℕ
digit_value c = if ltb c 58 then c - 48 else c - 87

-- the number that hexadecimal digits stand for, after the digits of `v`
read_hex : ℕ → List ℕ → ℕ
read_hex v [] = v
read_hex v (c ∷ cs) = read_hex (v * 16 + digit_value c) cs

digit_value-hex_digit : (d : ℕ) → d < 16 → digit_value (hex_digit d) ≡ d
digit_value-hex_digit d h = ground arith

read_hex-hex_loop :
    (fuel n : ℕ) (acc : List ℕ) → n < 16 ^ fuel → read_hex 0 (hex_loop fuel n acc) ≡ read_hex n acc
unfolding read_hex hex_loop
read_hex-hex_loop zero n acc h = ap (λ (v : ℕ). read_hex v acc) (omega arith)
read_hex-hex_loop (suc fuel) n acc h = elim (Bool-cases (n / 16 == 0)) [
  | inl small ↦ rw small (ap (λ (v : ℕ). read_hex v acc) (ground (arith, last)))
  | inr more ↦ rw more (
      read_hex-hex_loop fuel (n / 16) (hex_digit (n % 16) ∷ acc) fits
      ∙ ap (λ (v : ℕ). read_hex v acc) (omega (arith, last)))
]
  where
    last : digit_value (hex_digit (n % 16)) ≡ n % 16
    last = digit_value-hex_digit (n % 16) (omega arith)

    power : 16 ^ suc fuel ≡ 16 ^ fuel * 16
    power = pow-suc 16 fuel

    fits : n / 16 < 16 ^ fuel
    fits = omega (arith, power)

-- Reading the digest as a hexadecimal number gives back the sum.
read_hex-get_hash : (sum : ℕ) → sum < sum_mod → read_hex 0 (get_hash sum) ≡ sum
unfolding get_hash read_hex
read_hex-get_hash sum h = read_hex-hex_loop 16 sum [] h

-- Two sums of 64 bits with the same digest are the same sum.
pub get_hash-injective : (a b : ℕ) → a < sum_mod → b < sum_mod → get_hash a ≡ get_hash b → a ≡ b
get_hash-injective a b ha hb e =
    sym (read_hex-get_hash a ha) ∙ ap (read_hex 0) e ∙ read_hex-get_hash b hb

module _ {V : Type 0} (marshal : V → Result (List ℕ)) where
  -- Hashing one list of values and then another is hashing them joined: the hash is cumulative,
  -- also where a value cannot be marshalled.
  pub sum_hash-append :
      (xs ys : List V) (sum : ℕ)
      → sum_hash marshal (xs ++ ys) sum ≡ (sum_hash marshal xs >> sum_hash marshal ys) sum
  unfolding sum_hash ◌>>=◌
  sum_hash-append [] ys sum = refl
  sum_hash-append (x ∷ xs) ys sum = elim (Result-split (marshal x)) [
    | inl (bytes, e) ↦ rw (e, sum_hash) (sum_hash-append xs ys (write sum bytes))
    | inr (x', e) ↦ rw (e, sum_hash)
  ]
