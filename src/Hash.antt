-- ===== src/Hash.antt =====
-- internal/tools/hash/hasher.go: a cumulative FNV-1 hash of 64 bits over JSON texts.
-- The state of `ObjectHash` is the sum so far. `marshal` is json.Marshal, as bytes; a write to a
-- `hash.Hash` returns no error.
pub mod Digest
use Prim.Native.Nat.{bit_xor}
use core_provider.Base.{ℕ, zero, suc, ◌+◌, ◌*◌, ◌/◌, ◌%◌, List, [], ◌∷◌, ltb, ◌==◌, if◌then◌else◌}
use core_provider.Base.Result.{Result, ok, err}
use core_provider.Base.Exec.{Exec}

abbrev pub sum_mod : ℕ
sum_mod = 18446744073709551616

-- fnv.New64()
unfoldable pub new_fnv_object_hash : ℕ
new_fnv_object_hash = 14695981039346656037

-- Reset()
unfoldable pub reset : Exec ℕ (Unit {0})
unfolding new_fnv_object_hash
reset sum = (ok tt, new_fnv_object_hash)

-- Write of fnv.New64(): each byte multiplies by the prime and is then mixed in
unfoldable pub write : ℕ → List ℕ → ℕ
write sum [] = sum
write sum (b ∷ bs) = write (bit_xor (sum * 1099511628211 % sum_mod) b) bs

module _ {V : Type 0} (marshal : V → Result (List ℕ)) where
  -- SumHash(a...): an error leaves in the hash what came before it
  unfoldable pub sum_hash : List V → Exec ℕ (Unit {0})
  sum_hash [] sum = (ok tt, sum)
  sum_hash (v ∷ vs) sum = elim (marshal v) [
    | ok bytes ↦ sum_hash vs (write sum bytes)
    | err e ↦ (err e, sum)
  ]

abbrev pub hex_digit : ℕ → ℕ
hex_digit d = if ltb d 10 then b'0' + d else 87 + d

-- the digits of `%x`, the last one first; 16 rounds are enough for 64 bits
unfoldable pub hex_loop : ℕ → ℕ → List ℕ → List ℕ
hex_loop zero n acc = acc
hex_loop (suc fuel) n acc =
    let rest = hex_loop fuel (n / 16) (hex_digit (n % 16) ∷ acc) in
    if n / 16 == 0 then hex_digit (n % 16) ∷ acc else rest

-- GetHash(), as ASCII codes
unfoldable pub get_hash : ℕ → List ℕ
unfolding hex_loop
get_hash sum = hex_loop 16 sum []
