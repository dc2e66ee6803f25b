-- ===== src/Certs/Failures.antt =====
-- What UpdateCerts leaves in the directory of the certificates where it fails.
use mathlib.Core.Path.{subst}
use core_provider.Base.{
  ℕ, String, List, Option, some, false, ◌≡◌, ◌⊎◌, inl, inr, refl, arith, ◌∙◌, sym, ap, str_eq,
}
use core_provider.Base.Result.{Error, text, Result, ok, err}
use core_provider.Base.Exec.{Exec, lift, on_error, on_error-ok, >>=-err, ◌>>=◌}
use core_provider.Base.Exec.Keeps.{after, Keeps}
use core_provider.Certs.{
  Plumbing, Os, cleaned, or_remove, write_temporary, rename_both, update_certs,
}
use core_provider.Certs.Files.{
  OsLaws, Spares, or_remove-ok, cleaned-Keeps, write_temporary-Keeps, write_temporary-ok,
}

module _ {W K C : Type 0} (p : Plumbing W K C) (os : Os W) (dir : String)
    (content : W → String → Option (List ℕ)) where
  module _ (laws : OsLaws p os dir content) where
    -- an or_remove that fails has failed before it removes
    or_remove-err :
        (n : String) (names : List String) (message : String) (m : Exec W (Unit {0})) (e : Error)
        (w w' : W)
        → or_remove p os dir names message m w ≡ (err e, w')
        → Spares p os dir content n names
        → (x : Error) × (t : W) × (m w ≡ (err x, t)) × (content w' n ≡ content t n)
    unfolding or_remove cleaned
    or_remove-err n names message m e w w' h spared = elim (>>=-err _ _ w e w' h) [
      | inl never ↦ ground arith
      | inr (r, t, one, two) ↦ failed r t one two
    ]
      where
        failed :
            (r : Result (Unit {0})) (t : W)
            → ◌≡◌ {A = Result (Result (Unit {0})) × W} (ok (m w).0, (m w).1) (ok r, t)
            → cleaned p os dir names message r t ≡ (err e, w')
            → (x : Error) × (t : W) × (m w ≡ (err x, t)) × (content w' n ≡ content t n)
        failed (ok u) t one two = ground arith
        failed (err x) t one two = (
          x,
          t,
          ground arith,
          after (cleaned-Keeps p os dir content laws n (content t n) names message (err x) spared)
              two refl,
        )

    rename_both-err :
        (e : Error) (w w' : W)
        → rename_both p os dir w ≡ (err e, w')
        → (content w' "tls.key" ≡ content w "tls.key")
          × ((content w' "tls.crt" ≡ content w "tls.crt")
              ⊎ (content w' "tls.crt" ≡ content w "tls.crt.tmp"))
    unfolding rename_both
    rename_both-err e w w' h = elim (>>=-err _ _ w e w' h) [
      | inl one ↦
          let (x1, t1, f1, k1) = or_remove-err "tls.key" _ _ _ e w w' one (refl, (refl, tt)) in
          let (x2, t2, f2, k2) = or_remove-err "tls.crt" _ _ _ e w w' one (refl, (refl, tt)) in
          (
            k1 ∙ laws.rename_fails "tls.crt.tmp" "tls.crt" "tls.key" x1 w t1 f1,
            inl (k2 ∙ laws.rename_fails "tls.crt.tmp" "tls.crt" "tls.crt" x2 w t2 f2),
          )
      | inr (_, u, one, two) ↦
          let first = or_remove-ok p os dir content _ _ _ w u one in
          let (x1, t1, f1, k1) = or_remove-err "tls.key" _ _ _ e u w' two (refl, tt) in
          let (x2, t2, f2, k2) = or_remove-err "tls.crt" _ _ _ e u w' two (refl, tt) in
          (
            k1
                ∙ laws.rename_fails "tls.key.tmp" "tls.key" "tls.key" x1 u t1 f1
                ∙ after
                    (laws.rename_others "tls.crt.tmp" "tls.crt" "tls.key" (content w "tls.key") refl
                      refl)
                    first refl,
            inr (
                k2
                ∙ laws.rename_fails "tls.key.tmp" "tls.key" "tls.crt" x2 u t2 f2
                ∙ laws.rename_moves "tls.crt.tmp" "tls.crt" w u first),
          )
    ]

    -- what an UpdateCerts that fails leaves of the two files
    abbrev pub OldOrNew : String → W → W → Type 0
    OldOrNew crt w w' =
        (content w' "tls.key" ≡ content w "tls.key")
        × ((content w' "tls.crt" ≡ content w "tls.crt")
            ⊎ ((c : List ℕ) × (p.from_base64 crt ≡ ok c) × (content w' "tls.crt" ≡ some c)))

    write_then_rename-err :
        (crt : String) (c k : List ℕ) (e : Error) (w w' : W)
        → p.from_base64 crt ≡ ok c
        → (write_temporary p os dir c k >>= λ u. rename_both p os dir) w ≡ (err e, w')
        → OldOrNew crt w w'
    write_then_rename-err crt c k e w w' dec h = elim (>>=-err _ _ w e w' h) [
      | inl one ↦ (
        after (kept "tls.key" refl refl w) one refl,
        inl (after (kept "tls.crt" refl refl w) one refl),
      )
      | inr (_, u, one, two) ↦
          let (key_same, crt_any) = rename_both-err e u w' two in
          let (crt_tmp, _) = write_temporary-ok p os dir content laws c k w u one in
          (
            key_same ∙ after (kept "tls.key" refl refl w) one refl,
            elim crt_any [
              | inl same ↦ inl (same ∙ after (kept "tls.crt" refl refl w) one refl)
              | inr new ↦ inr (c, dec, new ∙ crt_tmp)
            ],
          )
    ]
      where
        kept :
            (n : String)
            → str_eq "tls.crt.tmp" n ≡ false
            → str_eq "tls.key.tmp" n ≡ false
            → (w : W) → Keeps (λ u. content u n ≡ content w n) (write_temporary p os dir c k)
        kept n a b w = write_temporary-Keeps p os dir content laws n (content w n) a b c k

    -- Where package os keeps the promises of OsLaws: after an UpdateCerts that fails, wherever it fails, tls.key holds what it held before, and tls.crt
    -- holds what it held before or what the first argument stands for.
    pub update_certs-err :
        (crt key : String) (e : Error) (w w' : W)
        → update_certs p os dir crt key w ≡ (err e, w')
        → OldOrNew crt w w'
    unfolding update_certs on_error
    update_certs-err crt key e w w' h = elim (>>=-err _ _ w e w' h) [
      | inl one ↦ same w w' (ap (λ o. o.1) one)
      | inr (c, w1, e1, h1) ↦ elim (>>=-err _ _ w1 e w' h1) [
        | inl one ↦ same w w' (ap (λ o. o.1) e1 ∙ ap (λ o. o.1) one)
        | inr (k, w2, e2, h2) ↦ moved w w2 w' (ap (λ o. o.1) e1 ∙ ap (λ o. o.1) e2) (
            write_then_rename-err crt c k e w2 w'
              (ap (λ o. o.0)
                (on_error-ok (λ m. text "cannot decode certificate: %v") (lift (p.from_base64 crt))
                  w w1 c e1))
              h2)
      ]
    ]
      where
        same : (w w' : W) → w ≡ w' → OldOrNew crt w w'
        same w w' q =
            (sym (ap (λ u. content u "tls.key") q), inl (sym (ap (λ u. content u "tls.crt") q)))

        moved : (w u w' : W) → w ≡ u → OldOrNew crt u w' → OldOrNew crt w w'
        moved w u w' q o = subst (λ s. OldOrNew crt s w') (sym q) o
