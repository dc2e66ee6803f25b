-- ===== src/Certs/Files.antt =====
-- What UpdateCerts leaves in the directory of the certificates where it succeeds.
use core_provider.Base.{
  ℕ, String, List, [], ◌∷◌, Option, some, false, ◌≡◌, refl, arith, ◌∙◌, ap, str_eq,
}
use core_provider.Base.Result.{Error, Result, ok, err}
use core_provider.Base.Exec.{Exec, on_error-ok, >>=-ok}
use core_provider.Base.Exec.Keeps.{
  after, Keeps, Keeps-on_error, Keeps-attempt, Keeps-bind, Keeps-pure, Keeps-raise,
}
use core_provider.Certs.{
  Plumbing, Os, remove_each, cleaned, or_remove, write_temporary, rename_both, update_certs,
}

module _ {W K C : Type 0} (p : Plumbing W K C) (os : Os W) (dir : String)
    (content : W → String → Option (List ℕ)) where
  -- What package os promises of the files of one directory, `content` being what they hold. The name of
  -- a file is a name in the directory.
  pub record OsLaws : Type 0 where
    pub mkdir_others :
        (n : String) (v : Option (List ℕ)) → Keeps (λ w. content w n ≡ v) (os.mkdir_all dir)
    pub create_others :
        (name n : String) (v : Option (List ℕ))
        → str_eq name n ≡ false
        → Keeps (λ w. content w n ≡ v) (os.create dir name)
    pub create_empties :
        (name : String) (w w' : W) → os.create dir name w ≡ (ok tt, w') → content w' name ≡ some []
    pub write_others :
        (name n : String) (b : List ℕ) (v : Option (List ℕ))
        → str_eq name n ≡ false
        → Keeps (λ w. content w n ≡ v) (os.write dir name b)
    pub write_appends :
        (name : String) (b : List ℕ) (w w' : W)
        → content w name ≡ some []
        → os.write dir name b w ≡ (ok tt, w')
        → content w' name ≡ some b
    pub remove_others :
        (name n : String) (v : Option (List ℕ))
        → str_eq name n ≡ false
        → Keeps (λ w. content w n ≡ v) (os.remove dir name)
    pub rename_others :
        (a b n : String) (v : Option (List ℕ))
        → str_eq a n ≡ false
        → str_eq b n ≡ false
        → Keeps (λ w. content w n ≡ v) (os.rename dir a b)
    pub rename_moves :
        (a b : String) (w w' : W) → os.rename dir a b w ≡ (ok tt, w') → content w' b ≡ content w a
    pub rename_fails :
        (a b n : String) (e : Error) (w w' : W)
        → os.rename dir a b w ≡ (err e, w')
        → content w' n ≡ content w n

  pub cleaned-ok :
      (names : List String) (message : String) (r : Result (Unit {0})) (t w' : W)
      → cleaned p os dir names message r t ≡ (ok tt, w')
      → (r ≡ ok tt) × (t ≡ w')
  unfolding cleaned
  cleaned-ok names message (ok u) t w' h = (refl, ap (λ o. o.1) h)
  cleaned-ok names message (err e) t w' h = let (_, u, _, never) = >>=-ok _ _ t tt w' h in cc

  -- what or_remove has done where it has no error
  pub or_remove-ok :
      (names : List String) (message : String) (m : Exec W (Unit {0})) (w w' : W)
      → or_remove p os dir names message m w ≡ (ok tt, w')
      → m w ≡ (ok tt, w')
  unfolding or_remove
  or_remove-ok names message m w w' h =
      let (r, t, e, h1) = >>=-ok _ _ w tt w' h in
      let (is_ok, end) = cleaned-ok names message r t w' h1 in ground arith

  -- the file `n` is none of these
  abbrev pub Spares : String → List String → Type 0
  Spares n [] = Unit {0}
  Spares n (m ∷ ms) = (str_eq m n ≡ false) × Spares n ms

  module _ (laws : OsLaws) (n : String) (v : Option (List ℕ)) where
    abbrev pub Holds : W → Type 0
    Holds w = content w n ≡ v

    remove_each-Keeps :
        (names : List String) → Spares n names → Keeps Holds (remove_each p os dir names)
    unfolding remove_each
    remove_each-Keeps [] h = Keeps-pure tt
    remove_each-Keeps (m ∷ ms) (h, hs) =
        Keeps-bind _ _ (Keeps-attempt _ (laws.remove_others m n v h)) (λ r. remove_each-Keeps ms hs)

    pub cleaned-Keeps :
        (names : List String) (message : String) (r : Result (Unit {0}))
        → Spares n names
        → Keeps Holds (cleaned p os dir names message r)
    unfolding cleaned
    cleaned-Keeps names message (ok u) h = Keeps-pure tt
    cleaned-Keeps names message (err e) h =
        Keeps-bind _ _ (remove_each-Keeps names h) (λ u. Keeps-raise _)

    or_remove-Keeps :
        (names : List String) (message : String) (m : Exec W (Unit {0}))
        → Spares n names
        → Keeps Holds m
        → Keeps Holds (or_remove p os dir names message m)
    unfolding or_remove
    or_remove-Keeps names message m h k =
        Keeps-bind _ _ (Keeps-attempt m k) (λ r. cleaned-Keeps names message r h)

    -- A file that is no temporary file is not touched before the renames.
    module _ (crt_other : str_eq "tls.crt.tmp" n ≡ false)
        (key_other : str_eq "tls.key.tmp" n ≡ false) where
      pub write_temporary-Keeps :
          (crt key : List ℕ) → Keeps Holds (write_temporary p os dir crt key)
      unfolding write_temporary
      write_temporary-Keeps crt key =
          Keeps-bind _ _ (Keeps-on_error _ _ (laws.mkdir_others n v)) (λ a.
            Keeps-bind _ _ (Keeps-on_error _ _ (laws.create_others "tls.crt.tmp" n v crt_other))
              (λ b.
                Keeps-bind _ _
                  (or_remove-Keeps _ _ _ (crt_other, tt)
                    (laws.write_others "tls.crt.tmp" n crt v crt_other))
                  (λ c.
                    Keeps-bind _ _
                      (or_remove-Keeps _ _ _ (crt_other, tt)
                        (laws.create_others "tls.key.tmp" n v key_other))
                      (λ d.
                        or_remove-Keeps _ _ _ (crt_other, (key_other, tt))
                          (laws.write_others "tls.key.tmp" n key v key_other)))))

  module _ (laws : OsLaws) where
    -- The file with the certificate is written before the one with the key is created.
    pub write_temporary-ok :
        (crt key : List ℕ) (w w' : W)
        → write_temporary p os dir crt key w ≡ (ok tt, w')
        → (content w' "tls.crt.tmp" ≡ some crt) × (content w' "tls.key.tmp" ≡ some key)
    unfolding write_temporary
    write_temporary-ok crt key w w' h =
        let (_, w1, _, h1) = >>=-ok _ _ w tt w' h in
        let (_, w2, made1, h2) = >>=-ok _ _ w1 tt w' h1 in
        let (_, w3, wrote1, h3) = >>=-ok _ _ w2 tt w' h2 in
        let (_, w4, made2, h4) = >>=-ok _ _ w3 tt w' h3 in
        let crt3 : content w3 "tls.crt.tmp" ≡ some crt =
          laws.write_appends "tls.crt.tmp" crt w2 w3
            (laws.create_empties "tls.crt.tmp" w1 w2 (on_error-ok _ _ w1 w2 tt made1))
            (or_remove-ok _ _ _ w2 w3 wrote1) in
        let make2 = or_remove-ok _ _ _ w3 w4 made2 in
        let crt4 : content w4 "tls.crt.tmp" ≡ some crt =
          after (laws.create_others "tls.key.tmp" "tls.crt.tmp" (some crt) refl) make2 crt3 in
        let write2 = or_remove-ok _ _ _ w4 w' h4 in
        (
          after (laws.write_others "tls.key.tmp" "tls.crt.tmp" key (some crt) refl) write2 crt4,
          laws.write_appends "tls.key.tmp" key w4 w' (laws.create_empties "tls.key.tmp" w3 w4 make2)
              write2,
        )

    rename_both-ok :
        (crt key : Option (List ℕ)) (w w' : W)
        → content w "tls.crt.tmp" ≡ crt
        → content w "tls.key.tmp" ≡ key
        → rename_both p os dir w ≡ (ok tt, w')
        → (content w' "tls.crt" ≡ crt) × (content w' "tls.key" ≡ key)
    unfolding rename_both
    rename_both-ok crt key w w' hc hk h =
        let (_, u, e1, e2) = >>=-ok _ _ w tt w' h in
        let first = or_remove-ok _ _ _ w u e1 in
        let second = or_remove-ok _ _ _ u w' e2 in
        (
          after (laws.rename_others "tls.key.tmp" "tls.key" "tls.crt" crt refl refl) second
              (laws.rename_moves "tls.crt.tmp" "tls.crt" w u first ∙ hc),
          laws.rename_moves "tls.key.tmp" "tls.key" u w' second
              ∙ after (laws.rename_others "tls.crt.tmp" "tls.crt" "tls.key.tmp" key refl refl) first
                  hk,
        )

    -- Where package os keeps the promises of OsLaws: after an UpdateCerts that succeeds, the two arguments are base64, tls.crt holds what the first
    -- stands for and tls.key what the second stands for.
    pub update_certs-ok :
        (crt key : String) (w w' : W)
        → update_certs p os dir crt key w ≡ (ok tt, w')
        → (c k : List ℕ) × (p.from_base64 crt ≡ ok c)
          × (p.from_base64 key ≡ ok k)
          × (content w' "tls.crt" ≡ some c)
          × (content w' "tls.key" ≡ some k)
    unfolding update_certs
    update_certs-ok crt key w w' h =
        let (c, w1, e1, h1) = >>=-ok _ _ w tt w' h in
        let (k, w2, e2, h2) = >>=-ok _ _ w1 tt w' h1 in
        let (_, w3, e3, h3) = >>=-ok _ _ w2 tt w' h2 in
        let (hc, hk) = write_temporary-ok c k w2 w3 e3 in
        let (new_crt, new_key) = rename_both-ok (some c) (some k) w3 w' hc hk h3 in
        (
          c,
          k,
          ap (λ o. o.0) (on_error-ok _ _ w w1 c e1),
          ap (λ o. o.0) (on_error-ok _ _ w1 w2 k e2),
          new_crt,
          new_key,
        )
