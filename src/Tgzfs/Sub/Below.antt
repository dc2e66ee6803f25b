-- ===== src/Tgzfs/Sub/Below.antt =====
-- internal/tools/tgzfs/fs.go, Sub: names below a directory, in its file system and in the whole.
use core_provider.Base.Result.{Result, ok, err}
use core_provider.Base.{
  ℕ, if◌then◌else◌, String, List, [], ◌∷◌, ◌++◌, Bool, true, false, Option, none, some, ◌≡◌, refl,
  ◌∙◌, ap, inl, inr, Bool-cases, Option-cases, arith, length, length-append,
}
use core_provider.Tgzfs.Paths.{
  Name, FilePath, file_path, clean, clean_parts, clean_part, is_rooted, is_dot, is_valid, all_plain,
  path_eq, path_eq_iff, parts_eq, parts_eq_iff, strip,
}
use core_provider.Tgzfs.Nodes.{Entries, lookup, lookup-insert}
use core_provider.Tgzfs.{err_invalid, err_not_exist, Tarfs, get, below}

-- what is stripped is the end of the path
strip_sound : (under ps qs : List String) → strip under ps ≡ some qs → ps ≡ qs ++ under
unfolding strip
strip_sound under [] qs e = cc
strip_sound under (x ∷ ps) qs e = elim (Bool-cases (parts_eq ps under)) [
  | inl same ↦ ground (arith, parts_eq_iff ps under)
  | inr other ↦ go (strip under ps) (strip_sound under ps) (rw other at e)
]
  where
    go :
        (o : Option (List String))
        → ((rs : List String) → o ≡ some rs → ps ≡ rs ++ under)
        → ◌≡◌ {A = Option (List String)}
            (elim o [ none ↦ none | some rs ↦ some (x ∷ rs) ])
            (some qs)
        → x ∷ ps ≡ qs ++ under
    go none ih q = cc
    go (some rs) ih q = ground (arith, ih rs refl)

longer : (z : String) (qs under : List String) → parts_eq (z ∷ qs ++ under) under ≡ false
longer z qs under = elim (Bool-cases (parts_eq (z ∷ qs ++ under) under)) [
  | inr other ↦ other
  | inl same ↦ absurd (
      omega (
        arith,
        ap (λ (ps : List String). length ps) ((parts_eq_iff (z ∷ qs ++ under) under).0 same),
        length-append qs under,
      ))
]

strip-append :
    (under : List String) (y : String) (qs : List String)
    → strip under (y ∷ qs ++ under) ≡ some (y ∷ qs)
unfolding strip
strip-append under y [] = rw ((parts_eq_iff under under).1 refl) refl
strip-append under y (z ∷ qs) = rw (longer z qs under, strip-append under z qs) refl

module _ (under : List String) (y : String) (qs : List String) (name : FilePath) where
  -- the key of the large map that `y ∷ qs` stands for, compared with a name of that map
  rooted-other : name.rooted ≡ true → path_eq (file_path false (y ∷ qs ++ under)) name ≡ false
  rooted-other r = ground (arith, path_eq_iff (file_path false (y ∷ qs ++ under)) name)

  outside-other :
      strip under name.parts ≡ none → path_eq (file_path false (y ∷ qs ++ under)) name ≡ false
  outside-other out =
      ground (arith, path_eq_iff (file_path false (y ∷ qs ++ under)) name, strip-append under y qs)

  stripped-same :
      (ps : List String)
      → name.rooted ≡ false
      → strip under name.parts ≡ some ps
      → path_eq (file_path false (y ∷ qs ++ under)) name
        ≡ path_eq (file_path false (y ∷ qs)) (file_path false ps)
  stripped-same ps r inside = ground (
    arith,
    path_eq_iff (file_path false (y ∷ qs ++ under)) name,
    path_eq_iff (file_path false (y ∷ qs)) (file_path false ps),
    strip-append under y qs,
    strip_sound under name.parts ps inside,
  )

-- Under a directory the map of Sub is the map below that directory.
below-lookup :
    (under : List String) (y : String) (qs : List String) (es : Entries)
    → lookup (file_path false (y ∷ qs)) (below under es)
      ≡ lookup (file_path false (y ∷ qs ++ under)) es
unfolding lookup below
below-lookup under y qs [] = refl
below-lookup under y qs ((name, a) ∷ es) = elim (Bool-cases name.rooted) [
  | inl r ↦ rw (rooted-other under y qs name r) (rw r (below-lookup under y qs es))
  | inr r ↦ elim (Option-cases (strip under name.parts)) [
    | inl out ↦ rw (outside-other under y qs name out) (rw (r, out) (below-lookup under y qs es))
    | inr (ps, inside) ↦ rw (stripped-same under y qs name ps r inside) (
        rw
          (
            r,
            inside,
            lookup-insert (file_path false ps) (file_path false (y ∷ qs)) a (below under es),
            below-lookup under y qs es,
          )
          refl)
  ]
]

-- The parts of a valid name are cleaned one by one.
clean_parts-append :
    (r : Bool) (ps : List String) (d q : Name)
    → clean_parts r ps (d ++ q) ≡ clean_parts r (clean_parts r ps d) q
unfolding clean_parts
clean_parts-append r ps [] q = refl
clean_parts-append r ps (x ∷ d) q = clean_parts-append r (clean_part r ps x) d q

clean_parts-plain :
    (ps under : List String) (n : Name)
    → all_plain n ≡ true
    → clean_parts false (ps ++ under) n ≡ clean_parts false ps n ++ under
unfolding clean_parts clean_part all_plain
clean_parts-plain ps under [] plain = refl
clean_parts-plain ps under (x ∷ n) plain =
    rw (plain-part (ps ++ under), plain-part ps) (clean_parts-plain (x ∷ ps) under n (ground arith))
  where
    plain-part : (rs : List String) → clean_part false rs x ≡ x ∷ rs
    plain-part rs = ground arith

pub plain-append :
    (d q : Name) → all_plain d ≡ true → all_plain q ≡ true → all_plain (d ++ q) ≡ true
unfolding all_plain
plain-append [] q pd pq = pq
plain-append (x ∷ d) q pd pq = ground (arith, plain-append d q)

plain-relative : (n : Name) → all_plain n ≡ true → is_rooted n ≡ false
unfolding all_plain is_rooted
plain-relative [] plain = refl
plain-relative (x ∷ []) plain = refl
plain-relative (x ∷ y ∷ n) plain = ground arith

clean-plain : (n : Name) → all_plain n ≡ true → clean n ≡ file_path false (clean_parts false [] n)
unfolding clean
clean-plain n plain = rw (plain-relative n plain) refl

plain-cons :
    (x : String) (n : Name)
    → all_plain (x ∷ n) ≡ true
    → (y : String) × (qs : List String) × (clean_parts false [] (x ∷ n) ≡ y ∷ qs)
unfolding clean_parts clean_part all_plain
plain-cons x n plain = last-cons (clean_parts false [] n) clean_last
  where
    clean_last : clean_parts false [] (x ∷ n) ≡ clean_parts false [] n ++ x ∷ []
    clean_last = rw first (clean_parts-plain [] (x ∷ []) n (ground arith))
      where
        first : clean_part false [] x ≡ x ∷ []
        first = ground arith

    last-cons :
        (ps : List String)
        → clean_parts false [] (x ∷ n) ≡ ps ++ x ∷ []
        → (y : String) × (qs : List String) × (clean_parts false [] (x ∷ n) ≡ y ∷ qs)
    last-cons [] e = (x, [], e)
    last-cons (p ∷ ps) e = (p, ps ++ x ∷ [], e)

-- a plain name with something in it is valid, and is not "."
plain-valid :
    (x : String) (n : Name)
    → all_plain (x ∷ n) ≡ true
    → (is_valid (x ∷ n) ≡ true) × (is_dot (x ∷ n) ≡ false)
unfolding is_valid all_plain is_dot
plain-valid x [] plain = (ground arith, ground arith)
plain-valid x (y ∷ n) plain = (ground arith, refl)

pub append-valid :
    (d : Name) (x : String) (q : Name)
    → all_plain (d ++ x ∷ q) ≡ true
    → (is_valid (d ++ x ∷ q) ≡ true) × (is_dot (d ++ x ∷ q) ≡ false)
append-valid [] x q plain = plain-valid x q plain
append-valid (z ∷ d) x q plain = plain-valid z (d ++ x ∷ q) plain

module _ (d : Name) (x : String) (q : Name) (t s : Tarfs) (plain_d : all_plain d ≡ true)
    (plain_q : all_plain (x ∷ q) ≡ true)
    (is_sub : s.entries ≡ below (clean d).parts t.entries) where
  plain_all : all_plain (d ++ x ∷ q) ≡ true
  plain_all = plain-append d (x ∷ q) plain_d plain_q

  clean_all :
      clean (d ++ x ∷ q) ≡ file_path false (clean_parts false [] (x ∷ q) ++ clean_parts false [] d)
  unfolding clean
  clean_all = rw (plain-relative (d ++ x ∷ q) plain_all) (
      ap (file_path false) (
        clean_parts-append false [] d (x ∷ q)
        ∙ clean_parts-plain [] (clean_parts false [] d) (x ∷ q) plain_q))

  same_entry : lookup (clean (x ∷ q)) s.entries ≡ lookup (clean (d ++ x ∷ q)) t.entries
  same_entry =
      rw (clean_all, is_sub, clean-plain (x ∷ q) plain_q, clean-plain d plain_d)
        (let (y, qs, e) = plain-cons x q plain_q in
          rw e (below-lookup (clean_parts false [] d) y qs t.entries))

  pub get-below : (op : String) → get (x ∷ q) op s ≡ get (d ++ x ∷ q) op t
  unfolding get
  get-below op = rw ((plain-valid x q plain_q).0, (append-valid d x q plain_all).0, same_entry) refl

-- what get has found under a name, for whatever operation
pub get-ok :
    (d : Name) (op : String) (t : Tarfs) (a : ℕ)
    → get d op t ≡ ok a
    → (is_valid d ≡ true) × ((op' : String) → get d op' t ≡ ok a)
unfolding get
get-ok d op t a = go (is_valid d) (lookup (clean d) t.entries)
  where
    found : String → Option ℕ → Result ℕ
    found op none = err (err_not_exist op)
    found op (some b) = ok b

    go :
        (valid : Bool) (o : Option ℕ)
        → (if valid then found op o else err (err_invalid op)) ≡ ok a
        → (valid ≡ true)
          × ((op' : String) → (if valid then found op' o else err (err_invalid op')) ≡ ok a)
    go false o e = cc
    go true none e = cc
    go true (some b) e = (refl, λ op'. e)
