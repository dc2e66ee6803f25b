-- ===== src/Crd/Schemas.antt =====
-- AppendVersion keeps the schemas that are there, adds the new ones, and does nothing the second time.
use core_provider.Base.{
  String, List, [], ◌∷◌, ◌++◌, map, Option, none, some, true, false, ◌≡◌, refl, ap, ◌∙◌, arith,
  str_eq, eq_iff, eq_refl, if◌then◌else◌, Bool-cases, inl, inr,
}
use core_provider.Base.Result.{ok}
use core_provider.Crd.{OpenApiSchema, CrdVersion, Crd}
use core_provider.Crd.Generation.{
  has_version, vacuum, serve, append_one, append_all, append_version,
}
use core_provider.Crd.Versions.{
  has_version-serve, has_version-append, append_one-old, vacuum_if_missing,
}

-- The schema of the first version of a name.
abbrev pub schema_at : String → List CrdVersion → Option (Option (Option OpenApiSchema))
schema_at n [] = none
schema_at n (v ∷ vs) = if str_eq v.name n then some v.schema else schema_at n vs

abbrev pub or_else {ℓ} : {A : Type ℓ} → Option A → Option A → Option A
or_else none y = y
or_else (some x) y = some x

schema_at-append :
    (n : String) (xs ys : List CrdVersion)
    → schema_at n (xs ++ ys) ≡ or_else (schema_at n xs) (schema_at n ys)
schema_at-append n [] ys = refl
schema_at-append n (x ∷ xs) ys = ground (arith, schema_at-append n xs ys)

schema_at-serve : (n : String) (xs : List CrdVersion) → schema_at n (map serve xs) ≡ schema_at n xs
schema_at-serve n [] = refl
schema_at-serve n (x ∷ xs) = ground (arith, schema_at-serve n xs)

schema_at-none :
    (n : String) (xs : List CrdVersion) → has_version n xs ≡ false → schema_at n xs ≡ none
unfolding has_version
schema_at-none n [] h = refl
schema_at-none n (x ∷ xs) h = ground (arith, schema_at-none n xs)

schema_at-some :
    (n : String) (xs : List CrdVersion)
    → has_version n xs ≡ true
    → (s : Option (Option OpenApiSchema)) × (schema_at n xs ≡ some s)
unfolding has_version
schema_at-some n [] h = cc
schema_at-some n (x ∷ xs) h = elim (Bool-cases (str_eq x.name n)) [
  | inl here ↦ rw here (x.schema, refl)
  | inr later ↦ rw later (schema_at-some n xs (ground arith))
]

module _ (n : String) (other : str_eq vacuum n ≡ false) where
  schema_at-vacuum_if_missing : (vs : List CrdVersion) → schema_at n (vacuum_if_missing vs) ≡ none
  schema_at-vacuum_if_missing vs = ground arith

  schema_at-append_one :
      (vs : List CrdVersion) (v : CrdVersion)
      → schema_at n (append_one vs v) ≡ or_else (schema_at n vs) (schema_at n (v ∷ []))
  unfolding append_one
  schema_at-append_one vs v = elim (Bool-cases (has_version v.name vs)) [
    | inl old ↦ rw old (ground (arith, eq_iff v.name n, schema_at-some v.name vs old))
    | inr new ↦ rw new (
        schema_at-serve n (vs ++ v ∷ vacuum_if_missing vs)
        ∙ schema_at-append n vs (v ∷ vacuum_if_missing vs)
        ∙ ground arith)
  ]

  schema_at-append_all :
      (vs ws : List CrdVersion)
      → schema_at n (append_all vs ws) ≡ or_else (schema_at n vs) (schema_at n ws)
  unfolding append_all
  schema_at-append_all vs [] = ground arith
  schema_at-append_all vs (w ∷ ws) =
      ground (arith, schema_at-append_all (append_one vs w) ws, schema_at-append_one vs w)

  -- Of every version other than vacuum the CRD keeps the schema that it has; a version that it does
  -- not have gets the schema of the first version of that name among the added ones.
  pub schema_at-append_version :
      (crd toadd result : Crd)
      → append_version crd toadd ≡ ok result
      → schema_at n result.versions
        ≡ or_else (schema_at n crd.versions) (schema_at n toadd.versions)
  unfolding append_version
  schema_at-append_version crd toadd result e =
      let q : append_all crd.versions toadd.versions ≡ result.versions = ground arith in
      rw (← q) (schema_at-append_all crd.versions toadd.versions)

has_version-append_one :
    (n : String) (vs : List CrdVersion) (v : CrdVersion)
    → has_version n vs ≡ true
    → has_version n (append_one vs v) ≡ true
unfolding append_one
has_version-append_one n vs v h = elim (Bool-cases (has_version v.name vs)) [
  | inl old ↦ rw old h
  | inr new ↦ rw new (
      has_version-serve n (vs ++ v ∷ vacuum_if_missing vs)
      ∙ has_version-append n vs (v ∷ vacuum_if_missing vs)
      ∙ ground arith)
]

has_version-append_one_self :
    (vs : List CrdVersion) (v : CrdVersion) → has_version v.name (append_one vs v) ≡ true
unfolding append_one has_version
has_version-append_one_self vs v = elim (Bool-cases (has_version v.name vs)) [
  | inl old ↦ rw old old
  | inr new ↦ rw new (
      has_version-serve v.name (vs ++ v ∷ vacuum_if_missing vs)
      ∙ has_version-append v.name vs (v ∷ vacuum_if_missing vs)
      ∙ ground (arith, eq_refl v.name))
]

has_version-append_all :
    (n : String) (vs ws : List CrdVersion)
    → has_version n vs ≡ true
    → has_version n (append_all vs ws) ≡ true
unfolding append_all
has_version-append_all n vs [] h = h
has_version-append_all n vs (w ∷ ws) h =
    has_version-append_all n (append_one vs w) ws (has_version-append_one n vs w h)

-- Every version of `ws` is among `vs`.
abbrev pub Covers : List CrdVersion → List CrdVersion → Type 0
Covers vs [] = Unit
Covers vs (w ∷ ws) = (has_version w.name vs ≡ true) × Covers vs ws

pub append_all-Covers : (vs ws : List CrdVersion) → Covers (append_all vs ws) ws
unfolding append_all
append_all-Covers vs [] = tt
append_all-Covers vs (w ∷ ws) = (
  has_version-append_all w.name (append_one vs w) ws (has_version-append_one_self vs w),
  append_all-Covers (append_one vs w) ws,
)

append_all-covered : (vs ws : List CrdVersion) → Covers vs ws → append_all vs ws ≡ vs
unfolding append_all
append_all-covered vs [] c = refl
append_all-covered vs (w ∷ ws) c = rw (append_one-old vs w c.0) (append_all-covered vs ws c.1)

-- Appending the same versions again changes nothing.
pub append_version-again :
    (crd toadd result : Crd)
    → append_version crd toadd ≡ ok result
    → append_version result toadd ≡ ok result
unfolding append_version
append_version-again crd toadd result e =
    let vs = append_all crd.versions toadd.versions in
    let q : vs ≡ result.versions = ground arith in
    let c = append_all-Covers crd.versions toadd.versions in
    rw (← q) (
      ap (λ (ws : List CrdVersion). ok (record result { versions = ws }))
        (append_all-covered vs toadd.versions c))
