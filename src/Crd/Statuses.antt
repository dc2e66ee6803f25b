-- ===== src/Crd/Statuses.antt =====
-- UpdateStatus makes the CRD pass StatusEqual, so that an update is not repeated for ever.
use core_provider.Base.{
  ℕ, String, List, [], ◌∷◌, Option, none, some, true, ◌≡◌, refl, arith, eq_refl, inl, inr,
  Option-cases, ◌⊎◌, codes_eq_self,
}
use core_provider.Base.Result.{Result, ok, Result-split}
use core_provider.Hash.{new_fnv_object_hash, write, sum_hash, get_hash}
use core_provider.Crd.{JsonProps, OpenApiSchema, Properties, CrdVersion, Crd, lookup, insert}
use core_provider.Crd.Generation.{
  status_of_schema, first_status, new_status, set_status, set_statuses, update_status,
  status_digest, status_equal,
}

lookup-insert_self :
    (k : String) (p : JsonProps) (m : Properties) → lookup k (insert k p m) ≡ some p
unfolding lookup insert
lookup-insert_self k p [] = ground (arith, eq_refl k)
lookup-insert_self k p ((j, u) ∷ m) = ground (arith, eq_refl k, lookup-insert_self k p m)

-- A schema gets the new status, a version without a schema has none before and after.
status-set_status :
    (p : JsonProps) (s t : Option (Option OpenApiSchema))
    → set_status p s ≡ ok t
    → (status_of_schema t ≡ some p) ⊎ ((status_of_schema s ≡ none) × (status_of_schema t ≡ none))
status-set_status p none t e = inr (refl, ground arith)
status-set_status p (some none) t e = inr (refl, ground arith)
status-set_status p (some (some s)) t e = elim (Option-cases s.properties) [
  | inl nil ↦ ground arith
  | inr (m, here) ↦ inl (ground (arith, lookup-insert_self "status" p m))
]

first_status-set_statuses :
    (p q : JsonProps) (vs ws : List CrdVersion)
    → set_statuses p vs ≡ ok ws
    → first_status vs ≡ some q
    → first_status ws ≡ some p
unfolding set_statuses first_status
first_status-set_statuses p q [] ws e h = cc
first_status-set_statuses p q (v ∷ vs) ws e h = elim (Result-split (set_status p v.schema)) [
  | inr (x, bad) ↦ ground arith
  | inl (t, good) ↦ elim (Result-split (set_statuses p vs)) [
    | inr (x, bad) ↦ ground arith
    | inl (us, rest) ↦
        ground
          (arith, status-set_status p v.schema t good, first_status-set_statuses p q vs us rest)
  ]
]

first_status-update_status :
    (crd crd' : Crd) (v : CrdVersion) (p q : JsonProps) (s : Option (Option OpenApiSchema))
    → v.schema ≡ s
    → status_of_schema s ≡ some p
    → first_status crd.versions ≡ some q
    → update_status crd v ≡ ok crd'
    → first_status crd'.versions ≡ some p
unfolding update_status
first_status-update_status crd crd' v p q none es h ec e = cc
first_status-update_status crd crd' v p q (some none) es h ec e = cc
first_status-update_status crd crd' v p q (some (some s)) es h ec e =
    elim (Result-split (set_statuses (new_status s) crd.versions)) [
      | inr (x, bad) ↦ ground arith
      | inl (us, good) ↦
          let same : new_status s ≡ p = ground arith in
          ground (arith, first_status-set_statuses (new_status s) q crd.versions us good ec)
    ]

module _ (marshal : JsonProps → Result (List ℕ)) where
  status_digest-of :
      (m : String) (crd : Crd) (p : JsonProps) (bytes : List ℕ)
      → first_status crd.versions ≡ some p
      → marshal p ≡ ok bytes
      → status_digest marshal m crd ≡ ok (get_hash (write new_fnv_object_hash bytes))
  unfolding status_digest sum_hash
  status_digest-of m crd p bytes h em = ground arith

  status_equal-same :
      (a b : Crd) (p : JsonProps) (bytes : List ℕ)
      → first_status a.versions ≡ some p
      → first_status b.versions ≡ some p
      → marshal p ≡ ok bytes
      → status_equal marshal a b ≡ ok true
  unfolding status_equal
  status_equal-same a b p bytes ha hb em =
      let d = get_hash (write new_fnv_object_hash bytes) in
      rw
        (
          status_digest-of "error hashing CRD status" a p bytes ha em,
          status_digest-of "error hashing generated CRD status" b p bytes hb em,
          status_equal,
        )
        (rw codes_eq_self)

-- Where the CRD has a status at all and the new version has one that can be marshalled, a status
-- update that succeeds leaves a CRD whose status equals that of a CRD which starts with the new
-- version.
pub update_status-status_equal :
    (marshal : JsonProps → Result (List ℕ)) (crd crd' new : Crd) (v : CrdVersion)
    (vs : List CrdVersion) (p q : JsonProps) (bytes : List ℕ)
    → new.versions ≡ v ∷ vs
    → status_of_schema v.schema ≡ some p
    → first_status crd.versions ≡ some q
    → marshal p ≡ ok bytes
    → update_status crd v ≡ ok crd'
    → status_equal marshal crd' new ≡ ok true
unfolding first_status
update_status-status_equal marshal crd crd' new v vs p q bytes en es ec em e =
    status_equal-same marshal crd' new p bytes
      (first_status-update_status crd crd' v p q v.schema refl es ec e) (rw en (ground arith)) em
