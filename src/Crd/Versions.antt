-- ===== src/Crd/Versions.antt =====
-- What AppendVersion makes of the list of versions.
use core_provider.Base.{
  ℕ, suc, ◌+◌, String, List, [], ◌∷◌, ◌++◌, map, Bool, true, false, not, ◌||◌, ◌&&◌, ◌≡◌, refl, ◌∙◌,
  arith, str_eq, eq_refl, if◌then◌else◌, Bool-cases, inl, inr,
}
use core_provider.Crd.{CrdVersion, Crd}
use core_provider.Crd.Generation.{
  has_version, vacuum, vacuum_version, serve, append_one, append_all, append_version,
}
use core_provider.Base.Result.{ok}

pub has_version-append :
    (n : String) (xs ys : List CrdVersion)
    → has_version n (xs ++ ys) ≡ (has_version n xs || has_version n ys)
unfolding has_version
has_version-append n [] ys = ground arith
has_version-append n (x ∷ xs) ys = ground (arith, has_version-append n xs ys)

pub has_version-serve :
    (n : String) (xs : List CrdVersion) → has_version n (map serve xs) ≡ has_version n xs
unfolding has_version
has_version-serve n [] = refl
has_version-serve n (x ∷ xs) = ground (arith, has_version-serve n xs)

-- The versions that are stored; those that are named vacuum and stored; and those, other than
-- vacuum, that are not served.
abbrev pub stored : List CrdVersion → ℕ
stored [] = 0
stored (v ∷ vs) = let rest = stored vs in if v.storage then suc rest else rest

abbrev pub stored_vacuums : List CrdVersion → ℕ
stored_vacuums [] = 0
stored_vacuums (v ∷ vs) =
    let rest = stored_vacuums vs in if str_eq v.name vacuum && v.storage then suc rest else rest

abbrev pub unserved : List CrdVersion → ℕ
unserved [] = 0
unserved (v ∷ vs) =
    let rest = unserved vs in if not (str_eq v.name vacuum) && not v.served then suc rest else rest

stored_vacuums-append :
    (xs ys : List CrdVersion) → stored_vacuums (xs ++ ys) ≡ stored_vacuums xs + stored_vacuums ys
stored_vacuums-append [] ys = omega arith
stored_vacuums-append (x ∷ xs) ys = ground (arith, stored_vacuums-append xs ys)

stored-serve : (xs : List CrdVersion) → stored (map serve xs) ≡ stored_vacuums xs
stored-serve [] = refl
stored-serve (x ∷ xs) = ground (arith, stored-serve xs)

stored_vacuums-serve : (xs : List CrdVersion) → stored_vacuums (map serve xs) ≡ stored_vacuums xs
stored_vacuums-serve [] = refl
stored_vacuums-serve (x ∷ xs) = ground (arith, stored_vacuums-serve xs)

unserved-serve : (xs : List CrdVersion) → unserved (map serve xs) ≡ 0
unserved-serve [] = refl
unserved-serve (x ∷ xs) = ground (arith, unserved-serve xs)

-- If there is a vacuum version, exactly one is stored.
abbrev pub IsVacuumStored : List CrdVersion → Type 0
IsVacuumStored vs = stored_vacuums vs ≡ (if has_version vacuum vs then 1 else 0)

-- The Kubernetes API server refuses a CRD unless exactly one version is stored.
pub record IsServable (vs : List CrdVersion) : Type 0 where
  pub one_stored : stored vs ≡ 1
  pub all_served : unserved vs ≡ 0
  pub has_vacuum : has_version vacuum vs ≡ true
  pub vacuum_stored : stored_vacuums vs ≡ 1

vacuum_found : str_eq vacuum vacuum ≡ true
vacuum_found = eq_refl vacuum

abbrev pub vacuum_if_missing : List CrdVersion → List CrdVersion
vacuum_if_missing vs = if has_version vacuum vs then [] else vacuum_version ∷ []

module _ (vs : List CrdVersion) (v : CrdVersion) (other : str_eq v.name vacuum ≡ false)
    (inv : IsVacuumStored vs) where
  extended-stored_vacuums : stored_vacuums (vs ++ v ∷ vacuum_if_missing vs) ≡ 1
  extended-stored_vacuums =
      ground (arith, stored_vacuums-append vs (v ∷ vacuum_if_missing vs), vacuum_found)

  extended-has_vacuum : has_version vacuum (vs ++ v ∷ vacuum_if_missing vs) ≡ true
  unfolding has_version
  extended-has_vacuum =
      ground (arith, has_version-append vacuum vs (v ∷ vacuum_if_missing vs), vacuum_found)

  append_one-new : has_version v.name vs ≡ false → IsServable (append_one vs v)
  unfolding append_one
  append_one-new new =
      let all = vs ++ v ∷ vacuum_if_missing vs in
      rw new (record {
        one_stored = stored-serve all ∙ extended-stored_vacuums;
        all_served = unserved-serve all;
        has_vacuum = has_version-serve vacuum all ∙ extended-has_vacuum;
        vacuum_stored = stored_vacuums-serve all ∙ extended-stored_vacuums;
      })

pub append_one-old :
    (vs : List CrdVersion) (v : CrdVersion) → has_version v.name vs ≡ true → append_one vs v ≡ vs
unfolding append_one
append_one-old vs v old = rw old

append_all-keeps :
    (vs ws : List CrdVersion)
    → has_version vacuum ws ≡ false
    → IsServable vs
    → IsServable (append_all vs ws)
unfolding append_all has_version
append_all-keeps vs [] none_vacuum s = s
append_all-keeps vs (w ∷ ws) none_vacuum s = elim (Bool-cases (has_version w.name vs)) [
  | inl old ↦ rw (append_one-old vs w old) (append_all-keeps vs ws (ground arith) s)
  | inr new ↦
      append_all-keeps (append_one vs w) ws (ground arith)
        (append_one-new vs w (ground arith) (ground (arith, s.vacuum_stored, s.has_vacuum)) new)
]

-- Some of the versions `ws` is not among `vs`.
abbrev pub adds : List CrdVersion → List CrdVersion → Bool
adds vs [] = false
adds vs (w ∷ ws) = not (has_version w.name vs) || adds vs ws

append_all-IsServable :
    (vs ws : List CrdVersion)
    → IsVacuumStored vs
    → has_version vacuum ws ≡ false
    → adds vs ws ≡ true
    → IsServable (append_all vs ws)
unfolding append_all has_version
append_all-IsServable vs [] inv none_vacuum new = cc
append_all-IsServable vs (w ∷ ws) inv none_vacuum new = elim (Bool-cases (has_version w.name vs)) [
  | inl old ↦
      rw (append_one-old vs w old) (append_all-IsServable vs ws inv (ground arith) (ground arith))
  | inr fresh ↦
      append_all-keeps (append_one vs w) ws (ground arith)
        (append_one-new vs w (ground arith) inv fresh)
]

-- Where the CRD has either no vacuum version or exactly one that is stored, and at least one of the
-- added versions, none of which is named vacuum, is new, AppendVersion gives a CRD that the API
-- server accepts: exactly one version is stored, it is a vacuum version, and every other is served.
pub append_version-IsServable :
    (crd toadd result : Crd)
    → append_version crd toadd ≡ ok result
    → IsVacuumStored crd.versions
    → has_version vacuum toadd.versions ≡ false
    → adds crd.versions toadd.versions ≡ true
    → IsServable result.versions
unfolding append_version
append_version-IsServable crd toadd result e inv none_vacuum new =
    let q : append_all crd.versions toadd.versions ≡ result.versions = ground arith in
    rw (← q) (append_all-IsServable crd.versions toadd.versions inv none_vacuum new)
