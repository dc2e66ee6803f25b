-- ===== src/Status/Versions.antt =====
-- The versions in the status follow the versions of the CRD.
use core_provider.Base.{
  String, List, [], ◌∷◌, ◌++◌, Option, none, some, true, false, ◌≡◌, refl, ◌∙◌, arith, str_eq,
  eq_iff, if◌then◌else◌, Option-cases, Bool-cases, inl, inr,
}
use core_provider.Schema.{GroupVersionResource}
use core_provider.Types.{ChartInfo, VersionDetail, CompositionDefinition}
use core_provider.Crd.{CrdVersion, Crd}
use core_provider.Status.{
  detail_of, set_served_stored, new_detail, update_version_one, update_versions,
  update_version_info,
}

detail_of-append :
    (n : String) (ds : List VersionDetail) (d : VersionDetail)
    → detail_of n ds ≡ none
    → detail_of n (ds ++ d ∷ []) ≡ (if str_eq d.version n then some d else none)
unfolding detail_of
detail_of-append n [] d h = refl
detail_of-append n (x ∷ ds) d h = ground (arith, detail_of-append n ds d)

detail_of-append_ne :
    (n : String) (ds : List VersionDetail) (d : VersionDetail)
    → str_eq d.version n ≡ false
    → detail_of n (ds ++ d ∷ []) ≡ detail_of n ds
unfolding detail_of
detail_of-append_ne n [] d h = ground arith
detail_of-append_ne n (x ∷ ds) d h = ground (arith, detail_of-append_ne n ds d)

detail_of-set_served_stored :
    (n : String) (v : CrdVersion) (ds : List VersionDetail) (d : VersionDetail)
    → detail_of v.name ds ≡ some d
    → str_eq v.name n ≡ true
    → detail_of n (set_served_stored v ds)
      ≡ some (record d { served = v.served; stored = v.storage })
unfolding detail_of set_served_stored
detail_of-set_served_stored n v [] d h e = cc
detail_of-set_served_stored n v (x ∷ ds) d h e =
    ground (arith, eq_iff v.name n, detail_of-set_served_stored n v ds d)

detail_of-set_served_stored_ne :
    (n : String) (v : CrdVersion) (ds : List VersionDetail)
    → str_eq v.name n ≡ false
    → detail_of n (set_served_stored v ds) ≡ detail_of n ds
unfolding detail_of set_served_stored
detail_of-set_served_stored_ne n v [] e = refl
detail_of-set_served_stored_ne n v (x ∷ ds) e =
    ground (arith, eq_iff x.version v.name, detail_of-set_served_stored_ne n v ds)

-- The last version of a name.
abbrev pub last_version : String → List CrdVersion → Option CrdVersion
last_version n [] = none
last_version n (v ∷ vs) = elim (last_version n vs) [
  | some w ↦ some w
  | none ↦ if str_eq v.name n then some v else none
]

module _ (chart : ChartInfo) (gvr : GroupVersionResource) (n : String) where
  -- The entry of a version after an update, from its entry before and the version of the CRD: what
  -- the CRD does not have stays; an entry that is there keeps its chart; a new one gets the chart if
  -- it is the version of the GVR.
  abbrev pub expected : Option VersionDetail → Option CrdVersion → Option VersionDetail
  expected old none = old
  expected (some d) (some v) = some (record d { served = v.served; stored = v.storage })
  expected none (some v) = some (record {
    version = n;
    served = v.served;
    stored = v.storage;
    chart = if str_eq gvr.version n then some chart else none;
  })

  abbrev if_named : CrdVersion → Option CrdVersion
  if_named v = if str_eq v.name n then some v else none

  expected-twice :
      (old : Option VersionDetail) (v : CrdVersion) (last : Option CrdVersion)
      → expected (expected old (if_named v)) last
        ≡ expected old (elim last [ some w ↦ some w | none ↦ if_named v ])
  expected-twice none v none = refl
  expected-twice none v (some w) = ground arith
  expected-twice (some d) v none = refl
  expected-twice (some d) v (some w) = ground arith

  detail_of-update_version_one :
      (infos : List VersionDetail) (v : CrdVersion)
      → detail_of n (update_version_one chart gvr infos v)
        ≡ expected (detail_of n infos) (if_named v)
  unfolding update_version_one new_detail
  detail_of-update_version_one infos v = elim (Bool-cases (str_eq v.name n)) [
    | inl here ↦ elim (Option-cases (detail_of v.name infos)) [
      | inl new ↦ ground (arith, eq_iff v.name n, detail_of-append n infos (new_detail chart gvr v))
      | inr (d, old) ↦ ground (arith, eq_iff v.name n, detail_of-set_served_stored n v infos d)
    ]
    | inr other ↦ elim (Option-cases (detail_of v.name infos)) [
      | inl new ↦ ground (arith, detail_of-append_ne n infos (new_detail chart gvr v))
      | inr (d, old) ↦ ground (arith, detail_of-set_served_stored_ne n v infos)
    ]
  ]

  detail_of-update_versions :
      (infos : List VersionDetail) (vs : List CrdVersion)
      → detail_of n (update_versions chart gvr infos vs)
        ≡ expected (detail_of n infos) (last_version n vs)
  unfolding update_versions
  detail_of-update_versions infos [] = refl
  detail_of-update_versions infos (v ∷ vs) =
      detail_of-update_versions (update_version_one chart gvr infos v) vs
      ∙ rw detail_of-update_version_one (expected-twice (detail_of n infos) v (last_version n vs))

-- After UpdateVersionInfo the entry of a version is determined by its entry before and by the last
-- version of that name in the CRD: a version that the CRD does not have keeps its entry or its
-- absence; an entry that is there takes over `served` and `stored` and keeps its chart; a new entry
-- has the chart of the definition exactly if it is the version of the GVR.
pub detail_of-update_version_info :
    (chart : ChartInfo) (cr : CompositionDefinition) (crd : Crd) (gvr : GroupVersionResource)
    (n : String)
    → detail_of n (update_version_info chart cr crd gvr).status.managed.version_info
      ≡ expected chart gvr n
          (detail_of n cr.status.managed.version_info)
          (last_version n crd.versions)
unfolding update_version_info
detail_of-update_version_info chart cr crd gvr n =
    detail_of-update_versions chart gvr n cr.status.managed.version_info crd.versions
