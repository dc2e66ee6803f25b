-- ===== src/Crd/Serving.antt =====
-- The CRD that ApplyOrUpdateCRD sends for a new version.
use mathlib.Core.Path.{subst}
use core_provider.Base.{
  sym, Option, some, none, ap, ◌∙◌, String, List, [], ◌∷◌, map, true, false, ◌≤◌, ◌≡◌, refl, arith,
  str_eq, eq_iff,
}
use core_provider.Base.Result.{Result, ok, err}
use core_provider.Crd.{CrdVersion, Crd}
use core_provider.Crd.Generation.{
  set_version, set_served_storage, has_version, vacuum, append_version, status_equal, gvk_exists,
}
use core_provider.Crd.Versions.{
  stored, stored_vacuums, unserved, IsVacuumStored, IsServable, adds, append_version-IsServable,
}
use core_provider.Schema.{group_resource, GroupVersionResource, Object}
use core_provider.Crd.Schemas.{append_all-Covers}
use core_provider.Crd.Cluster.{
  CrdPlatform, ApplyOpts, inject_conversion_conf_to_crd, get, apply_or_update_crd,
}
use core_provider.Crd.Updates.{
  gvk_of, gvr_of, Established, Done, created, left_alone, refreshed, extended,
}
use core_provider.Crd.Updates.Branches.{apply_or_update_crd-ok}

stored_vacuums_le : (vs : List CrdVersion) → stored_vacuums vs ≤ stored vs
stored_vacuums_le [] = omega arith
stored_vacuums_le (v ∷ vs) = ground (arith, stored_vacuums_le vs)

module _ (n : String) (other : str_eq n vacuum ≡ false) where
  abbrev served_now : List CrdVersion → List CrdVersion
  served_now = map (set_version n true false)

  stored-served_now : (vs : List CrdVersion) → stored (served_now vs) ≤ stored vs
  stored-served_now [] = omega arith
  stored-served_now (v ∷ vs) = ground (arith, stored-served_now vs)

  unserved-served_now : (vs : List CrdVersion) → unserved (served_now vs) ≤ unserved vs
  unserved-served_now [] = omega arith
  unserved-served_now (v ∷ vs) = ground (arith, unserved-served_now vs)

  stored_vacuums-served_now :
      (vs : List CrdVersion) → stored_vacuums (served_now vs) ≡ stored_vacuums vs
  stored_vacuums-served_now [] = refl
  stored_vacuums-served_now (v ∷ vs) = ground (arith, stored_vacuums-served_now vs, eq_iff v.name n)

  has_version-served_now :
      (k : String) (vs : List CrdVersion) → has_version k (served_now vs) ≡ has_version k vs
  unfolding has_version
  has_version-served_now k [] = refl
  has_version-served_now k (v ∷ vs) = ground (arith, has_version-served_now k vs)

  IsServable-served_now : (vs : List CrdVersion) → IsServable vs → IsServable (served_now vs)
  IsServable-served_now vs s = record {
    one_stored = omega (
      arith,
      s.one_stored,
      s.vacuum_stored,
      stored-served_now vs,
      stored_vacuums-served_now vs,
      stored_vacuums_le (served_now vs),
    );
    all_served = omega (arith, s.all_served, unserved-served_now vs);
    has_vacuum = rw (has_version-served_now vacuum vs) s.has_vacuum;
    vacuum_stored = rw (stored_vacuums-served_now vs) s.vacuum_stored;
  }

served_storage-IsServable :
    (opts : ApplyOpts) (crd toadd body : Crd) (version : String)
    → append_version crd toadd ≡ ok body
    → IsVacuumStored crd.versions
    → has_version vacuum toadd.versions ≡ false
    → adds crd.versions toadd.versions ≡ true
    → str_eq version vacuum ≡ false
    → IsServable
        (set_served_storage (inject_conversion_conf_to_crd opts body) version true false).versions
unfolding set_served_storage inject_conversion_conf_to_crd
served_storage-IsServable opts crd toadd body version e inv none_vacuum new other =
    IsServable-served_now version other body.versions
      (append_version-IsServable crd toadd body e inv none_vacuum new)

-- the first of the added versions is there
has_version-served_storage :
    (opts : ApplyOpts) (crd toadd body : Crd) (version : CrdVersion) (rest : List CrdVersion)
    → append_version crd toadd ≡ ok body
    → toadd.versions ≡ version ∷ rest
    → str_eq version.name vacuum ≡ false
    → has_version version.name
        (set_served_storage
          (inject_conversion_conf_to_crd opts body)
          version.name
          true
          false).versions
      ≡ true
unfolding set_served_storage inject_conversion_conf_to_crd append_version
has_version-served_storage opts crd toadd body version rest e added other =
    let (has, _) = append_all-Covers crd.versions (version ∷ rest) in
    has_version-served_now version.name other version.name body.versions ∙ ground arith

-- The CRD that was sent between the worlds `v` and `w'` in place of `crd`, to which `version` is added: it
-- is applied and then seen established, it has the version, exactly one of its versions is stored, which
-- is a vacuum version, and every other version is served.
pub record Sent {W : Type 0} (p : CrdPlatform W) (crd : Object Crd) (version : CrdVersion)
    (v w' : W) : Type 0 where
  pub sent : Object Crd
  pub applied : Object Crd
  pub established : Established p sent applied v w'
  pub same_name : sent.name ≡ crd.name
  pub same_resource_version : sent.resource_version ≡ crd.resource_version
  pub has_new : has_version version.name sent.body.versions ≡ true
  pub servable : IsServable sent.body.versions

module _ {W : Type 0} (p : CrdPlatform W) (opts : ApplyOpts) (newcrd crd : Object Crd)
    (version : CrdVersion) (rest : List CrdVersion) (added : newcrd.body.versions ≡ version ∷ rest)
    (none_vacuum : has_version vacuum newcrd.body.versions ≡ false)
    (inv : IsVacuumStored crd.body.versions)
    (same_status : status_equal p.marshal crd.body newcrd.body ≡ ok true)
    (new : has_version version.name crd.body.versions ≡ false) where
  not_vacuum : str_eq version.name vacuum ≡ false
  unfolding has_version
  not_vacuum = ground (arith, ap (has_version vacuum) added)

  adds_one : adds crd.body.versions newcrd.body.versions ≡ true
  adds_one = ap (adds crd.body.versions) added ∙ ground arith

  no_kind : gvk_exists crd.body (gvk_of (gvr_of version newcrd) newcrd) ≡ false
  unfolding gvk_exists
  no_kind = ground arith

  extended-Sent :
      (applied : Object Crd) (body : Crd) (v w' : W)
      → append_version crd.body newcrd.body ≡ ok body
      → Established p
          (record crd {
            body =
                set_served_storage
                  (inject_conversion_conf_to_crd opts body)
                  version.name
                  true
                  false;
          })
          applied
          v
          w'
      → Sent p crd version v w'
  extended-Sent applied body v w' made done = record {
    sent = record crd {
      body = set_served_storage (inject_conversion_conf_to_crd opts body) version.name true false;
    };
    applied = applied;
    established = done;
    same_name = refl;
    same_resource_version = refl;
    has_new =
        has_version-served_storage opts crd.body newcrd.body body version rest made added
          not_vacuum;
    servable =
        served_storage-IsServable opts crd.body newcrd.body body version.name made inv none_vacuum
          adds_one not_vacuum;
  }

  of_some : (crd1 : Object Crd) → ◌≡◌ {A = Option (Object Crd)} (some crd1) (some crd) → crd1 ≡ crd
  of_some crd1 e = ap (λ o. elim o [ none ↦ crd | some c ↦ c ]) e

  Done-Sent :
      (found : Option (Object Crd)) (v w' : W)
      → found ≡ some crd
      → Done p opts (gvr_of version newcrd) version newcrd v w' found
      → Sent p crd version v w'
  Done-Sent found v w' is_crd (created applied done) = cc
  Done-Sent found v w' is_crd (left_alone crd1 same has end) =
      let kind = gvk_of (gvr_of version newcrd) newcrd in
      let here = subst (λ c. gvk_exists c.body kind ≡ true) (of_some crd1 is_crd) has in
      let lacks = no_kind in cc
  Done-Sent found v w' is_crd (refreshed crd1 applied body differs made done) =
      let here =
        subst (λ c. status_equal p.marshal c.body newcrd.body ≡ ok false) (of_some crd1 is_crd)
          differs in
      cc
  Done-Sent found v w' is_crd (extended crd1 applied body same lacks made checked done) =
      let here = of_some crd1 is_crd in
      extended-Sent applied body v w'
        (subst (λ c. append_version c.body newcrd.body ≡ ok body) here made)
        (subst
          (λ c.
            Established p
              (record c {
                body =
                    set_served_storage (inject_conversion_conf_to_crd opts body) version.name true
                      false;
              })
              applied v w')
          here done)

  -- ApplyOrUpdateCRD adds the first version of `newcrd` to the CRD that it reads, where that CRD has the
  -- same status and lacks the version: if it succeeds, it has sent a CRD of the same name and resource
  -- version, and seen it established, that has the version and that the API server accepts: exactly one
  -- version is stored, it is a vacuum version, and every other is served. The conditions are that
  -- `newcrd` has no version named vacuum, and that the CRD that is read has none or exactly one that is
  -- stored.
  pub apply_or_update_crd-Sent :
      (w v w' : W) (gvr : GroupVersionResource) (final : Object Crd)
      → get p (group_resource (gvr_of version newcrd)) w ≡ (ok (some crd), v)
      → apply_or_update_crd p opts newcrd w ≡ (ok (gvr, final), w')
      → Sent p crd version v w'
  apply_or_update_crd-Sent w v w' gvr final read h =
      let (version1, rest1, v1, found, added1, read1, done) =
        apply_or_update_crd-ok p opts newcrd w w' gvr final h in
      let same : version1 ≡ version =
        ap (λ vs. elim vs [ [] ↦ version | u ∷ us ↦ u ]) (sym added1 ∙ added) in
      let reads : ◌≡◌ {A = Result (Option (Object Crd)) × W} (ok found, v1) (ok (some crd), v) =
        sym (subst (λ u. get p (group_resource (gvr_of u newcrd)) w ≡ (ok found, v1)) same read1)
        ∙ read in
      let here : v1 ≡ v = ap (λ o. o.1) reads in
      Done-Sent found v w' (ap (λ o. elim o.0 [ ok x ↦ x | err e ↦ none ]) reads) (
        subst (λ u. Done p opts (gvr_of version newcrd) version newcrd u w' found) here
          (subst (λ u. Done p opts (gvr_of u newcrd) u newcrd v1 w' found) same done))
