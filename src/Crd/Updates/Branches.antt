-- ===== src/Crd/Updates/Branches.antt =====
-- What a successful ApplyOrUpdateCRD has done, branch by branch.
use core_provider.Base.{
  List, [], ◌∷◌, Option, none, some, Bool, true, false, not, ◌≡◌, refl, sym, ap, ◌∙◌, if◌then◌else◌,
  Bool-cases, inl, inr, if_true, if_false,
}
use core_provider.Base.Result.{Error, Result, ok}
use core_provider.Base.Exec.{Exec, pure, lift, on_error, >>=-ok, on_error-ok}
use core_provider.Schema.{GroupVersionResource, group_resource, Object}
use core_provider.Crd.{CrdVersion, Crd}
use core_provider.Crd.Generation.{set_served_storage, status_equal, gvk_exists}
use core_provider.Crd.Cluster.{
  CrdPlatform, ApplyOpts, inject_conversion_conf_to_crd, get, Applied, create_crd, refresh_status,
  add_version, update_crd, create_or_update, apply_first, apply_or_update_crd,
}
use core_provider.Crd.Updates.{
  gvk_of, gvr_of, apply_crd-Established, Done, created, left_alone, refreshed, extended,
}

module _ {W : Type 0} (p : CrdPlatform W) where
  module _ (opts : ApplyOpts) (gvr : GroupVersionResource) (version : CrdVersion)
      (newcrd : Object Crd) where
    create_crd-Done :
        (v w' : W) (x : Applied p)
        → create_crd p gvr newcrd v ≡ (ok x, w')
        → Done p opts gvr version newcrd v w' none
    unfolding create_crd
    create_crd-Done v w' x h =
        let (applied, done, _) = apply_crd-Established p _ newcrd (λ o. (gvr, o)) v w' x h in
        created applied done

    lifted :
        {A : Type 0} (message : Error → Error) (r : Result A) (v w' : W) (a : A)
        → on_error message (lift r) v ≡ (ok a, w')
        → (r ≡ ok a) × (v ≡ w')
    lifted message r v w' a h =
        let q = on_error-ok message (lift r) v w' a h in (ap (λ o. o.0) q, ap (λ o. o.1) q)

    refresh_status-Done :
        (crd : Object Crd) (v w' : W) (x : Applied p)
        → status_equal p.marshal crd.body newcrd.body ≡ ok false
        → refresh_status p gvr version newcrd crd v ≡ (ok x, w')
        → Done p opts gvr version newcrd v w' (some crd)
    unfolding refresh_status
    refresh_status-Done crd v w' x differs h =
        let (body, v', first, rest) = >>=-ok _ _ v x w' h in
        let (made, same) = lifted _ _ v v' body first in
        let (applied, done, _) =
          apply_crd-Established p _ (record crd { body = body }) (λ o. (gvr, newcrd)) v' w' x
            rest in
        refreshed crd applied body differs made (rw same done)

    add_version-Done :
        (crd : Object Crd) (v w' : W) (x : Applied p)
        → status_equal p.marshal crd.body newcrd.body ≡ ok true
        → gvk_exists crd.body (gvk_of gvr newcrd) ≡ false
        → add_version p opts gvr newcrd crd v ≡ (ok x, w')
        → Done p opts gvr version newcrd v w' (some crd)
    unfolding add_version
    add_version-Done crd v w' x equal lacks h =
        let (body, v1, first, rest) = >>=-ok _ _ v x w' h in
        let (made, same) = lifted _ _ v v1 body first in
        let (_, v2, second, rest') = >>=-ok _ _ v1 x w' rest in
        let (applied, done, _) =
          apply_crd-Established p _
            (record crd {
              body =
                  set_served_storage (inject_conversion_conf_to_crd opts body) gvr.version true
                    false;
            })
            (λ o. (gvr, newcrd)) v2 w' x rest' in
        extended crd applied body equal lacks made (ap (λ o. o.0) second)
          (rw (same, ap (λ o. o.1) second) done)

    -- the branches after the comparison
    compared-Done :
        (crd : Object Crd) (same : Bool) (v w' : W) (x : Applied p)
        → status_equal p.marshal crd.body newcrd.body ≡ ok same
        → (if not same
              then refresh_status p gvr version newcrd crd
              else if gvk_exists crd.body (gvk_of gvr newcrd)
              then pure (gvr, newcrd)
              else add_version p opts gvr newcrd crd)
            v
          ≡ (ok x, w')
        → Done p opts gvr version newcrd v w' (some crd)
    compared-Done crd false v w' x e h = refresh_status-Done crd v w' x e h
    compared-Done crd true v w' x e h =
        elim (Bool-cases (gvk_exists crd.body (gvk_of gvr newcrd))) [
          | inl has ↦
              left_alone crd e has
                (ap (λ o. o.1) (sym (ap (λ (m : Exec W (Applied p)). m v) (if_true _ _ has)) ∙ h))
          | inr lacks ↦
              add_version-Done crd v w' x e lacks
                (sym (ap (λ (m : Exec W (Applied p)). m v) (if_false _ _ lacks)) ∙ h)
        ]

    update_crd-Done :
        (crd : Object Crd) (v w' : W) (x : Applied p)
        → update_crd p opts gvr version newcrd crd v ≡ (ok x, w')
        → Done p opts gvr version newcrd v w' (some crd)
    unfolding update_crd
    update_crd-Done crd v w' x h =
        let (same, v', first, rest) = >>=-ok _ _ v x w' h in
        let (e, q) = lifted _ _ v v' same first in
        compared-Done crd same v w' x e (ap (branches same) q ∙ rest)
      where
        branches : Bool → W → Result (Applied p) × W
        branches same u =
            (if not same
                then refresh_status p gvr version newcrd crd
                else if gvk_exists crd.body (gvk_of gvr newcrd)
                then pure (gvr, newcrd)
                else add_version p opts gvr newcrd crd)
              u

    create_or_update-Done :
        (found : Option (Object Crd)) (v w' : W) (x : Applied p)
        → create_or_update p opts gvr version newcrd found v ≡ (ok x, w')
        → Done p opts gvr version newcrd v w' found
    unfolding create_or_update
    create_or_update-Done none v w' x h = create_crd-Done v w' x h
    create_or_update-Done (some crd) v w' x h = update_crd-Done crd v w' x h

  -- A successful ApplyOrUpdateCRD has read the CRD of the first version of `newcrd`, and has then done
  -- one of four things. Without a CRD, `newcrd` was applied. Where the status differs, the status of
  -- the version was put into the CRD that was read, and nothing else. Where the status is equal and the
  -- version is there, the world is as the read left it. Otherwise the versions of `newcrd` were
  -- appended, with a conversion webhook that has a CA bundle and names, and the version is served and
  -- not stored. What was applied was seen established afterwards.
  pub apply_or_update_crd-ok :
      (opts : ApplyOpts) (newcrd : Object Crd) (w w' : W) (gvr : GroupVersionResource)
      (final : Object Crd)
      → apply_or_update_crd p opts newcrd w ≡ (ok (gvr, final), w')
      → (version : CrdVersion) × (rest : List CrdVersion) × (v : W) × (found : Option (Object Crd))
        × (newcrd.body.versions ≡ version ∷ rest)
        × (get p (group_resource (gvr_of version newcrd)) w ≡ (ok found, v))
        × Done p opts (gvr_of version newcrd) version newcrd v w' found
  unfolding apply_or_update_crd apply_first
  apply_or_update_crd-ok opts newcrd w w' gvr final h = of_versions newcrd.body.versions refl h
    where
      of_versions :
          (versions : List CrdVersion)
          → newcrd.body.versions ≡ versions
          → apply_first p opts newcrd versions w ≡ (ok (gvr, final), w')
          → (version : CrdVersion) × (rest : List CrdVersion) × (v : W) × (found : Option
              (Object Crd))
            × (newcrd.body.versions ≡ version ∷ rest)
            × (get p (group_resource (gvr_of version newcrd)) w ≡ (ok found, v))
            × Done p opts (gvr_of version newcrd) version newcrd v w' found
      of_versions [] e q = cc
      of_versions (version ∷ rest) e q =
          let (found, v, read, last) = >>=-ok _ _ w (gvr, final) w' q in
          (
            version,
            rest,
            v,
            found,
            e,
            on_error-ok _ _ w v found read,
            create_or_update-Done opts (gvr_of version newcrd) version newcrd found v w'
                (gvr, final) last,
          )
