-- ===== src/Crd/Updates.antt =====
-- What can become of the CRD in ApplyOrUpdateCRD.
pub mod Branches
use core_provider.Base.{
  String, List, [], ◌∷◌, Option, none, some, Bool, true, false, not, ◌≡◌, refl, sym, ap, ◌∙◌, arith,
  if◌then◌else◌, Bool-cases, inl, inr, if_true, if_false,
}
use core_provider.Base.Result.{Error, Result, ok}
use core_provider.Base.Exec.{Exec, pure, lift, on_error, ◌>>=◌, ◌>>◌, >>=-ok, on_error-ok}
use core_provider.Schema.{GroupVersionKind, GroupVersionResource, group_resource, Object}
use core_provider.Kube.{apply_to}
use core_provider.Watcher.{watch_resource}
use core_provider.Crd.{CrdVersion, Crd}
use core_provider.Crd.Generation.{
  set_served_storage, append_version, update_status, status_equal, gvk_exists,
}
use core_provider.Crd.Cluster.{
  CrdPlatform, ApplyOpts, is_ready, inject_conversion_conf_to_crd, get, Applied, apply_crd,
  wait_established, create_crd, refresh_status, check_webhook, add_version, update_crd,
  create_or_update, apply_first, apply_or_update_crd,
}

-- the kind of the new CRD at the version of the GVR
abbrev pub gvk_of : GroupVersionResource → Object Crd → GroupVersionKind
gvk_of gvr crd = record { group = crd.body.group; version = gvr.version; kind = crd.body.kind }

-- the GVR of a version of the new CRD
abbrev pub gvr_of : CrdVersion → Object Crd → GroupVersionResource
gvr_of version newcrd = record {
  group = newcrd.body.group;
  version = version.name;
  resource = newcrd.body.plural;
}

module _ {W : Type 0} (p : CrdPlatform W) where
  -- `sent` was applied in the world `u`, the server answered `applied`, and the watch has then seen it
  -- established, in the world `w'`.
  pub record Established (sent applied : Object Crd) (u w' : W) : Type 0 where
    pub between : W
    pub applies :
        apply_to p.client p.api p.wait
          (record { dry_run = []; field_manager = ""; field_validation = "" })
          sent
          u
        ≡ (ok applied, between)
    pub watches : watch_resource is_ready p.watch_crds "" applied.name between ≡ (ok tt, w')

  pure-ok :
      {A : Type 0} (a x : A) (v w' : W)
      → ◌≡◌ {A = Result A × W} (ok a, v) (ok x, w')
      → (x ≡ a) × (v ≡ w')
  pure-ok a x v w' h = (ground arith, ap (λ o. o.1) h)

  pub apply_crd-Established :
      {A : Type 0} (message : String) (sent : Object Crd) (answer : Object Crd → A) (u w' : W)
      (x : A)
      → (apply_crd p message sent >>= λ applied.
            wait_established p applied.name >> pure (answer applied))
          u
        ≡ (ok x, w')
      → (applied : Object Crd) × Established sent applied u w' × (x ≡ answer applied)
  unfolding apply_crd wait_established
  apply_crd-Established message sent answer u w' x h =
      let (applied, v, first, rest) = >>=-ok _ _ u x w' h in
      let (_, v', second, last) = >>=-ok _ _ v x w' rest in
      let (e, q) = pure-ok (answer applied) x v' w' last in
      (
        applied,
        record {
          between = v;
          applies = on_error-ok _ _ u v applied first;
          watches = on_error-ok _ _ v v' tt second ∙ ap (λ (y : W). (ok tt, y)) q;
        },
        e,
      )

  -- What became of the CRD, which `crd` was in the world `v` before: it was created; it has the version
  -- and its status, and was left alone; its status was replaced; or the version was added, with the
  -- conversion webhook, and is served. `answer` is what is returned beside the GVR.
  pub data Done (opts : ApplyOpts) (gvr : GroupVersionResource) (version : CrdVersion)
      (newcrd : Object Crd) (v w' : W) : Option (Object Crd) → Type 0 where
    created :
        (applied : Object Crd)
        → Established newcrd applied v w'
        → Done opts gvr version newcrd v w' none
    left_alone :
        (crd : Object Crd)
        → status_equal p.marshal crd.body newcrd.body ≡ ok true
        → gvk_exists crd.body (gvk_of gvr newcrd) ≡ true
        → v ≡ w'
        → Done opts gvr version newcrd v w' (some crd)
    refreshed :
        (crd applied : Object Crd) (body : Crd)
        → status_equal p.marshal crd.body newcrd.body ≡ ok false
        → update_status crd.body version ≡ ok body
        → Established (record crd { body = body }) applied v w'
        → Done opts gvr version newcrd v w' (some crd)
    extended :
        (crd applied : Object Crd) (body : Crd)
        → status_equal p.marshal crd.body newcrd.body ≡ ok true
        → gvk_exists crd.body (gvk_of gvr newcrd) ≡ false
        → append_version crd.body newcrd.body ≡ ok body
        → check_webhook p opts ≡ ok tt
        → Established
            (record crd {
              body =
                  set_served_storage
                    (inject_conversion_conf_to_crd opts body)
                    gvr.version
                    true
                    false;
            })
            applied
            v
            w'
        → Done opts gvr version newcrd v w' (some crd)
