-- ===== src/Controller/Observe/Agreement.antt =====
-- What it means that Observe says that a definition is up to date.
use core_provider.Base.{
  List, String, Option, none, some, Bool, true, false, not, ◌≡◌, refl, sym, ap, ◌∙◌, arith,
  codes_eq, codes_eq_sound, inl, inr, if◌then◌else◌,
}
use core_provider.Base.Result.{wrap, Result, ok, Result-split}
use core_provider.Base.Exec.{Exec, pure, on_error, on_error-ok, >>=-ok, lift-ok, ◌>>=◌, beside-ok}
use core_provider.Schema.{GroupVersionKind, GroupVersionResource, group_resource, Object}
use core_provider.Types.{ChartInfo, CompositionDefinition}
use core_provider.Crd.{Crd}
use core_provider.Crd.Cluster
use core_provider.Crd.Generation.{status_equal}
use core_provider.Crd.Generated.{generate_crd}
use core_provider.Composition.{get_compositions}
use core_provider.Status.{refresh_composition_definition_status}
use core_provider.Deploy.Install.{deploy}
use core_provider.Deploy.Find
use core_provider.Controller.{External, change_definition, with_condition, chart_of, deploy_options}
use core_provider.Controller.Observe.{
  up_to_date, Resolved, gone, resource, compare_digests, observe_deployed, Found, no_crd,
  no_version, differs, agrees, resolve, observe_version, observe_resource, conclude,
  observe_resolved, observe,
}
use core_provider.Controller.Observe.Inputs.{
  ResolvedTo, ReadByObserve, read_chart-ReadByObserve, resolve-ResolvedTo, chart_of-some,
}

module _ {W A L : Type 0} (x : External W A L) where
  -- Both digests are that of the status: `a` and `b` are the worlds before the dry run and before the
  -- lookup, `w'` is the one after it.
  pub record SameDigest (cr : CompositionDefinition) (gvr : GroupVersionResource) (schema : String)
      (a w' : W) : Type 0 where
    pub b : W
    pub rendered :
        deploy x.deploys (deploy_options x cr gvr cr.chart schema true) a ≡ (ok cr.status.digest, b)
    pub deployed :
        Find.lookup x.deploys (deploy_options x cr gvr cr.chart schema true) b
        ≡ (ok cr.status.digest, w')

  looked_up-same :
      (cr : CompositionDefinition) (gvr : GroupVersionResource) (schema : String) (b w' : W)
      → (do
        deployed ←
            on_error
              (wrap "error looking up deployed resources digest: %w")
              (Find.lookup x.deploys (deploy_options x cr gvr cr.chart schema true))
        pure (codes_eq cr.status.digest deployed))
          b
        ≡ (ok true, w')
      → Find.lookup x.deploys (deploy_options x cr gvr cr.chart schema true) b
        ≡ (ok cr.status.digest, w')
  looked_up-same cr gvr schema b w' h =
      let (deployed, v, found, e) = >>=-ok _ _ b true w' h in
      let same : cr.status.digest ≡ deployed =
        codes_eq_sound cr.status.digest deployed (ground arith) in
      let found' = on_error-ok _ _ b v deployed found in ground arith

  if_not-true :
      (b : Bool) (m : Exec W Bool) (u t : W)
      → (if not b then pure false else m) u ≡ (ok true, t)
      → (b ≡ true) × (m u ≡ (ok true, t))
  if_not-true true m u t h = (refl, h)
  if_not-true false m u t h = cc

  compare_digests-SameDigest :
      (cr : CompositionDefinition) (gvr : GroupVersionResource) (schema : String) (w w' : W)
      → compare_digests x cr gvr schema w ≡ (ok true, w')
      → SameDigest cr gvr schema w w'
  unfolding compare_digests
  compare_digests-SameDigest cr gvr schema w w' h =
      let (rendered, b, made, rest) = >>=-ok _ _ w true w' h in
      let (same, found) = if_not-true (codes_eq cr.status.digest rendered) _ b w' rest in
      let made' = on_error-ok _ _ w b rendered made in
      let eq : cr.status.digest ≡ rendered = codes_eq_sound cr.status.digest rendered same in
      record { b = b; rendered = ground arith; deployed = looked_up-same cr gvr schema b w' found }

  -- What Observe has found where it says that a definition is up to date, from the world `w` before it
  -- to the world `w'` after it, each step beginning where the one before it ends: `crd` is the CRD on the
  -- cluster, `generated` the one that the chart makes now.
  pub record UpToDate (cr cr' : CompositionDefinition) (w w' : W) : Type 0 where
    pub gvk : GroupVersionKind
    pub gvr : GroupVersionResource
    pub url : String
    pub schema : String
    pub chart : ChartInfo
    pub crd : Object Crd
    pub generated : Object Crd
    pub compositions : List (Object L)
    pub t : W
    pub u : W
    pub v : W
    pub s : W
    pub c : W
    pub has_chart : cr.chart ≡ some chart
    pub chart_read : ReadByObserve x cr gvk url schema w t
    pub resolved : ResolvedTo x cr gvk schema gvr t u
    pub installed : Cluster.get x.crds (group_resource gvr) u ≡ (ok (some crd), v)
    pub has_version : Cluster.lookup x.crds gvr v ≡ (ok true, s)
    pub made : generate_crd x.crdgen schema gvk ≡ ok generated
    pub same_status : status_equal x.crds.marshal crd.body generated.body ≡ ok true
    pub listed : get_compositions x.compositions gvr s ≡ (ok compositions, c)
    pub same_digest : SameDigest cr gvr schema c w'
    pub result :
        cr'
        ≡ with_condition "Available"
            (refresh_composition_definition_status x.to_api_version chart cr crd.body gvr gvk url)

  observe_deployed-true :
      (cr : CompositionDefinition) (gvk : GroupVersionKind) (gvr : GroupVersionResource)
      (schema : String) (crd : Object Crd) (w w' : W)
      → observe_deployed x cr gvk gvr schema crd w ≡ (ok true, w')
      → (generated : Object Crd) × (generate_crd x.crdgen schema gvk ≡ ok generated)
        × (status_equal x.crds.marshal crd.body generated.body ≡ ok true)
        × (us : List (Object L)) × (c : W) × (get_compositions x.compositions gvr w ≡ (ok us, c))
        × SameDigest cr gvr schema c w'
  unfolding observe_deployed
  observe_deployed-true cr gvk gvr schema crd w w' h =
      let (generated, a, e1, h1) = >>=-ok _ _ w true w' h in
      let (same, b, e2, h2) = >>=-ok _ _ a true w' h1 in
      let (yes_same, h3) = if_not-true same _ b w' h2 in
      let (us, c, e4, h4) = >>=-ok _ _ b true w' h3 in
      let generated_ok = on_error-ok _ _ w a generated e1 in
      let same_ok = on_error-ok _ _ a b same e2 in
      let here : b ≡ w = sym (ap (λ o. o.1) generated_ok ∙ ap (λ o. o.1) same_ok) in
      (
        generated,
        ap (λ o. o.0) generated_ok,
        ap (λ o. o.0) same_ok ∙ ap ok yes_same,
        us,
        c,
        ap (get_compositions x.compositions gvr) (sym here) ∙ on_error-ok _ _ b c us e4,
        compare_digests-SameDigest cr gvr schema c w' h4,
      )

  observe_version-agrees :
      (cr : CompositionDefinition) (gvk : GroupVersionKind) (gvr : GroupVersionResource)
      (schema : String) (crd crd' : Object Crd) (w w' : W)
      → observe_version x cr gvk gvr schema crd w ≡ (ok (agrees crd'), w')
      → (crd ≡ crd')
        × (s : W) × (Cluster.lookup x.crds gvr w ≡ (ok true, s))
        × (observe_deployed x cr gvk gvr schema crd s ≡ (ok true, w'))
  unfolding observe_version
  observe_version-agrees cr gvk gvr schema crd crd' w w' h =
      let (exists, s, e1, h1) = >>=-ok _ _ w (agrees crd') w' h in
      go exists s (on_error-ok _ _ w s exists e1) h1
    where
      then_agrees :
          (same : Bool) (t : W)
          → ◌≡◌ {A = Result (Found x) × W}
              (ok (if same then agrees crd else differs), t)
              (ok (agrees crd'), w')
          → (same ≡ true) × (crd ≡ crd') × (t ≡ w')
      then_agrees true t q = (refl, ground arith, ground arith)
      then_agrees false t q = ground arith

      go :
          (exists : Bool) (s : W)
          → Cluster.lookup x.crds gvr w ≡ (ok exists, s)
          → if◌then◌else◌ {A = Exec W (Found x)}
              (not exists)
              (pure no_version)
              (do
                same ← observe_deployed x cr gvk gvr schema crd
                pure (if same then agrees crd else differs))
              s
            ≡ (ok (agrees crd'), w')
          → (crd ≡ crd')
            × (s : W) × (Cluster.lookup x.crds gvr w ≡ (ok true, s))
            × (observe_deployed x cr gvk gvr schema crd s ≡ (ok true, w'))
      go false s l q = ground arith
      go true s l q =
          let (same, t, e2, h2) = >>=-ok _ _ s (agrees crd') w' q in
          let (yes_same, eq, end) = then_agrees same t h2 in (eq, s, l, ground arith)

  observe_resource-agrees :
      (cr : CompositionDefinition) (gvk : GroupVersionKind) (gvr : GroupVersionResource)
      (schema : String) (crd : Object Crd) (w w' : W)
      → observe_resource x cr gvk gvr schema w ≡ (ok (agrees crd), w')
      → (v : W) × (Cluster.get x.crds (group_resource gvr) w ≡ (ok (some crd), v))
        × (observe_version x cr gvk gvr schema crd v ≡ (ok (agrees crd), w'))
  unfolding observe_resource
  observe_resource-agrees cr gvk gvr schema crd w w' h =
      let (found, v, e1, h1) = >>=-ok _ _ w (agrees crd) w' h in
      go found v (on_error-ok _ _ w v found e1) h1
    where
      go :
          (found : Option (Object Crd)) (v : W)
          → Cluster.get x.crds (group_resource gvr) w ≡ (ok found, v)
          → (elim found as (λ o. Exec W (Found x)) [
            | none ↦ pure no_crd
            | some c ↦ observe_version x cr gvk gvr schema c
          ])
              v
            ≡ (ok (agrees crd), w')
          → (v : W) × (Cluster.get x.crds (group_resource gvr) w ≡ (ok (some crd), v))
            × (observe_version x cr gvk gvr schema crd v ≡ (ok (agrees crd), w'))
      go none v l q = ground arith
      go (some c) v l q =
          let (eq, _, _, _) = observe_version-agrees cr gvk gvr schema c crd v w' q in
          (v, ground arith, ground arith)

  conclude-up_to_date :
      (cr cr' : CompositionDefinition) (gvk : GroupVersionKind) (gvr : GroupVersionResource)
      (url : String) (found : Found x) (w w' : W)
      → conclude x cr gvk gvr url found (cr, w) ≡ (ok up_to_date, (cr', w'))
      → (crd : Object Crd) × (chart : ChartInfo) × (found ≡ agrees crd)
        × (chart_of cr ≡ ok chart)
        × (w ≡ w')
        × (cr'
            ≡ with_condition "Available" (
                refresh_composition_definition_status x.to_api_version chart cr crd.body gvr gvk
                  url))
  unfolding conclude change_definition ◌>>=◌
  conclude-up_to_date cr cr' gvk gvr url no_crd w w' h = ground arith
  conclude-up_to_date cr cr' gvk gvr url no_version w w' h = ground arith
  conclude-up_to_date cr cr' gvk gvr url differs w w' h = ground arith
  conclude-up_to_date cr cr' gvk gvr url (agrees crd) w w' h = elim (Result-split (chart_of cr)) [
    | inl (chart, e) ↦ (crd, chart, refl, e, ground arith, ground arith)
    | inr (m, e) ↦ ground arith
  ]

  observe_resolved-up_to_date :
      (cr cr' : CompositionDefinition) (gvk : GroupVersionKind) (url schema : String) (r : Resolved)
      (w t u w' : W) (answer : Result GroupVersionResource)
      → ReadByObserve x cr gvk url schema w t
      → x.gvk_to_gvr gvk t ≡ (answer, u)
      → resolve x cr.deleted gvk schema answer ≡ ok r
      → observe_resolved x cr gvk url schema r (cr, u) ≡ (ok up_to_date, (cr', w'))
      → UpToDate cr cr' w w'
  unfolding observe_resolved
  observe_resolved-up_to_date cr cr' gvk url schema gone w t u w' answer read e q h = ground arith
  observe_resolved-up_to_date cr cr' gvk url schema (resource gvr) w t u w' answer read e q h =
      let (found, u', e1, h1) = beside-ok _ _ cr u up_to_date (cr', w') h in
      let (crd, chart, is_crd, has_chart, end, result) =
        conclude-up_to_date cr cr' gvk gvr url found u' w' h1 in
      let (v, installed, e2) = observe_resource-agrees cr gvk gvr schema crd u w' (ground arith) in
      let (_, s, has_version, e3) = observe_version-agrees cr gvk gvr schema crd crd v w' e2 in
      let (generated, made, same_status, us, c, listed, same_digest) =
        observe_deployed-true cr gvk gvr schema crd s w' e3 in
      record {
        gvk = gvk;
        gvr = gvr;
        url = url;
        schema = schema;
        chart = chart;
        crd = crd;
        generated = generated;
        compositions = us;
        t = t;
        u = u;
        v = v;
        s = s;
        c = c;
        has_chart = chart_of-some x cr chart has_chart;
        chart_read = read;
        resolved = resolve-ResolvedTo x cr gvk schema answer gvr t u e q;
        installed = installed;
        has_version = has_version;
        made = made;
        same_status = same_status;
        listed = listed;
        same_digest = same_digest;
        result = result;
      }

  -- Where Observe says that a definition exists and is up to date, it has read the kind and the schema of
  -- the definition's chart, and has found the resource of that kind: from the pluralizer or, where that
  -- does not find the kind and the definition is not being deleted, from the CRD that the schema makes.
  -- The CRD of the resource is on the cluster and has the resource's version, the schema of its status has
  -- the same digest as the one of the CRD that is generated from this kind and schema, and the digest in
  -- the definition's status is both that of what the server answers to a dry run of the deployment and
  -- that of what is deployed. Each step begins in the world that the one before it has left. The definition
  -- is the given one with its status refreshed from the CRD on the cluster and the condition Available.
  pub observe-up_to_date :
      (cr cr' : CompositionDefinition) (w w' : W)
      → observe x (cr, w) ≡ (ok up_to_date, (cr', w'))
      → UpToDate cr cr' w w'
  unfolding observe
  observe-up_to_date cr cr' w w' h =
      let ((gvk, url, schema), w1, e1, h1) = beside-ok _ _ cr w up_to_date (cr', w') h in
      let (answer, w2, e2, h2) = beside-ok _ _ cr w1 up_to_date (cr', w') h1 in
      let (r, e3, h3) = lift-ok _ _ (cr, w2) up_to_date (cr', w') h2 in
      observe_resolved-up_to_date cr cr' gvk url schema r w w1 w2 w' answer
        (read_chart-ReadByObserve x cr gvk url schema w w1 e1) (ground arith) e3 h3
