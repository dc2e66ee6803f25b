-- ===== src/Controller/Apply/Installed.antt =====
-- What a Create that succeeds has done.
use mathlib.Core.Path.{subst}
use core_provider.Base.{ℕ, String, List, false, ◌≡◌, sym, ap, arith}
use core_provider.Base.Result.{Error, wrap, Result, ok}
use core_provider.Base.Exec.{on_error, on_error-ok, >>=-ok, lift-ok, beside-ok}
use core_provider.Schema.{GroupVersionKind, Object}
use core_provider.Types.{CompositionDefinition}
use core_provider.Crd.{Crd}
use core_provider.Crd.Cluster.{Applied, apply_or_update_crd}
use core_provider.Crd.Generated.{generate_crd}
use core_provider.Deploy.Install.{deploy}
use core_provider.Controller.{External, change_definition, with_digest, deploy_options, apply_opts}
use core_provider.Controller.Apply.{apply_crd, apply_definition, create_chart, create_world, create}
use core_provider.Chart.{Package, chart_info_from_spec, chart_group_version_kind, chart_json_schema}

module _ {W A L : Type 0} (x : External W A L) where
  -- The CRD of the kind is made from the schema of the chart and applied, the certificates are managed
  -- for the resource of that CRD, and its controller is deployed, in this order; `digest` is the digest of
  -- the deployment, `a` the world before the first step and `w'` the one after the last.
  pub record Installed (cr : CompositionDefinition) (gvk : GroupVersionKind) (schema : String)
      (applied : Applied x.crds) (digest : List ℕ) (a w' : W) : Type 0 where
    pub crd : Object Crd
    pub b : W
    pub c : W
    pub generated : generate_crd x.crdgen schema gvk ≡ ok crd
    pub on_server : apply_or_update_crd x.crds (apply_opts x a) crd a ≡ (ok applied, b)
    pub certified : x.certificates.manage_certificates applied.0 b ≡ (ok tt, c)
    pub deployed :
        deploy x.deploys (deploy_options x cr applied.0 cr.chart schema false) c ≡ (ok digest, w')

  apply_crd-ok :
      (gvk : GroupVersionKind) (schema : String) (applied : Applied x.crds) (w b : W)
      → apply_crd x gvk schema w ≡ (ok applied, b)
      → (crd : Object Crd) × (generate_crd x.crdgen schema gvk ≡ ok crd)
        × (apply_or_update_crd x.crds (apply_opts x w) crd w ≡ (ok applied, b))
  unfolding apply_crd
  apply_crd-ok gvk schema applied w b h =
      let (crd, a, e1, h1) = >>=-ok _ _ w applied b h in
      let made = on_error-ok _ _ w a crd e1 in
      let sent =
        on_error-ok _ (λ v. apply_or_update_crd x.crds (apply_opts x v) crd v) a b applied h1 in
      let same : w ≡ a = ap (λ o. o.1) made in
      (
        crd,
        ap (λ o. o.0) made,
        subst (λ v. apply_or_update_crd x.crds (apply_opts x v) crd v ≡ (ok applied, b)) (sym same)
            sent,
      )

  pub apply_definition-Installed :
      (message : String) (f : Error → Error) (cr : CompositionDefinition) (gvk : GroupVersionKind)
      (schema : String) (applied : Applied x.crds) (digest : List ℕ) (w w' : W)
      → apply_definition x message f cr gvk schema w ≡ (ok (applied, digest), w')
      → Installed cr gvk schema applied digest w w'
  unfolding apply_definition
  apply_definition-Installed message f cr gvk schema applied digest w w' h =
      let (applied1, b, e1, h1) = >>=-ok _ _ w (applied, digest) w' h in
      let (_, c, e2, h2) = >>=-ok _ _ b (applied, digest) w' h1 in
      let (digest1, d, e3, h3) = >>=-ok _ _ c (applied, digest) w' h2 in
      subst (λ o. Installed cr gvk schema o.0.0 o.0.1 w o.1) (outcome applied1 digest1 d h3)
        (made applied1 digest1 b c d e1 e2 e3)
    where
      outcome :
          (applied1 : Applied x.crds) (digest1 : List ℕ) (d : W)
          → ◌≡◌ {A = Result (Applied x.crds × List ℕ) × W}
              (ok (applied1, digest1), d)
              (ok (applied, digest), w')
          → ◌≡◌ {A = (Applied x.crds × List ℕ) × W} ((applied1, digest1), d) ((applied, digest), w')
      outcome applied1 digest1 d q = ground arith

      made :
          (applied1 : Applied x.crds) (digest1 : List ℕ) (b c d : W)
          → apply_crd x gvk schema w ≡ (ok applied1, b)
          → on_error (wrap message) (x.certificates.manage_certificates applied1.0) b ≡ (ok tt, c)
          → on_error f (deploy x.deploys (deploy_options x cr applied1.0 cr.chart schema false)) c
            ≡ (ok digest1, d)
          → Installed cr gvk schema applied1 digest1 w d
      made applied1 digest1 b c d e1 e2 e3 =
          let (crd, generated, sent) = apply_crd-ok gvk schema applied1 w b e1 in
          record {
            crd = crd;
            b = b;
            c = c;
            generated = generated;
            on_server = sent;
            certified = on_error-ok _ _ b c tt e2;
            deployed = on_error-ok _ _ c d digest1 e3;
          }

  -- What Create reads of the chart: its kind and its schema.
  pub record ReadByCreate (cr : CompositionDefinition) (gvk : GroupVersionKind) (schema : String)
      (w w' : W) : Type 0 where
    pub pkg : Package A
    pub fetched : chart_info_from_spec x.charts cr.chart w ≡ (ok pkg, w')
    pub kind : chart_group_version_kind x.charts pkg ≡ ok gvk
    pub json_schema : chart_json_schema x.charts pkg ≡ ok schema

  create_chart-ReadByCreate :
      (cr : CompositionDefinition) (gvk : GroupVersionKind) (schema : String) (w w' : W)
      → create_chart x cr w ≡ (ok (gvk, schema), w')
      → ReadByCreate cr gvk schema w w'
  unfolding create_chart
  create_chart-ReadByCreate cr gvk schema w w' h =
      let (pkg, a, e1, h1) = >>=-ok _ _ w (gvk, schema) w' h in
      let (gvk1, e2, h2) = lift-ok _ _ a (gvk, schema) w' h1 in
      let (schema1, b, e3, h3) = >>=-ok _ _ a (gvk, schema) w' h2 in
      let made = on_error-ok _ _ a b schema1 e3 in
      assembled pkg a b gvk1 schema1 e1 e2 (ap (λ o. o.0) made) (ap (λ o. o.1) made) h3
    where
      assembled :
          (pkg : Package A) (a b : W) (gvk1 : GroupVersionKind) (schema1 : String)
          → chart_info_from_spec x.charts cr.chart w ≡ (ok pkg, a)
          → chart_group_version_kind x.charts pkg ≡ ok gvk1
          → chart_json_schema x.charts pkg ≡ ok schema1
          → a ≡ b
          → ◌≡◌ {A = Result (GroupVersionKind × String) × W}
              (ok (gvk1, schema1), b)
              (ok (gvk, schema), w')
          → ReadByCreate cr gvk schema w w'
      assembled pkg a b gvk1 schema1 fetched kind made same q = record {
        pkg = pkg;
        fetched = ground arith;
        kind = ground arith;
        json_schema = ground arith;
      }

  -- After a Create that succeeds, the kind and the schema of the definition's chart have been read, the
  -- CRD has been applied, the certificates have been managed and the controller has been deployed, each
  -- step beginning in the world that the one before it has left, and the definition's status holds the
  -- digest of that deployment; nothing else of the definition has changed.
  pub create-ok :
      (cr cr' : CompositionDefinition) (w w' : W)
      → create x (cr, w) ≡ (ok tt, (cr', w'))
      → (gvk : GroupVersionKind) × (schema : String) × (applied : Applied x.crds) × (digest : List
          ℕ)
        × (v : W) × ReadByCreate cr gvk schema w v
        × Installed cr gvk schema applied digest v w'
        × (cr' ≡ with_digest digest cr)
  unfolding create create_world change_definition
  create-ok cr cr' w w' h =
      let ((applied, digest), u, e, h1) = beside-ok _ _ cr w tt (cr', w') h in
      let ((gvk, schema), v, e1, h2) = >>=-ok _ _ w (applied, digest) u e in
      let installed = apply_definition-Installed _ _ cr gvk schema applied digest v u h2 in
      (
        gvk,
        schema,
        applied,
        digest,
        v,
        create_chart-ReadByCreate cr gvk schema w v e1,
        subst (Installed cr gvk schema applied digest v) (ap (λ o. o.1.1) h1) installed,
        sym (ap (λ o. o.1.0) h1),
      )
