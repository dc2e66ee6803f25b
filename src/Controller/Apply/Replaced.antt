-- ===== src/Controller/Apply/Replaced.antt =====
-- What an Update that succeeds has done.
use mathlib.Core.Path.{subst}
use core_provider.Base.{
  some, eq_iff, ℕ, String, List, [], ◌∷◌, true, false, ◌≡◌, ◌⊎◌, inl, inr, sym, ap, arith, ◌&&◌,
  str_eq, Bool-cases,
}
use core_provider.Base.Result.{wrap, Result, ok}
use core_provider.Composition.{update_compositions_version}
use core_provider.Base.Exec.{Exec, on_error-ok, >>=-ok, lift-ok, beside-ok, if-outcome, ◌>>=◌, ◌>>◌}
use core_provider.Schema.{GroupVersionKind}
use core_provider.Types.{VersionDetail, ChartInfo, CompositionDefinition}
use core_provider.Crd.Cluster.{Applied}
use core_provider.Status.{refresh_composition_definition_status}
use core_provider.Deploy.Uninstall.{undeploy}
use core_provider.Controller.{External, change_definition, with_digest, chart_of, deploy_options}
use core_provider.Controller.Apply.{
  same_kind, update_world, old_gvr, undeploy_old, move_compositions, update_after, update,
}
use core_provider.Controller.Apply.Installed.{Installed, apply_definition-Installed}
use core_provider.Controller.Apply.Inputs.{ReadByUpdate, update_chart-ReadByUpdate}
use core_provider.Controller.Observe.Inputs.{chart_of-some}

same_kind-eq : (a b : GroupVersionKind) → same_kind a b ≡ true → a ≡ b
unfolding same_kind
same_kind-eq a b h =
    ground (arith, eq_iff a.group b.group, eq_iff a.version b.version, eq_iff a.kind b.kind)

same_kind-differs : (a b : GroupVersionKind) → same_kind a b ≡ false → ¬ (a ≡ b)
unfolding same_kind
same_kind-differs a b h e =
    ground (arith, eq_iff a.group b.group, eq_iff a.version b.version, eq_iff a.kind b.kind)

module _ {W A L : Type 0} (x : External W A L) where
  -- The version entries of a list, one after the other: those of the old version are undeployed, the CRD
  -- being skipped.
  pub data OldUndeployed (cr : CompositionDefinition) (old : GroupVersionKind)
      : List VersionDetail → W → W → Type 0 where
    none_left : {w : W} → OldUndeployed cr old [] w w
    other_version :
        {vi : VersionDetail} {vis : List VersionDetail} {w w' : W}
        → (str_eq old.kind cr.status.managed.kind && str_eq old.version vi.version) ≡ false
        → OldUndeployed cr old vis w w'
        → OldUndeployed cr old (vi ∷ vis) w w'
    old_version :
        {vi : VersionDetail} {vis : List VersionDetail} {w v w' : W}
        → (str_eq old.kind cr.status.managed.kind && str_eq old.version vi.version) ≡ true
        → undeploy x.deploys x.crds
            (record {
              options =
                  deploy_options x cr
                    (record {
                      group = old.group;
                      version = old.version;
                      resource = cr.status.resource;
                    })
                    vi.chart
                    ""
                    false;
              skip_crd = true;
            })
            w
          ≡ (ok tt, v)
        → OldUndeployed cr old vis v w'
        → OldUndeployed cr old (vi ∷ vis) w w'

  undeploy_old-OldUndeployed :
      (cr : CompositionDefinition) (old : GroupVersionKind) (vis : List VersionDetail) (w w' : W)
      → undeploy_old x cr old vis w ≡ (ok tt, w')
      → OldUndeployed cr old vis w w'
  unfolding undeploy_old old_gvr
  undeploy_old-OldUndeployed cr old [] w w' h =
      subst (OldUndeployed cr old [] w) (ap (λ o. o.1) h) none_left
  undeploy_old-OldUndeployed cr old (vi ∷ vis) w w' h =
      let (_, v, e, h1) = >>=-ok _ _ w tt w' h in
      let rest = undeploy_old-OldUndeployed cr old vis v w' h1 in
      elim (if-outcome (str_eq old.kind cr.status.managed.kind && str_eq old.version vi.version) _ _
        w (ok tt, v) e) [
          | inl (is_old, run) ↦ old_version is_old (on_error-ok _ _ w v tt run) rest
          | inr (other, same) ↦
              other_version other
                (subst (λ u. OldUndeployed cr old vis u w') (sym (ap (λ o. o.1) same)) rest)
        ]

  -- The compositions between the worlds `v` and `w'`: if the status names the kind of the chart at another
  -- version, those of the old resource move to the new version; if not, nothing happens.
  pub data Moved (cr : CompositionDefinition) (old gvk : GroupVersionKind) (v w' : W) : Type 0 where
    moves :
        str_eq old.version gvk.version ≡ false
        → str_eq cr.status.kind gvk.kind ≡ true
        → str_eq old.group gvk.group ≡ true
        → update_compositions_version x.compositions
            (record { group = old.group; version = old.version; resource = cr.status.resource })
            gvk.version
            v
          ≡ (ok tt, w')
        → Moved cr old gvk v w'
    same_version : str_eq old.version gvk.version ≡ true → v ≡ w' → Moved cr old gvk v w'
    other_kind : str_eq cr.status.kind gvk.kind ≡ false → v ≡ w' → Moved cr old gvk v w'
    other_group : str_eq old.group gvk.group ≡ false → v ≡ w' → Moved cr old gvk v w'

  move_compositions-Moved :
      (cr : CompositionDefinition) (old gvk : GroupVersionKind) (v w' : W)
      → move_compositions x cr old gvk v ≡ (ok tt, w')
      → Moved cr old gvk v w'
  unfolding move_compositions old_gvr
  move_compositions-Moved cr old gvk v w' h = elim (Bool-cases (str_eq old.version gvk.version)) [
    | inl same ↦ same_version same (ground arith)
    | inr version ↦ elim (Bool-cases (str_eq cr.status.kind gvk.kind)) [
      | inr other ↦ other_kind other (ground arith)
      | inl kind ↦ elim (Bool-cases (str_eq old.group gvk.group)) [
        | inr other ↦ other_group other (ground arith)
        | inl group ↦ moves version kind group (
            on_error-ok (wrap "error updating compositions version: %w")
              (update_compositions_version x.compositions (old_gvr x cr old) gvk.version) v w' tt
              (ground arith))
      ]
    ]
  ]

  -- What follows the deployment, between the worlds `u` and `w'`: if the status names another kind, its
  -- version entries are gone through; then the compositions move or stay.
  pub record Replaced (cr : CompositionDefinition) (gvk : GroupVersionKind) (u w' : W)
      : Type 0 where
    pub v : W
    pub undeployed :
        ((x.parse_kind cr.status.api_version cr.status.kind ≡ gvk) × (u ≡ v))
        ⊎ ((¬ (x.parse_kind cr.status.api_version cr.status.kind ≡ gvk))
            × OldUndeployed cr
                (x.parse_kind cr.status.api_version cr.status.kind)
                cr.status.managed.version_info
                u
                v)
    pub moved : Moved cr (x.parse_kind cr.status.api_version cr.status.kind) gvk v w'

  update_after-Replaced :
      (gvk : GroupVersionKind) (url : String) (applied : Applied x.crds)
      (cr cr' : CompositionDefinition) (u w' : W)
      → update_after x gvk url applied (cr, u) ≡ (ok tt, (cr', w'))
      → (chart : ChartInfo) × (chart_of cr ≡ ok chart)
        × Replaced cr gvk u w'
        × (cr'
            ≡ refresh_composition_definition_status x.to_api_version chart cr applied.1.body
                applied.0 gvk url)
  unfolding update_after change_definition
  update_after-Replaced gvk url (gvr, crd) cr cr' u w' h =
      let old = x.parse_kind cr.status.api_version cr.status.kind in
      let (_, v, e, h1) = beside-ok _ _ cr u tt (cr', w') h in
      let (_, t, e2, h2) = beside-ok _ _ cr v tt (cr', w') h1 in
      let (chart, is_chart, h3) = lift-ok _ _ (cr, t) tt (cr', w') h2 in
      (
        chart,
        is_chart,
        record {
          v = v;
          undeployed = elim (if-outcome (same_kind old gvk) _ _ u (ok tt, v) e) [
            | inl (same, run) ↦ inl (same_kind-eq old gvk same, ap (λ o. o.1) run)
            | inr (other, run) ↦ inr (
              same_kind-differs old gvk other,
              undeploy_old-OldUndeployed cr old cr.status.managed.version_info u v run,
            )
          ];
          moved =
              subst (Moved cr old gvk v) (ap (λ o. o.1.1) h3)
                (move_compositions-Moved cr old gvk v t e2);
        },
        sym (ap (λ o. o.1.0) h3),
      )

  change_definition-then :
      (f : CompositionDefinition → CompositionDefinition)
      (next : Exec (CompositionDefinition × W) (Unit {0})) (cr : CompositionDefinition) (u : W)
      (end : CompositionDefinition × W)
      → (change_definition f >> next) (cr, u) ≡ (ok tt, end)
      → next (f cr, u) ≡ (ok tt, end)
  unfolding change_definition ◌>>=◌
  change_definition-then f next cr u end h = h

  update_world-Installed :
      (cr : CompositionDefinition) (gvk : GroupVersionKind) (url : String)
      (applied : Applied x.crds) (digest : List ℕ) (w u : W)
      → update_world x cr w ≡ (ok (gvk, url, applied, digest), u)
      → (schema : String) × (v : W) × ReadByUpdate x cr gvk schema url w v
        × Installed x cr gvk schema applied digest v u
  unfolding update_world
  update_world-Installed cr gvk url applied digest w u h =
      let ((gvk1, schema, url1), v, e1, h1) = >>=-ok _ _ w (gvk, url, applied, digest) u h in
      let ((applied1, digest1), t, e2, h2) = >>=-ok _ _ v (gvk, url, applied, digest) u h1 in
      let end = outcome gvk1 url1 applied1 digest1 t h2 in
      (
        schema,
        v,
        subst (λ o. ReadByUpdate x cr o.0.0 schema o.0.1.0 w v) end
            (update_chart-ReadByUpdate x cr gvk1 schema url1 w v e1),
        subst (λ o. Installed x cr o.0.0 schema o.0.1.1.0 o.0.1.1.1 v o.1) end
            (apply_definition-Installed x _ _ cr gvk1 schema applied1 digest1 v t e2),
      )
    where
      outcome :
          (gvk1 : GroupVersionKind) (url1 : String) (applied1 : Applied x.crds) (digest1 : List ℕ)
          (t : W)
          → ◌≡◌ {A = Result (GroupVersionKind × String × Applied x.crds × List ℕ) × W}
              (ok (gvk1, url1, applied1, digest1), t)
              (ok (gvk, url, applied, digest), u)
          → ◌≡◌ {A = (GroupVersionKind × (String × (Applied x.crds × List ℕ))) × W}
              ((gvk1, (url1, (applied1, digest1))), t)
              ((gvk, (url, (applied, digest))), u)
      outcome gvk1 url1 applied1 digest1 t q = ground arith

  -- After an Update that succeeds, the kind, the schema and the URL of the definition's chart have been
  -- read, the CRD has been applied, the certificates have been managed and the controller has been
  -- deployed. Then, if the kind that the status names is not that of the chart, the version entries are gone
  -- through: where the old kind is the managed one, the deployment of each entry with the old version is
  -- removed without the CRD. Then, exactly if the status names the group and the kind of the chart at
  -- another version, UpdateCompositionsVersion has succeeded from the old resource to the chart's version.
  -- Each step begins in the world that the one before it has left. The definition is the given one with the
  -- digest of the deployment and its status refreshed from its chart and the CRD.
  pub update-ok :
      (cr cr' : CompositionDefinition) (w w' : W)
      → update x (cr, w) ≡ (ok tt, (cr', w'))
      → (gvk : GroupVersionKind) × (schema url : String) × (applied : Applied x.crds)
        × (digest : List ℕ) × (chart : ChartInfo) × (v u : W) × ReadByUpdate x cr gvk schema url w v
        × Installed x cr gvk schema applied digest v u
        × Replaced (with_digest digest cr) gvk u w'
        × (cr.chart ≡ some chart)
        × (cr'
            ≡ refresh_composition_definition_status x.to_api_version chart
                (with_digest digest cr)
                applied.1.body
                applied.0
                gvk
                url)
  unfolding update
  update-ok cr cr' w w' h =
      let ((gvk, url, applied, digest), u, e, h1) = beside-ok _ _ cr w tt (cr', w') h in
      let (schema, v, read, installed) = update_world-Installed cr gvk url applied digest w u e in
      let (chart, has_chart, replaced, result) =
        update_after-Replaced gvk url applied (with_digest digest cr) cr' u w'
          (change_definition-then (with_digest digest) _ cr u (cr', w') h1) in
      (
        gvk,
        schema,
        url,
        applied,
        digest,
        chart,
        v,
        u,
        read,
        installed,
        replaced,
        chart_of-some x (with_digest digest cr) chart has_chart,
        result,
      )
