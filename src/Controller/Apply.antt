-- ===== src/Controller/Apply.antt =====
-- Create and Update: the CRD, the certificates and the deployment of a definition.
pub mod Installed
pub mod Inputs
pub mod Replaced
pub mod Certified
use core_provider.Base.{
  ℕ, String, List, [], ◌∷◌, Option, none, some, Bool, true, false, not, ◌&&◌, str_eq, if◌then◌else◌,
}
use core_provider.Base.Result.{Error, text, wrap, Result, ok, err}
use core_provider.Base.Exec.{Exec, pure, raise, lift, on_error, ◌>>=◌, ◌>>◌, beside}
use core_provider.Schema.{GroupVersionKind, GroupVersionResource, Object}
use core_provider.Types.{VersionDetail, CompositionDefinition}
use core_provider.Crd.{Crd}
use core_provider.Crd.Cluster.{Applied, apply_or_update_crd}
use core_provider.Crd.Generated.{generate_crd}
use core_provider.Composition.{update_compositions_version}
use core_provider.Chart.{
  Package, chart_info_from_spec, for_spec, chart_group_version_kind, chart_json_schema,
}
use core_provider.Status.{refresh_composition_definition_status}
use core_provider.Deploy.Platform.{UndeployOptions}
use core_provider.Deploy.Install.{deploy}
use core_provider.Deploy.Uninstall.{undeploy}
use core_provider.Controller.{
  External, change_definition, with_digest, chart_of, deploy_options, apply_opts,
}

-- oldGVK == gvk
unfoldable pub same_kind : GroupVersionKind → GroupVersionKind → Bool
same_kind a b = str_eq a.group b.group && str_eq a.version b.version && str_eq a.kind b.kind

module _ {W A L : Type 0} (x : External W A L) where
  -- The CRD is generated and applied. GenerateCRD never gives nil without an error, so that the test for
  -- it is left out.
  unfoldable pub apply_crd : GroupVersionKind → String → Exec W (Applied x.crds)
  apply_crd gvk schema = do
    crd ← on_error (wrap "error generating CRD: %w") (lift (generate_crd x.crdgen schema gvk))
    on_error (wrap "error applying or updating CRD: %w")
        (λ w. apply_or_update_crd x.crds (apply_opts x w) crd w)

  -- what Create and Update have in common: the answers are the GVR, the CRD as the call leaves it, and
  -- the digest of the deployment
  unfoldable pub apply_definition :
      String
      → (Error → Error)
      → CompositionDefinition
      → GroupVersionKind
      → String
      → Exec W (Applied x.crds × List ℕ)
  apply_definition certificates_message deploy_error cr gvk schema = do
    applied ← apply_crd gvk schema
    on_error (wrap certificates_message) (x.certificates.manage_certificates applied.0)
    digest ←
        on_error deploy_error
          (deploy x.deploys (deploy_options x cr applied.0 cr.chart schema false))
    pure (applied, digest)

  -- the kind and the schema of the chart
  unfoldable pub create_chart : CompositionDefinition → Exec W (GroupVersionKind × String)
  create_chart cr = do
    pkg ← chart_info_from_spec x.charts cr.chart
    gvk ← lift (chart_group_version_kind x.charts pkg)
    schema ← on_error (wrap "error getting JSON schema: %w") (lift (chart_json_schema x.charts pkg))
    pure (gvk, schema)

  unfoldable pub create_world : CompositionDefinition → Exec W (Applied x.crds × List ℕ)
  create_world cr = do
    (gvk, schema) ← create_chart cr
    apply_definition "error managing certificates after CRD apply: %w" (λ e. e) cr gvk schema

  -- Create(ctx, mg)
  unfoldable pub create : Exec (CompositionDefinition × W) (Unit {0})
  create (cr, w) =
      (do (applied, digest) ← beside (create_world cr); change_definition (with_digest digest))
        (cr, w)

  -- the kind, the schema and the URL of the chart
  unfoldable pub update_chart : CompositionDefinition → Exec W (GroupVersionKind × String × String)
  update_chart cr = do
    pkg ← on_error (wrap "error getting chart info: %w") (chart_info_from_spec x.charts cr.chart)
    pkg_fs ← for_spec x.charts cr.chart
    gvk ← lift (chart_group_version_kind x.charts pkg)
    schema ← on_error (wrap "error getting JSON schema: %w") (lift (chart_json_schema x.charts pkg))
    pure (gvk, schema, pkg_fs.package_url)

  unfoldable pub update_world :
      CompositionDefinition → Exec W (GroupVersionKind × String × Applied x.crds × List ℕ)
  update_world cr = do
    (gvk, schema, url) ← update_chart cr
    (applied, digest) ←
        apply_definition "error managing certificates after CRD update: %w"
          (wrap "error deploying dynamic controller: %w") cr gvk schema
    pure (gvk, url, applied, digest)

  -- oldGVK.GroupVersion().WithResource(cr.Status.Resource)
  unfoldable pub old_gvr : CompositionDefinition → GroupVersionKind → GroupVersionResource
  old_gvr cr old = record {
    group = old.group;
    version = old.version;
    resource = cr.status.resource;
  }

  -- The loop over the version entries: those of the old version are undeployed.
  unfoldable pub undeploy_old :
      CompositionDefinition → GroupVersionKind → List VersionDetail → Exec W (Unit {0})
  undeploy_old cr old [] = pure tt
  undeploy_old cr old (vi ∷ vis) = do
    if str_eq old.kind cr.status.managed.kind && str_eq old.version vi.version
        then on_error (wrap "error undeploying older version of dynamic controller: %w") (
            undeploy x.deploys x.crds (record {
              options = deploy_options x cr (old_gvr cr old) vi.chart "" false;
              skip_crd = true;
            }))
        else pure tt
    undeploy_old cr old vis

  -- the compositions of the old version move to the new one
  unfoldable pub move_compositions :
      CompositionDefinition → GroupVersionKind → GroupVersionKind → Exec W (Unit {0})
  move_compositions cr old gvk =
      if not (str_eq old.version gvk.version)
        && str_eq cr.status.kind gvk.kind
        && str_eq old.group gvk.group
      then on_error (wrap "error updating compositions version: %w")
          (update_compositions_version x.compositions (old_gvr cr old) gvk.version)
      else pure tt

  -- what follows the deployment: the definition has the new digest already
  unfoldable pub update_after :
      GroupVersionKind → String → Applied x.crds → Exec (CompositionDefinition × W) (Unit {0})
  update_after gvk url (gvr, crd) (cr, w) =
      let old = x.parse_kind cr.status.api_version cr.status.kind in
      (do
        beside (
            if same_kind old gvk
            then pure tt
            else undeploy_old cr old cr.status.managed.version_info)
        beside (move_compositions cr old gvk)
        chart ← lift (chart_of cr)
        change_definition (λ c.
            refresh_composition_definition_status x.to_api_version chart c crd.body gvr gvk url))
        (cr, w)

  -- Update(ctx, mg)
  unfoldable pub update : Exec (CompositionDefinition × W) (Unit {0})
  update (cr, w) =
      (do
        (gvk, url, applied, digest) ← beside (update_world cr)
        change_definition (with_digest digest)
        update_after gvk url applied)
        (cr, w)
