-- ===== src/Controller/Observe.antt =====
-- Observe: whether the CRD and the deployment of a definition exist, and whether they are up to date.
pub mod Reads
pub mod Inputs
pub mod Agreement
use core_provider.Base.{
  ℕ, String, List, [], ◌∷◌, Option, none, some, Bool, true, false, not, codes_eq, if◌then◌else◌,
}
use core_provider.Base.Result.{Error, text, wrap, Result, ok, err}
use core_provider.Base.Exec.{Exec, pure, raise, lift, attempt, on_error, ◌>>=◌, ◌>>◌, beside}
use core_provider.Schema.{GroupVersionKind, GroupVersionResource, group_resource, Object}
use core_provider.Types.{CompositionDefinition}
use core_provider.Crd.{Crd}
use core_provider.Crd.Cluster
use core_provider.Crd.Generation.{status_equal}
use core_provider.Crd.Generated.{generate_crd, get_gvr_from_generated_crd}
use core_provider.Composition.{get_compositions}
use core_provider.Chart.{
  Package, chart_info_from_spec, for_spec, chart_group_version_kind, chart_json_schema,
}
use core_provider.Status.{refresh_composition_definition_status}
use core_provider.Deploy.Install.{deploy}
use core_provider.Deploy.Find
use core_provider.Controller.{
  External, Observation, change_definition, with_condition, chart_of, deploy_options,
}

abbrev pub absent : Observation
absent = record { resource_exists = false; resource_up_to_date = false }

abbrev pub outdated : Observation
outdated = record { resource_exists = true; resource_up_to_date = false }

abbrev pub up_to_date : Observation
up_to_date = record { resource_exists = true; resource_up_to_date = true }

-- what the pluralizer says of the kind: the resource, or that the definition is treated as gone
pub data Resolved : Type 0 where
  gone : Resolved
  resource : GroupVersionResource → Resolved

module _ {W A L : Type 0} (x : External W A L) where
  -- the branches on the error of GVKtoGVR
  unfoldable pub resolve :
      Bool → GroupVersionKind → String → Result GroupVersionResource → Result Resolved
  resolve deleted gvk schema (ok gvr) = ok (resource gvr)
  resolve deleted gvk schema (err e) =
      if deleted
      then ok gone
      else if x.crds.api.is_not_found e
      then elim (get_gvr_from_generated_crd x.crdgen schema gvk) [
        | ok gvr ↦ ok (resource gvr)
        | err e' ↦ err (wrap "error getting GVR from generated CRD for GVR fallback: %w" e')
      ]
      else err (wrap "error converting GVK to GVR: %w - GVK: %s" e)

  -- the digest of what a dry run of the deployment answers, and the digest of what is deployed
  unfoldable pub compare_digests :
      CompositionDefinition → GroupVersionResource → String → Exec W Bool
  compare_digests cr gvr schema = do
    let opts = deploy_options x cr gvr cr.chart schema true
    rendered ←
        on_error (wrap "error deploying dynamic controller in dry-run mode: %w")
          (deploy x.deploys opts)
    if not (codes_eq cr.status.digest rendered) then pure false else do
      deployed ←
          on_error (wrap "error looking up deployed resources digest: %w")
            (Find.lookup x.deploys opts)
      pure (codes_eq cr.status.digest deployed)

  -- the part after the version has been found in the CRD: whether everything is up to date
  unfoldable pub observe_deployed :
      CompositionDefinition
      → GroupVersionKind
      → GroupVersionResource
      → String
      → Object Crd
      → Exec W Bool
  observe_deployed cr gvk gvr schema crd = do
    generated ← on_error (wrap "error generating CRD: %w") (lift (generate_crd x.crdgen schema gvk))
    same ←
        on_error (wrap "error comparing CRD status: %w")
          (lift (status_equal x.crds.marshal crd.body generated.body))
    if not same then pure false else do
      on_error (wrap "error getting compositions: %w") (get_compositions x.compositions gvr)
      compare_digests cr gvr schema

  -- what is found for a resource, with the CRD where everything is up to date
  pub data Found : Type 0 where
    no_crd : Found
    no_version : Found
    differs : Found
    agrees : Object Crd → Found

  unfoldable pub observe_version :
      CompositionDefinition
      → GroupVersionKind
      → GroupVersionResource
      → String
      → Object Crd
      → Exec W Found
  observe_version cr gvk gvr schema crd = do
    exists ← on_error (wrap "error looking up existing CRD version: %w") (Cluster.lookup x.crds gvr)
    if not exists then pure no_version else do
      same ← observe_deployed cr gvk gvr schema crd
      pure (if same then agrees crd else differs)

  unfoldable pub observe_resource :
      CompositionDefinition → GroupVersionKind → GroupVersionResource → String → Exec W Found
  observe_resource cr gvk gvr schema = do
    crd ← on_error (wrap "error getting CRD: %w") (Cluster.get x.crds (group_resource gvr))
    elim crd [ none ↦ pure no_crd | some c ↦ observe_version cr gvk gvr schema c ]

  -- the observation, and what becomes of the definition
  unfoldable pub conclude :
      CompositionDefinition
      → GroupVersionKind
      → GroupVersionResource
      → String
      → Found
      → Exec (CompositionDefinition × W) Observation
  conclude cr gvk gvr url no_crd = do change_definition (with_condition "Unavailable"); pure absent
  conclude cr gvk gvr url no_version = do
    change_definition (with_condition "Unavailable")
    pure outdated
  conclude cr gvk gvr url differs = pure outdated
  conclude cr gvk gvr url (agrees crd) = do
    chart ← lift (chart_of cr)
    change_definition
        (λ c. refresh_composition_definition_status x.to_api_version chart c crd.body gvr gvk url)
    change_definition (with_condition "Available")
    pure up_to_date

  unfoldable pub observe_resolved :
      CompositionDefinition
      → GroupVersionKind
      → String
      → String
      → Resolved
      → Exec (CompositionDefinition × W) Observation
  observe_resolved cr gvk url schema gone = pure absent
  observe_resolved cr gvk url schema (resource gvr) = do
    found ← beside (observe_resource cr gvk gvr schema)
    conclude cr gvk gvr url found

  -- what is read of the chart: its kind, the URL of the package and the schema
  unfoldable pub read_chart : CompositionDefinition → Exec W (GroupVersionKind × String × String)
  read_chart cr = do
    info ← on_error (wrap "error getting chart info: %w") (chart_info_from_spec x.charts cr.chart)
    pkg ← for_spec x.charts cr.chart
    gvk ← lift (chart_group_version_kind x.charts pkg)
    schema ←
        on_error (wrap "error getting spec schema: %w") (lift (chart_json_schema x.charts info))
    pure (gvk, pkg.package_url, schema)

  -- Observe(ctx, mg)
  unfoldable pub observe : Exec (CompositionDefinition × W) Observation
  observe (cr, w) =
      (do
        (gvk, url, schema) ← beside (read_chart cr)
        answer ← beside (attempt (x.gvk_to_gvr gvk))
        resolved ← lift (resolve cr.deleted gvk schema answer)
        observe_resolved cr gvk url schema resolved)
        (cr, w)
