-- ===== src/Controller/Delete.antt =====
-- Delete: the compositions of the last definition of a version, its deployment and, with the last
-- definition of a kind, the CRD.
pub mod Counts
pub mod Order
use core_provider.Base.{
  ℕ, String, List, [], ◌∷◌, Option, none, some, Bool, true, false, not, leb, ltb, length, ◌==◌,
  if◌then◌else◌,
}
use core_provider.Base.Result.{Error, text, wrap, Result, ok, err}
use core_provider.Base.Exec.{Exec, pure, raise, lift, attempt, on_error, ◌>>=◌, ◌>>◌, beside}
use core_provider.Schema.{GroupVersionKind, GroupVersionResource, Object}
use core_provider.Types.{CompositionDefinition}
use core_provider.Kube.{UninstallOptions, uninstall_of}
use core_provider.Composition.{
  get_compositions, get_composition_definitions, get_composition_definitions_with_version,
}
use core_provider.Chart.{chart_info_from_spec, chart_group_version_kind}
use core_provider.Deploy.Uninstall.{undeploy}
use core_provider.Controller.{External, change_definition, with_condition, deploy_options}

module _ {W A L : Type 0} (x : External W A L) where
  -- schema.FromAPIVersionAndKind(cd.Status.ApiVersion, cd.Status.Kind)
  abbrev pub kind_of : CompositionDefinition → GroupVersionKind
  kind_of cd = x.parse_kind cd.status.api_version cd.status.kind

  unfoldable pub uninstall_each : List (Object L) → Exec W (Unit {0})
  uninstall_each [] = pure tt
  uninstall_each (u ∷ us) = do
    uninstall_of x.composition_client x.compositions.api x.compositions.wait
        (record {
          grace_period_seconds = none;
          preconditions = none;
          propagation_policy = none;
          dry_run = [];
        })
        u
    uninstall_each us

  abbrev pub waiting : Error
  waiting = text "error undeploying CompositionDefinition: waiting for composition deletion"

  -- the compositions of the version, where no other definition has it
  unfoldable pub delete_compositions : GroupVersionResource → Exec W (Unit {0})
  delete_compositions gvr = do
    ul ← on_error (wrap "error getting compositions: %w") (get_compositions x.compositions gvr)
    uninstall_each ul
    left ← on_error (wrap "error getting compositions: %w") (get_compositions x.compositions gvr)
    elim left [ [] ↦ pure tt | u ∷ us ↦ raise waiting ]

  unfoldable pub delete_versions : GroupVersionKind → GroupVersionResource → Exec W (Unit {0})
  delete_versions gvk gvr = do
    lst ←
        on_error (wrap "error getting CompositionDefinitions: %w")
          (get_composition_definitions_with_version x.list_definitions kind_of gvk)
    if length lst == 1 then delete_compositions gvr else pure tt

  -- Undeploy: it never returns ErrCompositionStillExist, so that the test for it is left out
  unfoldable pub delete_deployment :
      CompositionDefinition → GroupVersionResource → Bool → Exec W (Unit {0})
  delete_deployment cr gvr skip = on_error (wrap "error undeploying CompositionDefinition: %w") (
      undeploy x.deploys x.crds
        (record { options = deploy_options x cr gvr cr.chart "" false; skip_crd = skip }))

  -- the part where the CRD exists
  unfoldable pub delete_existing :
      CompositionDefinition → GroupVersionKind → GroupVersionResource → Exec W (Unit {0})
  delete_existing cr gvk gvr = do
    delete_versions gvk gvr
    lst ←
        on_error (wrap "error getting CompositionDefinitions: %w")
          (get_composition_definitions x.list_definitions kind_of gvk.group gvk.kind)
    delete_deployment cr gvr (ltb 1 (length lst))

  -- the branches on the error of GVKtoGVR
  unfoldable pub delete_resolved :
      CompositionDefinition → GroupVersionKind → Result GroupVersionResource → Exec W (Unit {0})
  delete_resolved cr gvk (ok gvr) = delete_existing cr gvk gvr
  delete_resolved cr gvk (err e) =
      if x.crds.api.is_not_found e
      then pure tt
      else raise (wrap "error converting GVK to GVR: %w - GVK: %s" e)

  unfoldable pub delete_world : CompositionDefinition → Exec W (Unit {0})
  delete_world cr = do
    pkg ← on_error (wrap "error getting chart info: %w") (chart_info_from_spec x.charts cr.chart)
    gvk ←
        on_error (wrap "error getting chart GVK: %w") (lift (chart_group_version_kind x.charts pkg))
    answer ← attempt (x.gvk_to_gvr gvk)
    delete_resolved cr gvk answer

  -- Delete(ctx, mg)
  unfoldable pub delete : Exec (CompositionDefinition × W) (Unit {0})
  delete (cr, w) =
      (do change_definition (with_condition "Deleting"); beside (delete_world cr)) (cr, w)
