-- ===== src/Controller/Observe/Reads.antt =====
-- Observe only reads.
use core_provider.Base.{
  ℕ, String, Option-cases, inl, inr, Option, none, some, true, false, ◌≡◌, refl, not, codes_eq,
}
use core_provider.Base.Exec.{Exec, pure, beside}
use core_provider.Base.Exec.Keeps.{
  Keeps, Keeps-pure, Keeps-lift, Keeps-if, Keeps-bind, Keeps-on_error, Keeps-attempt, keeps_rules,
}
use core_provider.Retry.Attempts.{retry_do-Keeps}
use core_provider.Schema.{GroupVersionKind, GroupVersionResource, NamespacedName, Object}
use core_provider.Types.{SecretKeySelector, ChartInfo, CompositionDefinition}
use core_provider.Crd.{Crd}
use core_provider.Crd.Cluster.Reads.{get-Keeps, lookup-Keeps}
use core_provider.Composition.{get_compositions}
use core_provider.Chart.Retries.{chart_config}
use core_provider.Chart.{
  GetterOptions, getter_options, get_secret, chart_bytes, chart_bytes_with_retry,
  chart_info_from_spec, for_spec,
}
use core_provider.Deploy.Platform.{DeployOptions}
use core_provider.Deploy.Effects.{ReadsKeep, DryRunsKeep}
use core_provider.Deploy.DryRun.{lookup-keeps, deploy-dry_run}
use core_provider.Deploy.Install.{deploy}
use core_provider.Deploy.Find
use core_provider.Controller.{External, change_definition, deploy_options}
use core_provider.Controller.Observe.{
  Resolved, gone, resource, compare_digests, observe_deployed, Found, no_crd, no_version, differs,
  agrees, observe_version, observe_resource, conclude, observe_resolved, read_chart, observe,
}

module _ {W A L : Type 0} (x : External W A L) (P : W → Type 0) where
  -- What Observe does to the world besides dry runs: reading from the API server, downloading charts,
  -- waiting, and registering the types of CRDs.
  pub record ObserveKeeps : Type 0 where
    pub deployed : ReadsKeep x.deploys P
    pub dry_runs : DryRunsKeep x.deploys P
    pub registers : Keeps P x.crds.register
    pub crds : (gvk : GroupVersionKind) (nn : NamespacedName) → Keeps P (x.crds.client.get gvk nn)
    pub secrets : (nn : NamespacedName) → Keeps P (x.charts.secret nn)
    pub downloads : (url : String) (opts : GetterOptions) → Keeps P (x.charts.download url opts)
    pub waits : (d : ℕ) → Keeps P (x.charts.wait d)
    pub plurals : (gvk : GroupVersionKind) → Keeps P (x.gvk_to_gvr gvk)
    pub lists : (gvr : GroupVersionResource) (s : String) → Keeps P (x.compositions.list gvr s)

  -- `P` of the world beside the definition
  abbrev Beside : CompositionDefinition × W → Type 0
  Beside s = P s.1

  beside-Keeps : {B : Type 0} (m : Exec W B) → Keeps P m → Keeps Beside (beside m)
  unfolding beside
  beside-Keeps m k = record { holds = λ s h. k.holds s.1 h }

  change_definition-Keeps :
      (f : CompositionDefinition → CompositionDefinition) → Keeps Beside (change_definition f)
  unfolding change_definition
  change_definition-Keeps f = record { holds = λ s h. h }

  module _ (k : ObserveKeeps) where
    get_secret-Keeps : (s : SecretKeySelector) → Keeps P (get_secret x.charts s)
    unfolding get_secret
    get_secret-Keeps s = search (keeps_rules, k.secrets) depth 8

    getter_options-Keeps : (c : ChartInfo) → Keeps P (getter_options x.charts c)
    unfolding getter_options
    getter_options-Keeps c = elim (Option-cases c.credentials) [
      | inl none_given ↦ rw none_given search (keeps_rules) depth 8
      | inr (a, given) ↦ rw given search (keeps_rules, get_secret-Keeps) depth 8
    ]

    chart_bytes-Keeps : (url : String) (o : GetterOptions) → Keeps P (chart_bytes x.charts url o)
    unfolding chart_bytes
    chart_bytes-Keeps url o = search (keeps_rules, k.downloads) depth 8

    chart_bytes_with_retry-Keeps :
        (url : String) (o : GetterOptions) → Keeps P (chart_bytes_with_retry x.charts url o)
    unfolding chart_bytes_with_retry chart_config
    chart_bytes_with_retry-Keeps url o = Keeps-on_error _ _ (
        retry_do-Keeps (chart_config x.charts.api x.charts.wait) _ P (chart_bytes-Keeps url o)
          k.waits (λ n d e s h. h))

    chart_info_from_spec-Keeps : (c : Option ChartInfo) → Keeps P (chart_info_from_spec x.charts c)
    unfolding chart_info_from_spec
    chart_info_from_spec-Keeps none = search keeps_rules depth 4
    chart_info_from_spec-Keeps (some c) =
        search (keeps_rules, getter_options-Keeps, chart_bytes_with_retry-Keeps) depth 8

    for_spec-Keeps : (c : Option ChartInfo) → Keeps P (for_spec x.charts c)
    unfolding for_spec
    for_spec-Keeps none = search keeps_rules depth 4
    for_spec-Keeps (some c) = search (keeps_rules, getter_options-Keeps, k.downloads) depth 8

    read_chart-Keeps : (cr : CompositionDefinition) → Keeps P (read_chart x cr)
    unfolding read_chart
    read_chart-Keeps cr = search (keeps_rules, chart_info_from_spec-Keeps, for_spec-Keeps) depth 14

    dry_options :
        (cr : CompositionDefinition) (gvr : GroupVersionResource) (schema : String)
        → (deploy_options x cr gvr cr.chart schema true).dry_run_server ≡ true
    unfolding deploy_options
    dry_options cr gvr schema = refl

    deployed-Keeps :
        (cr : CompositionDefinition) (gvr : GroupVersionResource) (schema : String)
        → Keeps P (deploy x.deploys (deploy_options x cr gvr cr.chart schema true))
    deployed-Keeps cr gvr schema = record {
      holds =
          deploy-dry_run x.deploys P k.deployed (deploy_options x cr gvr cr.chart schema true)
            k.dry_runs (dry_options cr gvr schema);
    }

    looked_up-Keeps : (opts : DeployOptions) → Keeps P (Find.lookup x.deploys opts)
    looked_up-Keeps opts = record { holds = lookup-keeps x.deploys P k.deployed opts }

    compare_digests-Keeps :
        (cr : CompositionDefinition) (gvr : GroupVersionResource) (schema : String)
        → Keeps P (compare_digests x cr gvr schema)
    unfolding compare_digests
    compare_digests-Keeps cr gvr schema =
        Keeps-bind _ _ (Keeps-on_error _ _ (deployed-Keeps cr gvr schema)) (λ rendered.
          Keeps-if (not (codes_eq cr.status.digest rendered)) _ _ (λ h. Keeps-pure false)
            (λ h. Keeps-bind _ _ (Keeps-on_error _ _ (looked_up-Keeps _)) (λ d. Keeps-pure _)))

    get_compositions-Keeps :
        (gvr : GroupVersionResource) → Keeps P (get_compositions x.compositions gvr)
    unfolding get_compositions
    get_compositions-Keeps gvr = search (keeps_rules, k.lists) depth 14

    observe_deployed-Keeps :
        (cr : CompositionDefinition) (gvk : GroupVersionKind) (gvr : GroupVersionResource)
        (schema : String) (crd : Object Crd)
        → Keeps P (observe_deployed x cr gvk gvr schema crd)
    unfolding observe_deployed
    observe_deployed-Keeps cr gvk gvr schema crd =
        search (keeps_rules, compare_digests-Keeps, get_compositions-Keeps) depth 18

    observe_version-Keeps :
        (cr : CompositionDefinition) (gvk : GroupVersionKind) (gvr : GroupVersionResource)
        (schema : String) (crd : Object Crd)
        → Keeps P (observe_version x cr gvk gvr schema crd)
    unfolding observe_version
    observe_version-Keeps cr gvk gvr schema crd =
        search (keeps_rules, lookup-Keeps x.crds P k.registers k.crds, observe_deployed-Keeps) depth
          18

    found_crd-Keeps :
        (cr : CompositionDefinition) (gvk : GroupVersionKind) (gvr : GroupVersionResource)
        (schema : String) (found : Option (Object Crd))
        → Keeps {A = Found x} P
            (elim found [ none ↦ pure no_crd | some c ↦ observe_version x cr gvk gvr schema c ])
    found_crd-Keeps cr gvk gvr schema none = Keeps-pure no_crd
    found_crd-Keeps cr gvk gvr schema (some c) = observe_version-Keeps cr gvk gvr schema c

    observe_resource-Keeps :
        (cr : CompositionDefinition) (gvk : GroupVersionKind) (gvr : GroupVersionResource)
        (schema : String)
        → Keeps P (observe_resource x cr gvk gvr schema)
    unfolding observe_resource
    observe_resource-Keeps cr gvk gvr schema =
        search (keeps_rules, get-Keeps x.crds P k.registers k.crds, found_crd-Keeps) depth 14

    conclude-Keeps :
        (cr : CompositionDefinition) (gvk : GroupVersionKind) (gvr : GroupVersionResource)
        (url : String) (found : Found x)
        → Keeps Beside (conclude x cr gvk gvr url found)
    unfolding conclude
    conclude-Keeps cr gvk gvr url no_crd = search (keeps_rules, change_definition-Keeps) depth 14
    conclude-Keeps cr gvk gvr url no_version =
        search (keeps_rules, change_definition-Keeps) depth 14
    conclude-Keeps cr gvk gvr url differs = search keeps_rules depth 4
    conclude-Keeps cr gvk gvr url (agrees crd) =
        search (keeps_rules, change_definition-Keeps) depth 14

    observe_resolved-Keeps :
        (cr : CompositionDefinition) (gvk : GroupVersionKind) (url schema : String) (r : Resolved)
        → Keeps Beside (observe_resolved x cr gvk url schema r)
    unfolding observe_resolved
    observe_resolved-Keeps cr gvk url schema gone = search keeps_rules depth 4
    observe_resolved-Keeps cr gvk url schema (resource gvr) =
        search (keeps_rules, beside-Keeps, observe_resource-Keeps, conclude-Keeps) depth 14

    -- Observe changes nothing on the cluster, whatever it answers: it deploys in dry runs only. Every
    -- predicate `P` of the world that reading, waiting, downloading a chart, registering the types of
    -- CRDs and writes with the dry run option keep, and that holds before Observe, holds after it.
    pub observe-keeps : (s : CompositionDefinition × W) → P s.1 → P (observe x s).1.1
    unfolding observe
    observe-keeps (cr, w) h =
        (Keeps-bind _ _ (beside-Keeps _ (read_chart-Keeps cr)) (λ (gvk, url, schema).
            Keeps-bind _ _ (beside-Keeps _ (Keeps-attempt _ (k.plurals gvk))) (λ answer.
              Keeps-bind _ _ (Keeps-lift _) (observe_resolved-Keeps cr gvk url schema)))).holds
          (cr, w) h
