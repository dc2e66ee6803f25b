-- ===== src/Controller.antt =====
-- internal/controllers/compositiondefinitions/compositiondefinitions.go: the controller of
-- CompositionDefinitions. Its state is the definition that it is given, which its methods change, beside
-- the world.
pub mod Observe
pub mod Apply
pub mod Delete
pub mod Cleanup
use core_provider.Base.{ℕ, String, List, [], ◌∷◌, Option, none, some, Bool, true, false, str_eq}
use core_provider.Base.Result.{Error, text, panic, wrap, Result, ok, err}
use core_provider.Base.Exec.{Exec, pure, ◌>>=◌}
use core_provider.Schema.{GroupVersionKind, GroupVersionResource, Object}
use core_provider.Types.{ChartInfo, CompositionDefinition}
use core_provider.Kube.{Client}
use core_provider.Crd.Cluster.{CrdPlatform, ApplyOpts}
use core_provider.Crd.Generated.{Crdgen}
use core_provider.Composition.{Compositions}
use core_provider.Chart.{Charts}
use core_provider.Deploy.Platform.{Platform, DeployOptions}

-- CertManagerInterface: `ca_bundle` is what GetCABundle reads.
pub record CertManagerInterface (W : Type 0) : Type 0 where
  pub manage_certificates : GroupVersionResource → Exec W (Unit {0})
  pub ca_bundle : W → Option (List ℕ)
  pub service_name : String
  pub service_namespace : String

-- The struct `external`: the pluralizer, the certificate manager and the clients, of which `kube` and
-- `dynamic` are those of the parts that use them. `L` is the content of a composition. `temp_path` joins
-- a path to the directory for temporary files; `list_definitions` lists the CompositionDefinitions of
-- all namespaces; `parse_kind` is schema.FromAPIVersionAndKind; `to_api_version` is the first result of
-- ToAPIVersionAndKind; `update_definition` is kube.Update.
pub record External (W A L : Type 0) : Type 0 where
  pub charts : Charts W A
  pub crds : CrdPlatform W
  pub crdgen : Crdgen
  pub deploys : Platform W
  pub compositions : Compositions W (Object L)
  pub composition_client : Client W L
  pub gvk_to_gvr : GroupVersionKind → Exec W GroupVersionResource
  pub certificates : CertManagerInterface W
  pub list_definitions : Exec W (List CompositionDefinition)
  pub update_definition : CompositionDefinition → Exec W CompositionDefinition
  pub parse_kind : String → String → GroupVersionKind
  pub to_api_version : GroupVersionKind → String
  pub temp_path : String → String

-- ExternalObservation
pub record Observation : Type 0 where
  pub resource_exists : Bool
  pub resource_up_to_date : Bool

-- what changes the definition
unfoldable pub change_definition :
    {W : Type 0}
    → (CompositionDefinition → CompositionDefinition)
    → Exec (CompositionDefinition × W) (Unit {0})
change_definition f (cr, w) = (ok tt, (f cr, w))

-- cr.SetConditions(…), by the name of the condition
abbrev pub with_condition : String → CompositionDefinition → CompositionDefinition
with_condition c cr = record cr { status = record cr.status { condition = some c } }

abbrev pub with_digest : List ℕ → CompositionDefinition → CompositionDefinition
with_digest d cr = record cr { status = record cr.status { digest = d } }

-- what cr.Spec.Chart points to; the chart has been fetched before, which fails for a nil pointer
unfoldable pub chart_of : CompositionDefinition → Result ChartInfo
chart_of cr = elim cr.chart [ none ↦ err (panic "nil pointer dereference") | some c ↦ ok c ]

module _ {W A L : Type 0} (x : External W A L) where
  -- the options that Observe, Create and Update give to Deploy, and Update and Delete to Undeploy
  unfoldable pub deploy_options :
      CompositionDefinition
      → GroupVersionResource
      → Option ChartInfo
      → String
      → Bool
      → DeployOptions
  deploy_options cr gvr spec schema dry = record {
    gvr = gvr;
    namespace = cr.namespace;
    spec = spec;
    rbac_folder_path = x.temp_path "assets/cdc-rbac/";
    deployment_template_path = x.temp_path "assets/cdc-deployment/deployment.yaml";
    configmap_template_path = x.temp_path "assets/cdc-configmap/configmap.yaml";
    json_schema_template_path = x.temp_path "assets/json-schema-configmap/configmap.yaml";
    service_template_path = x.temp_path "assets/cdc-service/service.yaml";
    json_schema_bytes = schema;
    dry_run_server = dry;
  }

  -- the options that Create and Update give to ApplyOrUpdateCRD
  unfoldable pub apply_opts : W → ApplyOpts
  apply_opts w = record {
    ca_bundle = x.certificates.ca_bundle w;
    webhook_service_namespace = x.certificates.service_namespace;
    webhook_service_name = x.certificates.service_name;
  }
