-- ===== src/Examples/Fixtures.antt =====
-- A cluster as the list of its objects, a client of it, and texts in place of files.
use core_provider.Base.{
  ℕ, String, List, [], ◌∷◌, Option, none, some, Bool, true, false, ◌&&◌, str_eq, ◌==◌,
  if◌then◌else◌,
}
use core_provider.Base.Result.{Error, status, ok, err, ApiErrors}
use core_provider.Base.Exec.{Exec}
use core_provider.Schema.{GroupVersionKind, GroupVersionResource, NamespacedName, Object}
use core_provider.Types.{ChartInfo}
use core_provider.Kube.{Client}
use core_provider.Crd.Cluster.{CrdPlatform, ApplyOpts}
use core_provider.Objects.{Any, Files, value_of, string_value, other_value}
use core_provider.Deployment.{Body, empty_body}
use core_provider.Watcher.{event}
use core_provider.Deploy.Platform.{DeployOptions, UndeployOptions, Platform}

abbrev pub not_found : Error
not_found = status 404 "NotFound"

abbrev is_404 : Error → Bool
is_404 (status code reason) = code == 404
is_404 _ = false

abbrev pub api_errors : ApiErrors
api_errors = record {
  is_not_found = is_404;
  is_forbidden = λ e. false;
  is_unauthorized = λ e. false;
  is_invalid = λ e. false;
  is_bad_request = λ e. false;
}

abbrev is_dry : List String → Bool
is_dry [] = false
is_dry (x ∷ xs) = true

module _ {B : Type 0} where
  abbrev is_at : GroupVersionKind → NamespacedName → Object B → Bool
  is_at gvk nn o =
      str_eq o.gvk.kind gvk.kind && str_eq o.namespace nn.namespace && str_eq o.name nn.name

  abbrev pub object_at : GroupVersionKind → NamespacedName → List (Object B) → Option (Object B)
  object_at gvk nn [] = none
  object_at gvk nn (o ∷ os) = if is_at gvk nn o then some o else object_at gvk nn os

  abbrev pub without : GroupVersionKind → NamespacedName → List (Object B) → List (Object B)
  without gvk nn [] = []
  without gvk nn (o ∷ os) =
      let rest = without gvk nn os in if is_at gvk nn o then rest else o ∷ rest

abbrev pub a_client : {B : Type 0} → Client (List (Object B)) B
a_client = record {
  get = λ gvk nn w. (elim (object_at gvk nn w) [ none ↦ err not_found | some o ↦ ok o ], w);
  create = λ opts o w. (ok o, if is_dry opts.dry_run then w else o ∷ w);
  update = λ opts o w. (
    ok o,
    if is_dry opts.dry_run
        then w
        else o ∷ without o.gvk (record { namespace = o.namespace; name = o.name }) w,
  );
  delete = λ opts o w. (ok tt, without o.gvk (record { namespace = o.namespace; name = o.name }) w);
}

abbrev pub a_wait : {W : Type 0} → ℕ → Exec W (Unit {0})
a_wait d w = (ok tt, w)

abbrev pub an_object : String → Object Body
an_object name = record {
  gvk = record { group = ""; version = "v1"; kind = "ConfigMap" };
  namespace = "default";
  name = name;
  resource_version = "1";
  body = record empty_body { conditions = ("Available", "True") ∷ [] };
}

-- A template is rendered as the name that it is given.
abbrev named : Option Any → String
named none = ""
named (some (string_value n)) = n
named (some (other_value n)) = n

abbrev pub some_files : {W : Type 0} → Files W Body
some_files = record {
  read_file = λ path w. ok path;
  file_exists = λ path w. true;
  join_path = λ a b. b;
  render = λ template values. ok (named (value_of "name" values));
  decode = λ dat. ok (an_object dat);
}

abbrev pub a_platform : Platform (List (Object Body))
a_platform = record {
  client = a_client;
  files = some_files;
  api = api_errors;
  wait = a_wait;
  patch = λ o o' w. (ok o', w);
  now = λ w. "2025-01-01T00:00:00Z";
  watch_deployment = λ namespace name w. (ok (event "ADDED" (some (an_object name)) ∷ []), w);
  marshal = λ v. ok [];
}

abbrev pub a_chart : ChartInfo
a_chart = record {
  url = "oci://registry/chart";
  version = "1.0.0";
  repo = "";
  insecure_skip_verify_tls = false;
  credentials = none;
}

abbrev pub a_gvr : GroupVersionResource
a_gvr = record { group = "composition.krateo.io"; version = "v1-0-0"; resource = "fireworks" }

abbrev pub options : Bool → Option ChartInfo → DeployOptions
options dry spec = record {
  gvr = a_gvr;
  namespace = "default";
  spec = spec;
  rbac_folder_path = "rbac";
  deployment_template_path = "deployment.yaml";
  configmap_template_path = "configmap.yaml";
  json_schema_template_path = "schema.yaml";
  service_template_path = "service.yaml";
  json_schema_bytes = "{}";
  dry_run_server = dry;
}

abbrev pub undeploy_options : Option ChartInfo → UndeployOptions
undeploy_options spec = record { options = options false spec; skip_crd = false }

-- A cluster in which nothing is found, and one without CRDs beside other objects.
abbrev pub an_empty_client : {W B : Type 0} → Client W B
an_empty_client = record {
  get = λ gvk nn w. (err not_found, w);
  create = λ opts o w. (ok o, w);
  update = λ opts o w. (ok o, w);
  delete = λ opts o w. (ok tt, w);
}

abbrev pub a_crd_platform : {W : Type 0} → CrdPlatform W
a_crd_platform = record {
  client = an_empty_client;
  api = api_errors;
  wait = a_wait;
  register = λ w. (ok tt, w);
  resource_name = λ gr. gr.resource;
  watch_crds = λ namespace name w. (ok [], w);
  marshal = λ p. ok [];
}

abbrev pub webhook_opts : ApplyOpts
webhook_opts = record {
  ca_bundle = some (1 ∷ []);
  webhook_service_namespace = "krateo-system";
  webhook_service_name = "core-provider";
}

-- A platform on any world, on which nothing is found and every object is accepted.
abbrev pub an_open_platform : {W : Type 0} → Platform W
an_open_platform = record {
  client = an_empty_client;
  files = some_files;
  api = api_errors;
  wait = a_wait;
  patch = λ o o' w. (ok o', w);
  now = λ w. "2025-01-01T00:00:00Z";
  watch_deployment = λ namespace name w. (ok (event "ADDED" (some (an_object name)) ∷ []), w);
  marshal = λ v. ok [];
}
