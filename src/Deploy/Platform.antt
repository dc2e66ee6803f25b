-- ===== src/Deploy/Platform.antt =====
-- What Deploy, Undeploy and Lookup work on: the options, the clients, and the hash in the making.
use core_provider.Base.{ℕ, String, List, [], ◌∷◌, Option, none, some, Bool, if◌then◌else◌}
use core_provider.Base.Result.{text, panic, wrap, Result, ok, err, ApiErrors}
use core_provider.Base.Exec.{Exec}
use core_provider.Schema.{GroupVersionResource, NamespacedName, Object}
use core_provider.Hash.{sum_hash}
use core_provider.Kube.{Client, ApplyOptions, apply_to, get_object, uninstall_of}
use core_provider.Objects.{Any, Files, create_k8s_object}
use core_provider.Deployment.{Annotations, Body, empty_object}
use core_provider.Watcher.{Signal}
use core_provider.Types.{ChartInfo, Credentials}

-- DeployOptions; the clients in it are the platform's. A nil `Spec` is `none`.
pub record DeployOptions : Type 0 where
  pub gvr : GroupVersionResource
  pub namespace : String
  pub spec : Option ChartInfo
  pub rbac_folder_path : String
  pub deployment_template_path : String
  pub configmap_template_path : String
  pub json_schema_template_path : String
  pub service_template_path : String
  pub json_schema_bytes : String
  pub dry_run_server : Bool

-- UndeployOptions: SkipCRD beside the fields of DeployOptions, of which DryRunServer is not used.
pub record UndeployOptions : Type 0 where
  pub options : DeployOptions
  pub skip_crd : Bool

-- opts.Spec.Credentials
unfoldable pub credentials_of : Option ChartInfo → Result (Option Credentials)
credentials_of none = err (panic "nil pointer dereference")
credentials_of (some spec) = ok spec.credentials

-- a value that goes into the hash: a string, a JSON text, or the spec of a deployment, that is the
-- annotations of its pod template, the replicas and the rest
pub data Value : Type 0 where
  string : String → Value
  json : String → Value
  deployment_spec : Annotations → Option ℕ → String → Value

-- The clients and libraries. `patch` is the client's merge patch, `now` the time as RFC 3339,
-- `watch_deployment` the watch of the deployments, and `marshal` json.Marshal.
pub record Platform (W : Type 0) : Type 0 where
  pub client : Client W Body
  pub files : Files W Body
  pub api : ApiErrors
  pub wait : ℕ → Exec W (Unit {0})
  pub patch : Object Body → Object Body → Exec W (Object Body)
  pub now : W → String
  pub watch_deployment : String → String → Exec W (List (Signal (Object Body)))
  pub marshal : Value → Result (List ℕ)

-- the arguments of SumHash for each kind of resource
abbrev pub name_values : Object Body → List Value
name_values o = string o.name ∷ string o.namespace ∷ []

abbrev pub rules_values : Object Body → List Value
rules_values o = string o.name ∷ string o.namespace ∷ json o.body.rules ∷ []

abbrev pub binding_values : Object Body → List Value
binding_values o =
    string o.name ∷ string o.namespace ∷ json o.body.subjects ∷ json o.body.role_ref ∷ []

abbrev pub config_values : Object Body → List Value
config_values o = string o.name ∷ string o.namespace ∷ json o.body.config_data ∷ []

abbrev pub deployment_values : Object Body → List Value
deployment_values o =
    string o.name
    ∷ string o.namespace
    ∷ deployment_spec o.body.template_annotations o.body.replicas o.body.spec
    ∷ []

abbrev pub service_values : Object Body → List Value
service_values o = string o.name ∷ string o.namespace ∷ json o.body.spec ∷ []

module _ {W : Type 0} (p : Platform W) where
  -- An action on the cluster, beside the hash.
  abbrev pub on_cluster : {A : Type 0} → Exec W A → Exec (ℕ × W) A
  on_cluster m (sum, w) = let (r, w') = m w in (r, (sum, w'))

  -- hsh.SumHash(…), where an error is reported by `message`
  unfoldable pub hash : String → List Value → Exec (ℕ × W) (Unit {0})
  hash message values (sum, w) =
      let (r, sum') = sum_hash p.marshal values sum in
      (elim r [ ok u ↦ ok u | err e ↦ err (text message) ], (sum', w))

  -- objects.CreateK8sObject
  unfoldable pub create :
      GroupVersionResource → NamespacedName → String → List Any → Exec (ℕ × W) (Object Body)
  create gvr nn path additional = on_cluster (create_k8s_object p.files gvr nn path additional)

  -- kubecli.Apply, kubecli.Get and kubecli.Uninstall; the object is the one that the call leaves
  unfoldable pub install : ApplyOptions → Object Body → Exec (ℕ × W) (Object Body)
  install opts obj = on_cluster (apply_to p.client p.api p.wait opts obj)

  unfoldable pub fetch : Object Body → Exec (ℕ × W) (Object Body)
  fetch obj = on_cluster (get_object p.client p.api p.wait obj)

  unfoldable pub remove : Object Body → Exec W (Unit {0})
  remove obj =
      uninstall_of p.client p.api p.wait
        (record {
          grace_period_seconds = none;
          preconditions = none;
          propagation_policy = none;
          dry_run = [];
        })
        obj

  -- if apierrors.IsNotFound(err) { x = T{} } else { return fmt.Errorf(message, err) }
  unfoldable pub found_or_empty :
      String → Result (Object Body) × (ℕ × W) → Result (Object Body) × (ℕ × W)
  found_or_empty message (ok o, s) = (ok o, s)
  found_or_empty message (err e, s) =
      if p.api.is_not_found e then (ok empty_object, s) else (err (wrap message e), s)

  unfoldable pub fetch_or_empty : String → Object Body → Exec (ℕ × W) (Object Body)
  unfolding found_or_empty fetch
  fetch_or_empty message obj s = found_or_empty message (fetch obj s)
