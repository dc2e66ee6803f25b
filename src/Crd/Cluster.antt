-- ===== src/Crd/Cluster.antt =====
-- internal/tools/crd/crd.go: the CRD of a composition on the API server.
pub mod Reads
use core_provider.Base.{
  ℕ, String, List, [], ◌∷◌, Option, none, some, Bool, true, false, not, ◌&&◌, str_eq, if◌then◌else◌,
}
use core_provider.Base.Result.{Error, text, panic, wrap, Result, ok, err, is_canceled, ApiErrors}
use core_provider.Base.Exec.{Exec, pure, raise, lift, on_error, ◌>>=◌, ◌>>◌}
use core_provider.Retry.{Config, pos, retry_do}
use core_provider.Schema.{
  GroupVersionKind, GroupVersionResource, GroupResource, group_resource, NamespacedName, Object,
}
use core_provider.Kube.{Client, apply_to}
use core_provider.Watcher.{Signal, watch_resource}
use core_provider.Crd.{JsonProps, CrdVersion, Crd}
use core_provider.Crd.Generation.{
  set_served_storage, has_version, append_version, update_status, status_equal, gvk_exists,
}

-- `register` is registerEventually, which adds the API types to a global scheme of the library;
-- `resource_name` is String of a GroupResource; `watch_crds` watches the CRDs.
pub record CrdPlatform (W : Type 0) : Type 0 where
  pub client : Client W Crd
  pub api : ApiErrors
  pub wait : ℕ → Exec W (Unit {0})
  pub register : Exec W (Unit {0})
  pub resource_name : GroupResource → String
  pub watch_crds : String → String → Exec W (List (Signal (Object Crd)))
  pub marshal : JsonProps → Result (List ℕ)

pub record ApplyOpts : Type 0 where
  pub ca_bundle : Option (List ℕ)
  pub webhook_service_namespace : String
  pub webhook_service_name : String

abbrev pub crd_gvk : GroupVersionKind
crd_gvk = record {
  group = "apiextensions.k8s.io";
  version = "v1";
  kind = "CustomResourceDefinition";
}

unfoldable pub is_retryable_crd_error : Error → Bool
is_retryable_crd_error e = not (is_canceled e)

established : List (String × String) → Bool
established [] = false
established ((type, status) ∷ rest) =
    if str_eq type "Established" && str_eq status "True" then true else established rest

-- IsReady(crd)
unfoldable pub is_ready : Object Crd → Bool
unfolding established
is_ready crd = established crd.body.conditions

-- injectConversionConfToCRD(crd, opts)
unfoldable pub inject_conversion_conf_to_crd : ApplyOpts → Crd → Crd
inject_conversion_conf_to_crd opts crd = record crd {
  conversion = some (record {
    strategy = "Webhook";
    webhook = some (record {
      conversion_review_versions = "v1" ∷ "v1alpha1" ∷ "v1alpha2" ∷ [];
      client_config = some (record {
        service = some (record {
          namespace = opts.webhook_service_namespace;
          name = opts.webhook_service_name;
          port = 9443;
          path = "/convert";
        });
        ca_bundle = opts.ca_bundle;
      });
    });
  });
}

module _ {W : Type 0} (p : CrdPlatform W) where
  crd_config : Config W
  crd_config = record {
    attempts = pos 10;
    initial_delay = 100000000;
    maximum_delay = 100000000;
    wait = p.wait;
    retryable = is_retryable_crd_error;
    on_retry = λ attempt d e w. w;
  }

  crd_key : GroupResource → NamespacedName
  crd_key gr = record { namespace = ""; name = p.resource_name gr }

  deleted : Result (Unit {0}) × W → Result (Unit {0}) × W
  deleted (ok u, w) = (ok tt, w)
  deleted (err e, w) = if p.api.is_not_found e then (ok tt, w) else (err e, w)

  delete_found : Result (Object Crd) × W → Result (Unit {0}) × W
  unfolding deleted
  delete_found (ok obj, w) = deleted (
      p.client.delete
        (record {
          grace_period_seconds = none;
          preconditions = none;
          propagation_policy = none;
          dry_run = [];
        })
        obj w)
  delete_found (err e, w) = if p.api.is_not_found e then (ok tt, w) else (err e, w)

  unfoldable pub uninstall_once : GroupResource → Exec W (Unit {0})
  unfolding delete_found crd_key
  uninstall_once gr w = delete_found (p.client.get crd_gvk (crd_key gr) w)

  -- Uninstall(ctx, kube, gr)
  unfoldable pub uninstall : GroupResource → Exec W (Unit {0})
  unfolding crd_config
  uninstall gr = do p.register; retry_do crd_config (uninstall_once gr)

  found : Result (Object Crd) × W → Result (Option (Object Crd)) × W
  found (ok crd, w) = (ok (some crd), w)
  found (err e, w) = if p.api.is_not_found e then (ok none, w) else (err e, w)

  read_crd : GroupResource → Exec W (Option (Object Crd))
  unfolding found crd_key
  read_crd gr w = found (p.client.get crd_gvk (crd_key gr) w)

  -- Get(ctx, kube, gr): nil where there is none
  unfoldable pub get : GroupResource → Exec W (Option (Object Crd))
  unfolding read_crd
  get gr = do p.register; read_crd gr

  -- Lookup(ctx, kube, gvr)
  unfoldable pub lookup : GroupVersionResource → Exec W Bool
  unfolding read_crd
  lookup gvr = do
    p.register
    crd ← read_crd (group_resource gvr)
    pure (elim crd [ none ↦ false | some c ↦ has_version gvr.version c.body.versions ])

  unfoldable pub apply_crd : String → Object Crd → Exec W (Object Crd)
  apply_crd message crd = on_error (wrap message) (
      apply_to p.client p.api p.wait
        (record { dry_run = []; field_manager = ""; field_validation = "" }) crd)

  unfoldable pub wait_established : String → Exec W (Unit {0})
  wait_established name =
      on_error (wrap "error waiting for CRD to be established: %w")
        (watch_resource is_ready p.watch_crds "" name)

  -- The answer is the GVR with `newcrd` as the call leaves it: only where the CRD is created does
  -- the server's answer take its place.
  abbrev pub Applied : Type 0
  Applied = GroupVersionResource × Object Crd

  unfoldable pub create_crd : GroupVersionResource → Object Crd → Exec W Applied
  unfolding apply_crd wait_established
  create_crd gvr newcrd = do
    applied ← apply_crd "error applying CRD: %w" newcrd
    wait_established applied.name
    pure (gvr, applied)

  -- the branch of a CRD whose status differs
  unfoldable pub refresh_status :
      GroupVersionResource → CrdVersion → Object Crd → Object Crd → Exec W Applied
  unfolding apply_crd wait_established
  refresh_status gvr version newcrd crd = do
    body ← on_error (wrap "error updating CRD version: %w") (lift (update_status crd.body version))
    applied ← apply_crd "error applying CRD status update: %w" (record crd { body = body })
    wait_established applied.name
    pure (gvr, newcrd)

  unfoldable pub check_webhook : ApplyOpts → Result (Unit {0})
  check_webhook opts = elim opts.ca_bundle [
    | none ↦ err (text "CA bundle is nil")
    | some b ↦
        if str_eq opts.webhook_service_name ""
        then err (text "webhook service name is empty")
        else if str_eq opts.webhook_service_namespace ""
        then err (text "webhook service namespace is empty")
        else ok tt
  ]

  -- the branch of a CRD that lacks the version
  unfoldable pub add_version :
      ApplyOpts → GroupVersionResource → Object Crd → Object Crd → Exec W Applied
  unfolding apply_crd wait_established
  add_version opts gvr newcrd crd = do
    body ←
        on_error (wrap "error appending version to CRD: %w")
          (lift (append_version crd.body newcrd.body))
    lift (check_webhook opts)
    applied ← apply_crd "error setting properties on CRD: %w" (record crd {
      body = set_served_storage (inject_conversion_conf_to_crd opts body) gvr.version true false;
    })
    wait_established applied.name
    pure (gvr, newcrd)

  unfoldable pub update_crd :
      ApplyOpts → GroupVersionResource → CrdVersion → Object Crd → Object Crd → Exec W Applied
  update_crd opts gvr version newcrd crd = do
    same ←
        on_error (wrap "error comparing CRD status: %w")
          (lift (status_equal p.marshal crd.body newcrd.body))
    let gvk : GroupVersionKind = record {
      group = newcrd.body.group;
      version = gvr.version;
      kind = newcrd.body.kind;
    }
    if not same
        then refresh_status gvr version newcrd crd
        else if gvk_exists crd.body gvk
        then pure (gvr, newcrd)
        else add_version opts gvr newcrd crd

  unfoldable pub create_or_update :
      ApplyOpts
      → GroupVersionResource
      → CrdVersion
      → Object Crd
      → Option (Object Crd)
      → Exec W Applied
  create_or_update opts gvr version newcrd none = create_crd gvr newcrd
  create_or_update opts gvr version newcrd (some crd) = update_crd opts gvr version newcrd crd

  unfoldable pub apply_first : ApplyOpts → Object Crd → List CrdVersion → Exec W Applied
  unfolding create_or_update
  apply_first opts newcrd [] = raise (panic "index out of range [0] with length 0")
  apply_first opts newcrd (version ∷ rest) = do
    let gvr : GroupVersionResource = record {
      group = newcrd.body.group;
      version = version.name;
      resource = newcrd.body.plural;
    }
    crd ← on_error (wrap "error getting CRD: %w") (get (group_resource gvr))
    create_or_update opts gvr version newcrd crd

  -- ApplyOrUpdateCRD(ctx, cli, dyn, newcrd, opts)
  unfoldable pub apply_or_update_crd : ApplyOpts → Object Crd → Exec W Applied
  unfolding apply_first
  apply_or_update_crd opts newcrd = apply_first opts newcrd newcrd.body.versions
