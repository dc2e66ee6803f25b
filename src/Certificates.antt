-- ===== src/Certificates.antt =====
-- internal/controllers/certificates/certificates.go. The state of the manager is its CA bundle, nil
-- before it is first set, beside the world. Its two mutexes have no part in a single run.
pub mod Bundle
pub mod Construction
pub mod Manager
pub mod Reconciler
use core_provider.Base.{
  ℕ, String, List, [], ◌∷◌, Option, none, some, Bool, true, false, not, ◌&&◌, ◌||◌, ◌==◌, ltb, leb,
  length, str_eq, if◌then◌else◌, zero, suc,
}
use core_provider.Base.Result.{
  Error, text, status, wrap, Result, ok, err, is_canceled, is_deadline_exceeded, is_transient_net,
  ApiErrors,
}
use core_provider.Base.Exec.{Exec, pure, raise, lift, attempt, on_error, beside, ◌>>=◌, ◌>>◌}
use core_provider.Retry.{Config, pos, retry_do, int64_lt}
use core_provider.Schema.{
  GroupVersionKind, GroupVersionResource, group_resource, NamespacedName, Object,
}
use core_provider.Types.{CompositionDefinition}
use core_provider.Kube.{ApplyOptions, Client, apply_to}
use core_provider.Objects.{Files, string_value, create_k8s_object}
use core_provider.Crd.{Crd}
use core_provider.Crd.Cluster
use core_provider.Crd.Cluster.{CrdPlatform, crd_gvk}
use core_provider.Crd.Generation.{update_ca_bundle}
use core_provider.Certs.{
  CertOpts, Plumbing, Os, generate_client_cert_and_key, check_or_regenerate_client_cert_and_key,
  update_certs,
}
use core_provider.Controller.{CertManagerInterface}

-- The struct CertManager, with what it takes from libraries. `B` is the content of a
-- MutatingWebhookConfiguration; `new_not_found` is apierrors.NewNotFound; `is_not_exist` is
-- os.IsNotExist.
pub record CertManager (W K C B : Type 0) : Type 0 where
  pub plumbing : Plumbing W K C
  pub os : Os W
  pub crds : CrdPlatform W
  pub webhooks : Client W B
  pub files : Files W B
  pub wait : ℕ → Exec W (Unit {0})
  pub gvk_to_gvr : GroupVersionKind → Exec W GroupVersionResource
  pub list_definitions : Exec W (List CompositionDefinition)
  pub parse_kind : String → String → GroupVersionKind
  pub new_not_found : GroupVersionResource → Error
  pub is_not_exist : Error → Bool
  pub cert_opts : CertOpts
  pub cert_path : String
  pub mutating_webhook_template_path : String
  pub webhook_service_meta : NamespacedName

-- the codes of an *apierrors.StatusError that is not wrapped
unfoldable pub has_fatal_code : Error → Bool
has_fatal_code (status code reason) = code == 401 || code == 403 || code == 422 || code == 400
has_fatal_code _ = false

-- isNonRetryableCABundleError(err)
unfoldable pub is_non_retryable_ca_bundle_error : ApiErrors → Error → Bool
is_non_retryable_ca_bundle_error api e =
    if api.is_forbidden e || api.is_unauthorized e || api.is_invalid e || api.is_bad_request e
    then true
    else has_fatal_code e

-- isRetryableCABundleError(err)
unfoldable pub is_retryable_ca_bundle_error : ApiErrors → Error → Bool
is_retryable_ca_bundle_error api e =
    if is_canceled e
    then false
    else if is_deadline_exceeded e
    then true
    else if is_non_retryable_ca_bundle_error api e
    then false
    else if is_transient_net e
    then true
    else true

-- the bytes of "-----BEGIN" and "-----END"
abbrev pub begin_marker : List ℕ
begin_marker = 45 ∷ 45 ∷ 45 ∷ 45 ∷ 45 ∷ 66 ∷ 69 ∷ 71 ∷ 73 ∷ 78 ∷ []

abbrev pub end_marker : List ℕ
end_marker = 45 ∷ 45 ∷ 45 ∷ 45 ∷ 45 ∷ 69 ∷ 78 ∷ 68 ∷ []

unfoldable pub has_prefix : List ℕ → List ℕ → Bool
has_prefix [] s = true
has_prefix (m ∷ ms) [] = false
has_prefix (m ∷ ms) (x ∷ xs) = if m == x then has_prefix ms xs else false

unfoldable pub one_later : Option ℕ → Option ℕ
one_later none = none
one_later (some i) = some (suc i)

-- bytes.Index(s, sep), `none` for -1; bytes.Contains says whether it is not -1
unfoldable pub index : List ℕ → List ℕ → Option ℕ
index [] sep = if has_prefix sep [] then some 0 else none
index (x ∷ xs) sep =
    let later = index xs sep in if has_prefix sep (x ∷ xs) then some 0 else one_later later

-- beginIdx >= endIdx, where both markers have been found
unfoldable pub in_order : Option ℕ → Option ℕ → Result (Unit {0})
in_order none _ = err (text "CA bundle missing BEGIN marker - invalid PEM format")
in_order (some i) none = err (text "CA bundle missing END marker - invalid PEM format")
in_order (some i) (some j) =
    if leb j i then err (text "CA bundle has invalid PEM structure (END before BEGIN)") else ok tt

-- validateCABundleFormat(cabundle)
unfoldable pub validate_ca_bundle_format : List ℕ → Result (Unit {0})
validate_ca_bundle_format [] = err (text "CA bundle is empty")
validate_ca_bundle_format (x ∷ xs) =
    in_order (index (x ∷ xs) begin_marker) (index (x ∷ xs) end_marker)

-- m.caBundle
abbrev pub Held : Type 0
Held = Option (List ℕ)

module _ {W K C B : Type 0} (m : CertManager W K C B) where
  abbrev pub plainly : ApplyOptions
  plainly = record { dry_run = []; field_manager = ""; field_validation = "" }

  -- the CRD, where it has more than one version
  unfoldable pub propagate_to_crd : List ℕ → Object Crd → Exec W (Unit {0})
  propagate_to_crd cabundle crd =
      if ltb 1 (length crd.body.versions)
      then (do
        body ←
            on_error (wrap "error updating CA bundle: %w")
              (lift (update_ca_bundle crd.body cabundle))
        on_error (wrap "error applying CRD: %w") (
            apply_to m.crds.client m.crds.api m.crds.wait plainly
              (record crd { gvk = crd_gvk; body = body }))
        pure tt)
      else pure tt

  unfoldable pub mutating_webhook_config : List ℕ → Exec W (Object B)
  mutating_webhook_config cabundle =
      create_k8s_object m.files (record { group = ""; version = ""; resource = "" })
        (record { namespace = ""; name = "" }) m.mutating_webhook_template_path
        (string_value "caBundle" ∷ string_value (m.plumbing.to_base64 cabundle) ∷ [])

  unfoldable pub propagate_to_webhook : List ℕ → Exec W (Unit {0})
  propagate_to_webhook cabundle = do
    config ←
        on_error (wrap "error creating mutating webhook config: %w")
          (mutating_webhook_config cabundle)
    on_error (wrap "error applying mutating webhook config: %w")
        (apply_to m.webhooks m.crds.api m.crds.wait plainly config)
    pure tt

  unfoldable pub propagate_found :
      List ℕ → GroupVersionResource → Option (Object Crd) → Exec W (Unit {0})
  propagate_found cabundle gvr none = raise (m.new_not_found gvr)
  propagate_found cabundle gvr (some crd) = do
    propagate_to_crd cabundle crd
    propagate_to_webhook cabundle

  -- propagateCABundle(ctx, cabundle, gvr)
  unfoldable pub propagate_ca_bundle : List ℕ → GroupVersionResource → Exec W (Unit {0})
  propagate_ca_bundle cabundle gvr = do
    crd ← on_error (wrap "error getting CRD: %w") (Cluster.get m.crds (group_resource gvr))
    propagate_found cabundle gvr crd

  unfoldable pub ca_bundle_config : Config W
  ca_bundle_config = record {
    attempts = pos 5;
    initial_delay = 250000000;
    maximum_delay = 2000000000;
    wait = m.wait;
    retryable = is_retryable_ca_bundle_error m.crds.api;
    on_retry = λ attempt d e w. w;
  }

  -- propagateCABundleWithRetry(ctx, cabundle, gvr)
  unfoldable pub propagate_ca_bundle_with_retry : List ℕ → GroupVersionResource → Exec W (Unit {0})
  propagate_ca_bundle_with_retry cabundle gvr = do
    on_error (wrap "invalid CA bundle format, aborting propagation: %w")
        (lift (validate_ca_bundle_format cabundle))
    on_error (wrap "failed to propagate CA bundle after %d attempts: %w")
        (retry_do ca_bundle_config (propagate_ca_bundle cabundle gvr))

  -- m.GetCABundle(), of which a nil slice has no bytes
  unfoldable pub bytes_of : Held → List ℕ
  bytes_of none = []
  bytes_of (some b) = b

  unfoldable pub get_ca_bundle : Exec (Held × W) (List ℕ)
  get_ca_bundle (held, w) = (ok (bytes_of held), (held, w))

  unfoldable pub set_ca_bundle : List ℕ → Exec (Held × W) (Unit {0})
  set_ca_bundle b (held, w) = (ok tt, (some b, w))

  -- the files are written, and the bundle is read back from them
  unfoldable pub renew : (Error → Error) → String → String → Exec (Held × W) (Unit {0})
  renew failed cert key = do
    beside (on_error failed (update_certs m.plumbing m.os m.cert_path cert key))
    cabundle ←
        beside
          (on_error (wrap "error getting CA bundle: %w") (m.os.read_file m.cert_path "tls.crt"))
    set_ca_bundle cabundle

  -- the bundle that is held is checked and propagated
  unfoldable pub propagate_held : GroupVersionResource → Exec (Held × W) (Unit {0})
  propagate_held gvr = do
    cabundle ← get_ca_bundle
    on_error (wrap "invalid CA bundle format: %w") (lift (validate_ca_bundle_format cabundle))
    beside (
        on_error (wrap "error updating CA bundle after retries: %w")
          (propagate_ca_bundle_with_retry cabundle gvr))

  -- ManageCertificates(ctx, gvr)
  unfoldable pub manage_certificates : GroupVersionResource → Exec (Held × W) (Unit {0})
  manage_certificates gvr = do
    (present, cert, key) ← beside (check_or_regenerate_client_cert_and_key m.plumbing m.cert_opts)
    if not present then renew (λ e. e) cert key else pure tt
    propagate_held gvr

  -- RefreshCertificates()
  unfoldable pub refresh_certificates : Exec (Held × W) (Unit {0})
  refresh_certificates = do
    (cert, key) ← beside (
        on_error (wrap "error generating client certificate and key: %w")
          (generate_client_cert_and_key m.plumbing m.cert_opts))
    renew (wrap "error updating certificates: %w") cert key

  -- a definition whose kind has been found or not
  unfoldable pub update_found : Result GroupVersionResource → Exec (Held × W) (Unit {0})
  update_found (ok gvr) = do
    cabundle ← get_ca_bundle
    beside (
        on_error (wrap "error updating CA bundle for GVR %s: %w")
          (propagate_ca_bundle_with_retry cabundle gvr))
  update_found (err e) =
      if m.crds.api.is_not_found e
      then pure tt
      else raise (wrap "error converting GVK to GVR: %w - GVK: %s" e)

  unfoldable pub has_kind : CompositionDefinition → Bool
  has_kind cd = not (str_eq cd.status.api_version "") && not (str_eq cd.status.kind "")

  unfoldable pub update_one : CompositionDefinition → Exec (Held × W) (Unit {0})
  update_one cd =
      if has_kind cd
      then (do
        answer ← beside (attempt (m.gvk_to_gvr (m.parse_kind cd.status.api_version cd.status.kind)))
        update_found answer)
      else pure tt

  unfoldable pub update_each : List CompositionDefinition → Exec (Held × W) (Unit {0})
  update_each [] = pure tt
  update_each (cd ∷ cds) = do update_one cd; update_each cds

  -- UpdateExistingResources(ctx)
  unfoldable pub update_existing_resources : Exec (Held × W) (Unit {0})
  update_existing_resources = do
    cds ←
        beside (on_error (λ e. text "error listing CompositionDefinitions: %s") m.list_definitions)
    update_each cds

  -- The manager as the controller sees it.
  abbrev pub cert_manager : CertManagerInterface (Held × W)
  cert_manager = record {
    manage_certificates = manage_certificates;
    ca_bundle = λ s. s.0;
    service_name = m.webhook_service_meta.name;
    service_namespace = m.webhook_service_meta.namespace;
  }
