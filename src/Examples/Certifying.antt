-- ===== src/Examples/Certifying.antt =====
-- The certificates and their propagation, with files as a function of their names.
use core_provider.Base.{
  ℕ, String, List, [], ◌∷◌, ◌++◌, Option, none, some, Bool, true, false, ◌≡◌, ◌⊎◌, refl, sym, ap,
  ◌∙◌, inl, inr, Bool-cases, eq_refl, arith, str_eq, length, ◌<◌, if◌then◌else◌,
}
use core_provider.Base.Result.{Error, text, Result, ok, err}
use core_provider.Base.Exec.{Exec, on_error, beside, ◌>>=◌}
use core_provider.Schema.{GroupVersionResource, Object}
use core_provider.Types.{CompositionDefinition}
use core_provider.Crd.{Crd}
use core_provider.Crd.Cluster.{CrdPlatform, inject_conversion_conf_to_crd}
use core_provider.Objects.{Files}
use core_provider.Certs.{Plumbing, Os, update_certs}
use core_provider.Certs.Files.{OsLaws, update_certs-ok}
use core_provider.Certs.Failures.{OldOrNew, update_certs-err}
use core_provider.Certificates.{
  CertManager, Held, begin_marker, end_marker, bytes_of, validate_ca_bundle_format,
  manage_certificates, update_existing_resources,
}
use core_provider.Certificates.Manager.{
  Propagated, ReadBack, AllUpdated, manage_certificates-ok, update_existing_resources-ok,
}
use core_provider.Deployment.{Body}
use core_provider.Deploy.Install.{deploy}
use core_provider.Controller.{External, deploy_options, with_digest}
use core_provider.Controller.Apply.{create}
use core_provider.Controller.Apply.Certified.{create-Propagated}
use core_provider.Certificates.{cert_manager}
use core_provider.Examples.Controlling.{external_on}
use core_provider.Examples.Fixtures.{
  an_open_platform, api_errors, not_found, a_wait, a_gvr, an_empty_client, webhook_opts,
}
use core_provider.Examples.Crds.{a_crd, a_version, a_definition}

abbrev pub Store : Type 0
Store = String → Option (List ℕ)

abbrev set_file : String → Option (List ℕ) → Store → Store
set_file n v w m = if str_eq n m then v else w m

-- A rename to a name that `refused` picks out fails.
module _ (refused : String → Bool) where
  abbrev renamed : String → String → Option (List ℕ) → Exec Store (Unit {0})
  renamed a b none w = (err (text "no such file"), w)
  renamed a b (some c) w =
      if refused b
      then (err (text "refused"), w)
      else (ok tt, set_file b (some c) (set_file a none w))

  abbrev some_os : Os Store
  some_os = record {
    mkdir_all = λ dir w. (ok tt, w);
    create = λ dir n w. (ok tt, set_file n (some []) w);
    write = λ dir n b w. (ok tt, set_file n (some b) w);
    rename = λ dir a b w. renamed a b (w a) w;
    remove = λ dir n w. (ok tt, set_file n none w);
    read_file = λ dir n w. (elim (w n) [ none ↦ err (text "no such file") | some b ↦ ok b ], w);
  }

abbrev a_bundle : List ℕ
a_bundle = begin_marker ++ 10 ∷ end_marker

abbrev some_plumbing : Plumbing Store (Unit {0}) (Unit {0})
some_plumbing = record {
  new_private_key = λ w. (ok tt, w);
  new_certificate_request = λ o. ok [];
  new_signing_request = λ o. tt;
  create_request = λ c w. (ok tt, w);
  get_request = λ n w. (err not_found, w);
  delete_request = λ n w. (ok tt, w);
  approve_request = λ c a w. (ok tt, w);
  wait_certificate = λ n w. (ok tt, w);
  certificate = λ n w. (ok [], w);
  request_name = λ c. "core-provider";
  since_creation = λ c w. 0;
  pem_of_key = λ k. [];
  dns_name = λ n. [];
  to_base64 = λ b. "";
  from_base64 = λ s. ok a_bundle;
  is_already_exists = λ e. false;
  is_not_found = λ e. true;
}

abbrev pub no_files : Store
no_files n = none

abbrev never : String → Bool
never n = false

abbrev the_key : String → Bool
the_key n = str_eq n "tls.key"

abbrev content : Store → String → Option (List ℕ)
content w n = w n

set_file-same : (n : String) (v : Option (List ℕ)) (w : Store) → set_file n v w n ≡ v
set_file-same n v w = rw (eq_refl n) refl

renamed-others :
    (refused : String → Bool) (a b n : String) (found : Option (List ℕ)) (w : Store)
    → str_eq a n ≡ false
    → str_eq b n ≡ false
    → (renamed refused a b found w).1 n ≡ w n
renamed-others refused a b n none w other_a other_b = refl
renamed-others refused a b n (some c) w other_a other_b = ground arith

renamed-moves :
    (refused : String → Bool) (a b : String) (found : Option (List ℕ)) (w w' : Store)
    → renamed refused a b found w ≡ (ok tt, w')
    → w' b ≡ found
renamed-moves refused a b none w w' h = cc
renamed-moves refused a b (some c) w w' h = elim (Bool-cases (refused b)) [
  | inl refuses ↦ ground arith
  | inr allows ↦
      let moved : set_file b (some c) (set_file a none w) ≡ w' = ground arith in
      sym (ap (λ (f : Store). f b) moved) ∙ set_file-same b (some c) (set_file a none w)
]

renamed-fails :
    (refused : String → Bool) (a b : String) (found : Option (List ℕ)) (e : Error) (w w' : Store)
    → renamed refused a b found w ≡ (err e, w')
    → w' ≡ w
renamed-fails refused a b none e w w' h = sym (ap (λ o. o.1) h)
renamed-fails refused a b (some c) e w w' h = elim (Bool-cases (refused b)) [
  | inl refuses ↦ ground arith
  | inr allows ↦ ground arith
]

laws : (refused : String → Bool) → OsLaws some_plumbing (some_os refused) "certs" content
laws refused = record {
  mkdir_others = λ n v. record { holds = λ s h. h };
  create_others = λ name n v other. record { holds = λ s h. ground arith };
  create_empties = λ name w w' h. sym (ap (λ o. o.1 name) h) ∙ set_file-same name (some []) w;
  write_others = λ name n b v other. record { holds = λ s h. ground arith };
  write_appends = λ name b w w' empty h. sym (ap (λ o. o.1 name) h) ∙ set_file-same name (some b) w;
  remove_others = λ name n v other. record { holds = λ s h. ground arith };
  rename_others = λ a b n v other_a other_b. record {
    holds = λ s h. renamed-others refused a b n (s a) s other_a other_b ∙ h;
  };
  rename_moves = λ a b w w' h. renamed-moves refused a b (w a) w w' h;
  rename_fails =
      λ a b n e w w' h. ap (λ (f : Store). f n) (renamed-fails refused a b (w a) e w w' h);
}

stored : Store
stored = (update_certs some_plumbing (some_os never) "certs" "crt" "key" no_files).1

stored_eq :
    update_certs some_plumbing (some_os never) "certs" "crt" "key" no_files ≡ (ok tt, stored)
unfolding core_provider.Base.Exec.on_error ◌>>=◌ core_provider.Certs.cleaned
    core_provider.Certs.or_remove core_provider.Certs.remove_each core_provider.Certs.rename_both
    core_provider.Certs.update_certs core_provider.Certs.write_temporary stored
stored_eq = refl

update_certs-ok_example :
    (c k : List ℕ) × (some_plumbing.from_base64 "crt" ≡ ok c)
    × (some_plumbing.from_base64 "key" ≡ ok k)
    × (content stored "tls.crt" ≡ some c)
    × (content stored "tls.key" ≡ some k)
update_certs-ok_example =
    update_certs-ok some_plumbing (some_os never) "certs" content (laws never) "crt" "key" no_files
      stored stored_eq

-- the second rename fails
half_stored : Store
half_stored = (update_certs some_plumbing (some_os the_key) "certs" "crt" "key" no_files).1

half_stored_eq :
    update_certs some_plumbing (some_os the_key) "certs" "crt" "key" no_files
    ≡ (err (text "cannot rename key file: %v"), half_stored)
unfolding core_provider.Base.Exec.on_error ◌>>=◌ core_provider.Certs.cleaned
    core_provider.Certs.or_remove core_provider.Certs.remove_each core_provider.Certs.rename_both
    core_provider.Certs.update_certs core_provider.Certs.write_temporary half_stored
half_stored_eq = refl

update_certs-err_example :
    OldOrNew some_plumbing
      (some_os the_key)
      "certs"
      content
      (laws the_key)
      "crt"
      no_files
      half_stored
update_certs-err_example =
    update_certs-err some_plumbing (some_os the_key) "certs" content (laws the_key) "crt" "key"
      (text "cannot rename key file: %v") no_files half_stored half_stored_eq

accepted : validate_ca_bundle_format a_bundle ≡ ok tt
unfolding core_provider.Certificates.has_prefix core_provider.Certificates.in_order
    core_provider.Certificates.index core_provider.Certificates.one_later
    core_provider.Certificates.validate_ca_bundle_format
accepted = refl

abbrev converting_crd : Object Crd
converting_crd = record {
  gvk = record {
    group = "apiextensions.k8s.io";
    version = "v1";
    kind = "CustomResourceDefinition";
  };
  namespace = "";
  name = "fireworks.composition.krateo.io";
  resource_version = "1";
  body =
      inject_conversion_conf_to_crd webhook_opts
        (a_crd (a_version "v1-0-0" "{}" ∷ a_version "v2-0-0" "{}" ∷ []));
}

abbrev converting_crds : CrdPlatform Store
converting_crds = record {
  client = record an_empty_client { get = λ gvk nn w. (ok converting_crd, w) };
  api = api_errors;
  wait = a_wait;
  register = λ w. (ok tt, w);
  resource_name = λ gr. gr.resource;
  watch_crds = λ namespace name w. (ok [], w);
  marshal = λ p. ok [];
}

abbrev a_config : Object (Unit {0})
a_config = record {
  gvk = record {
    group = "admissionregistration.k8s.io";
    version = "v1";
    kind = "MutatingWebhookConfiguration";
  };
  namespace = "";
  name = "core-provider";
  resource_version = "1";
  body = tt;
}

abbrev kinded_definition : CompositionDefinition
kinded_definition = record a_definition {
  status = record a_definition.status {
    api_version = "composition.krateo.io/v1-0-0";
    kind = "Fireworks";
  };
}

abbrev pub manager : CertManager Store (Unit {0}) (Unit {0}) (Unit {0})
manager = record {
  plumbing = some_plumbing;
  os = some_os never;
  crds = converting_crds;
  webhooks = an_empty_client;
  files = record {
    read_file = λ path w. ok "";
    file_exists = λ path w. true;
    join_path = λ a b. b;
    render = λ t vs. ok "";
    decode = λ dat. ok a_config;
  };
  wait = a_wait;
  gvk_to_gvr = λ gvk w. (ok a_gvr, w);
  list_definitions = λ w. (ok (a_definition ∷ kinded_definition ∷ []), w);
  parse_kind =
      λ api kind. record { group = "composition.krateo.io"; version = "v1-0-0"; kind = kind };
  new_not_found = λ gvr. not_found;
  is_not_exist = λ e. true;
  cert_opts = record {
    duration = 0;
    lease_expiration_margin = 0;
    username = "core-provider";
    approver = "";
  };
  cert_path = "certs";
  mutating_webhook_template_path = "webhook.yaml";
  webhook_service_meta = record { namespace = "krateo-system"; name = "core-provider" };
}

managed : Held × Store
managed = (manage_certificates manager a_gvr (none, no_files)).1

managed_eq : manage_certificates manager a_gvr (none, no_files) ≡ (ok tt, managed)
unfolding core_provider.Base.Exec.beside core_provider.Base.Exec.on_error ◌>>=◌
    core_provider.Base.Result.is_canceled core_provider.Base.Result.is_deadline_exceeded
    core_provider.Base.Result.is_transient_net core_provider.Certificates.bytes_of
    core_provider.Certificates.ca_bundle_config core_provider.Certificates.get_ca_bundle
    core_provider.Certificates.has_fatal_code core_provider.Certificates.has_prefix
    core_provider.Certificates.in_order core_provider.Certificates.index
    core_provider.Certificates.is_non_retryable_ca_bundle_error
    core_provider.Certificates.is_retryable_ca_bundle_error
    core_provider.Certificates.manage_certificates
    core_provider.Certificates.mutating_webhook_config core_provider.Certificates.one_later
    core_provider.Certificates.propagate_ca_bundle
    core_provider.Certificates.propagate_ca_bundle_with_retry
    core_provider.Certificates.propagate_found core_provider.Certificates.propagate_held
    core_provider.Certificates.propagate_to_crd core_provider.Certificates.propagate_to_webhook
    core_provider.Certificates.renew core_provider.Certificates.set_ca_bundle
    core_provider.Certificates.validate_ca_bundle_format
    core_provider.Certs.check_or_regenerate_client_cert_and_key core_provider.Certs.check_request
    core_provider.Certs.cleaned core_provider.Certs.created core_provider.Certs.expired
    core_provider.Certs.generate_client_cert_and_key core_provider.Certs.or_remove
    core_provider.Certs.regenerate core_provider.Certs.remove_each core_provider.Certs.rename_both
    core_provider.Certs.request_options core_provider.Certs.signing_options
    core_provider.Certs.update_certs core_provider.Certs.write_temporary
    core_provider.Crd.Cluster.get core_provider.Crd.Generation.update_ca_bundle
    core_provider.Kube.apply core_provider.Kube.apply_once core_provider.Kube.apply_to
    core_provider.Kube.is_retryable_client_error core_provider.Objects.add_pairs
    core_provider.Objects.create_k8s_object core_provider.Objects.in_pairs core_provider.Objects.put
    core_provider.Objects.template_values core_provider.Retry.delay
    core_provider.Retry.effective_attempts core_provider.Retry.retry_do
    core_provider.Retry.retry_loop core_provider.Crd.Cluster.inject_conversion_conf_to_crd managed
managed_eq = refl

manage_certificates-ok_example :
    Propagated manager (bytes_of manager managed.0) a_gvr managed.1
    × ((none ≡ managed.0) ⊎ ReadBack manager managed.0)
manage_certificates-ok_example =
    manage_certificates-ok manager a_gvr none managed.0 no_files managed.1 managed_eq

all_updated : Held × Store
all_updated = (update_existing_resources manager (some a_bundle, no_files)).1

all_updated_eq : update_existing_resources manager (some a_bundle, no_files) ≡ (ok tt, all_updated)
unfolding core_provider.Base.Exec.beside core_provider.Base.Exec.on_error ◌>>=◌
    core_provider.Base.Result.is_canceled core_provider.Base.Result.is_deadline_exceeded
    core_provider.Base.Result.is_transient_net core_provider.Certificates.bytes_of
    core_provider.Certificates.ca_bundle_config core_provider.Certificates.get_ca_bundle
    core_provider.Certificates.has_fatal_code core_provider.Certificates.has_kind
    core_provider.Certificates.has_prefix core_provider.Certificates.in_order
    core_provider.Certificates.index core_provider.Certificates.is_non_retryable_ca_bundle_error
    core_provider.Certificates.is_retryable_ca_bundle_error
    core_provider.Certificates.mutating_webhook_config core_provider.Certificates.one_later
    core_provider.Certificates.propagate_ca_bundle
    core_provider.Certificates.propagate_ca_bundle_with_retry
    core_provider.Certificates.propagate_found core_provider.Certificates.propagate_to_crd
    core_provider.Certificates.propagate_to_webhook core_provider.Certificates.update_each
    core_provider.Certificates.update_existing_resources core_provider.Certificates.update_found
    core_provider.Certificates.update_one core_provider.Certificates.validate_ca_bundle_format
    core_provider.Crd.Cluster.get core_provider.Crd.Generation.update_ca_bundle
    core_provider.Kube.apply core_provider.Kube.apply_once core_provider.Kube.apply_to
    core_provider.Kube.is_retryable_client_error core_provider.Objects.add_pairs
    core_provider.Objects.create_k8s_object core_provider.Objects.in_pairs core_provider.Objects.put
    core_provider.Objects.template_values core_provider.Retry.delay
    core_provider.Retry.effective_attempts core_provider.Retry.retry_do
    core_provider.Retry.retry_loop core_provider.Crd.Cluster.inject_conversion_conf_to_crd
    all_updated
all_updated_eq = refl

update_existing_resources-ok_example :
    (some a_bundle ≡ all_updated.0)
    × (cds : List CompositionDefinition) × (u : Store) × (manager.list_definitions no_files
        ≡ (ok cds, u))
    × AllUpdated manager (some a_bundle) cds u all_updated.1
update_existing_resources-ok_example =
    update_existing_resources-ok manager (some a_bundle) all_updated.0 no_files all_updated.1
      all_updated_eq

abbrev certified_external : External (Held × Store) (Unit {0}) Body
certified_external = external_on an_open_platform (cert_manager manager)

created : CompositionDefinition × (Held × Store)
created = (create certified_external (a_definition, (none, no_files))).1

created_eq : create certified_external (a_definition, (none, no_files)) ≡ (ok tt, created)
unfolding core_provider.Base.Exec.beside core_provider.Base.Exec.on_error
    core_provider.Base.Result.is_canceled core_provider.Base.Result.is_deadline_exceeded
    core_provider.Base.Result.is_transient_net core_provider.Base.codes_eq
    core_provider.Certificates.bytes_of core_provider.Certificates.ca_bundle_config
    core_provider.Certificates.get_ca_bundle core_provider.Certificates.has_fatal_code
    core_provider.Certificates.has_prefix core_provider.Certificates.in_order
    core_provider.Certificates.index core_provider.Certificates.is_non_retryable_ca_bundle_error
    core_provider.Certificates.is_retryable_ca_bundle_error
    core_provider.Certificates.manage_certificates
    core_provider.Certificates.mutating_webhook_config core_provider.Certificates.one_later
    core_provider.Certificates.propagate_ca_bundle
    core_provider.Certificates.propagate_ca_bundle_with_retry
    core_provider.Certificates.propagate_found core_provider.Certificates.propagate_held
    core_provider.Certificates.propagate_to_crd core_provider.Certificates.propagate_to_webhook
    core_provider.Certificates.renew core_provider.Certificates.set_ca_bundle
    core_provider.Certificates.validate_ca_bundle_format
    core_provider.Certs.check_or_regenerate_client_cert_and_key core_provider.Certs.check_request
    core_provider.Certs.cleaned core_provider.Certs.created core_provider.Certs.expired
    core_provider.Certs.generate_client_cert_and_key core_provider.Certs.or_remove
    core_provider.Certs.regenerate core_provider.Certs.remove_each core_provider.Certs.rename_both
    core_provider.Certs.request_options core_provider.Certs.signing_options
    core_provider.Certs.update_certs core_provider.Certs.write_temporary
    core_provider.Chart.chart_bytes core_provider.Chart.chart_bytes_with_retry
    core_provider.Chart.Retries.chart_config core_provider.Chart.chart_group_version_kind
    core_provider.Chart.chart_info_from_bytes core_provider.Chart.chart_info_from_spec
    core_provider.Chart.chart_json_schema core_provider.Chart.get_secret
    core_provider.Chart.getter_options core_provider.Chart.secret_value
    core_provider.Chart.yaml_text core_provider.Composition.api_config
    core_provider.Composition.has_permanent_code core_provider.Composition.is_non_retryable_error
    core_provider.Composition.is_retryable_error core_provider.Controller.Apply.apply_crd
    core_provider.Controller.Apply.apply_definition core_provider.Controller.Apply.create
    core_provider.Controller.Apply.create_chart core_provider.Controller.Apply.create_world
    core_provider.Controller.apply_opts core_provider.Controller.change_definition
    core_provider.Controller.deploy_options core_provider.Crd.Cluster.add_version
    core_provider.Crd.Cluster.apply_crd core_provider.Crd.Cluster.apply_first
    core_provider.Crd.Cluster.apply_or_update_crd core_provider.Crd.Cluster.check_webhook
    core_provider.Crd.Cluster.create_crd core_provider.Crd.Cluster.create_or_update
    core_provider.Crd.Cluster.get core_provider.Crd.Cluster.inject_conversion_conf_to_crd
    core_provider.Crd.Cluster.is_ready core_provider.Crd.Cluster.refresh_status
    core_provider.Crd.Cluster.update_crd core_provider.Crd.Cluster.wait_established
    core_provider.Crd.Generated.generate_bytes core_provider.Crd.Generated.generate_crd
    core_provider.Crd.Generation.append_all core_provider.Crd.Generation.append_one
    core_provider.Crd.Generation.append_version core_provider.Crd.Generation.first_status
    core_provider.Crd.Generation.gvk_exists core_provider.Crd.Generation.has_version
    core_provider.Crd.Generation.set_served_storage core_provider.Crd.Generation.set_statuses
    core_provider.Crd.Generation.status_digest core_provider.Crd.Generation.status_equal
    core_provider.Crd.Generation.update_ca_bundle core_provider.Crd.Generation.update_status
    core_provider.Crd.insert core_provider.Crd.lookup core_provider.Deploy.Install.apply_options
    core_provider.Deploy.Install.create_configmap core_provider.Deploy.Install.create_deployment
    core_provider.Deploy.Install.create_json_schema core_provider.Deploy.Install.create_rbac
    core_provider.Deploy.Install.create_service core_provider.Deploy.Install.deploy
    core_provider.Deploy.Install.deploy_all core_provider.Deploy.Install.if_service
    core_provider.Deploy.Install.install_configmaps core_provider.Deploy.Install.install_deployment
    core_provider.Deploy.Install.install_service core_provider.Deploy.Install.namespaced_name
    core_provider.Deploy.Install.roll_out core_provider.Deploy.Install.wait_ready
    core_provider.Deploy.Names.cdc_configmap_nn core_provider.Deploy.Names.cdc_deployment_nn
    core_provider.Deploy.Names.cdc_rbac_nn core_provider.Deploy.Names.json_schema_configmap_nn
    core_provider.Deploy.Names.resource_namer core_provider.Deploy.Platform.create
    core_provider.Deploy.Platform.credentials_of core_provider.Deploy.Platform.hash
    core_provider.Deploy.Platform.install core_provider.Deploy.Rbac.create_rbac_resources
    core_provider.Deploy.Rbac.install_rbac_resources
    core_provider.Deploy.Secret.deploy_secret_access core_provider.Deployment.annotate
    core_provider.Deployment.clean_from_restart_annotation core_provider.Deployment.is_ready
    core_provider.Deployment.remove_annotation core_provider.Deployment.restart_deployment
    core_provider.Deployment.restarted core_provider.Hash.get_hash core_provider.Hash.hex_loop
    core_provider.Hash.new_fnv_object_hash core_provider.Hash.sum_hash core_provider.Hash.write
    core_provider.Kube.apply core_provider.Kube.apply_once core_provider.Kube.apply_to
    core_provider.Kube.is_retryable_client_error core_provider.Objects.add_pairs
    core_provider.Objects.create_k8s_object core_provider.Objects.in_pairs core_provider.Objects.put
    core_provider.Objects.template_values core_provider.Objects.value_of core_provider.Retry.delay
    core_provider.Retry.effective_attempts core_provider.Retry.retry_do
    core_provider.Retry.retry_loop core_provider.Watcher.watch_loop
    core_provider.Watcher.watch_resource ◌>>=◌ created
created_eq = refl

create-Propagated_example :
    (gvr : GroupVersionResource) × (schema : String) × (digest : List ℕ) × (held : Held)
    × (u : Store) × Propagated manager (bytes_of manager held) gvr u
    × (deploy an_open_platform
          (deploy_options certified_external a_definition gvr a_definition.chart schema false)
          (held, u)
        ≡ (ok digest, created.1))
    × (created.0 ≡ with_digest digest a_definition)
create-Propagated_example =
    create-Propagated manager certified_external refl a_definition created.0 (none, no_files)
      created.1 created_eq
