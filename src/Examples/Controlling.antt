-- ===== src/Examples/Controlling.antt =====
-- The methods of the controller on a concrete cluster, on which the definition's CRD is installed.
use core_provider.Base.{
  ℕ, String, List, [], ◌∷◌, Option, none, some, Bool, true, false, ◌≡◌, refl, arith,
}
use core_provider.Base.Result.{Result, ok, err}
use core_provider.Base.Exec.{Exec, on_error, beside, ◌>>=◌}
use core_provider.Schema.{GroupVersionKind, Object}
use core_provider.Types.{CompositionDefinition}
use core_provider.Kube.{Client}
use core_provider.Crd.{Crd}
use core_provider.Crd.Cluster.{CrdPlatform}
use core_provider.Crd.Generated.{Crdgen}
use core_provider.Composition.{Compositions}
use core_provider.Chart.{Charts, yaml_string}
use core_provider.Deployment.{Body}
use core_provider.Deploy.Install.{deploy}
use core_provider.Types.{ChartInfo}
use core_provider.Crd.Cluster.{Applied}
use core_provider.Status.{refresh_composition_definition_status}
use core_provider.Deploy.Platform.{Platform}
use core_provider.Controller.{
  CertManagerInterface, External, deploy_options, with_digest, with_condition,
}
use core_provider.Controller.Apply.{create, update}
use core_provider.Controller.Apply.Installed.{Installed, ReadByCreate, create-ok}
use core_provider.Controller.Apply.Replaced.{Replaced, update-ok}
use core_provider.Controller.Apply.Inputs.{ReadByUpdate}
use core_provider.Controller.Delete.{delete}
use core_provider.Controller.Delete.Order.{Deleted, delete-ok}
use core_provider.Controller.Observe.{observe, up_to_date}
use core_provider.Controller.Observe.Reads.{ObserveKeeps, observe-keeps}
use core_provider.Controller.Observe.Agreement.{UpToDate, observe-up_to_date}
use core_provider.Examples.Fixtures.{
  api_errors, a_wait, an_object, a_platform, a_gvr, an_empty_client, a_crd_platform,
}
use core_provider.Examples.Crds.{a_crd, a_version, a_definition}

abbrev Objects : Type 0
Objects = List (Object Body)

abbrev installed_crd : Object Crd
installed_crd = record {
  gvk = record {
    group = "apiextensions.k8s.io";
    version = "v1";
    kind = "CustomResourceDefinition";
  };
  namespace = "";
  name = "fireworks.composition.krateo.io";
  resource_version = "1";
  body = a_crd (a_version "v1-0-0" "{}" ∷ []);
}

-- An archive has nothing inside but what these functions say.
abbrev one_chart : {W : Type 0} → Charts W (Unit {0})
one_chart = record {
  api = api_errors;
  wait = a_wait;
  secret = λ nn w. (ok [], w);
  download = λ url opts w. (ok (record { reader = some (ok (1 ∷ [])); url = url }), w);
  new_archive = λ bytes. ok tt;
  read_root = λ a. ("fireworks", true) ∷ [];
  read_file = λ a path. ok "{}";
  unmarshal =
      λ text. ok (("version", yaml_string "1.0.0") ∷ ("name", yaml_string "fireworks") ∷ []);
  replace_all = λ s old new. "1-0-0";
  go_name = λ s. "Fireworks";
}

abbrev pub installed_crds : {W : Type 0} → CrdPlatform W
installed_crds {W} = record (a_crd_platform {W = W}) {
  client = record an_empty_client { get = λ gvk nn w. (ok installed_crd, w) };
}

abbrev no_compositions : {W : Type 0} → Compositions W (Object Body)
no_compositions = record {
  api = api_errors;
  wait = a_wait;
  selector = λ k v. ok v;
  list = λ gvr s w. (ok [], w);
  get = λ gvr namespace name w. (ok (an_object name), w);
  update = λ gvr namespace c w. (ok c, w);
  namespace_of = λ c. c.namespace;
  name_of = λ c. c.name;
  nested_labels = λ c. ok none;
  set_nested_labels = λ m c. ok c;
}

abbrev pub external_on :
    {W : Type 0} → Platform W → CertManagerInterface W → External W (Unit {0}) Body
external_on platform certificates = record {
  charts = one_chart;
  crds = installed_crds;
  crdgen = record {
    generate = λ gvk spec status. ok "crd";
    decode = λ text. ok installed_crd;
    status_json_schema = "{}";
    empty_json_schema = "{}";
  };
  deploys = platform;
  compositions = no_compositions;
  composition_client = an_empty_client;
  gvk_to_gvr = λ gvk w. (ok a_gvr, w);
  certificates = certificates;
  list_definitions = λ w. (ok (a_definition ∷ []), w);
  update_definition = λ cd w. (ok cd, w);
  parse_kind = λ api kind. record {
    group = "composition.krateo.io";
    version = "v1-0-0";
    kind = "Fireworks";
  };
  to_api_version = λ gvk. "composition.krateo.io/v1-0-0";
  temp_path = λ p. p;
}

abbrev external : External Objects (Unit {0}) Body
external = external_on a_platform (record {
  manage_certificates = λ gvr w. (ok tt, w);
  ca_bundle = λ w. some (1 ∷ []);
  service_name = "core-provider";
  service_namespace = "krateo-system";
})

abbrev one_object : Objects
one_object = an_object "a" ∷ []

-- the digest of the deployment in this cluster
abbrev digest_of : Result (List ℕ) → List ℕ
digest_of (ok d) = d
digest_of (err e) = []

rendered : List ℕ
rendered =
    digest_of
      (deploy external.deploys
        (deploy_options external a_definition a_gvr a_definition.chart "{}" true) one_object).0

abbrev deployed_definition : CompositionDefinition
deployed_definition =
    with_digest
      (99 ∷ 98 ∷ 102 ∷ 50 ∷ 57 ∷ 99 ∷ 101 ∷ 52 ∷ 56 ∷ 52 ∷ 50 ∷ 50 ∷ 50 ∷ 51 ∷ 50 ∷ 53 ∷ [])
      a_definition

observed : CompositionDefinition
observed = (observe external (deployed_definition, one_object)).1.0

observed_eq :
    observe external (deployed_definition, one_object) ≡ (ok up_to_date, (observed, one_object))
unfolding core_provider.Base.Exec.beside core_provider.Base.Exec.on_error ◌>>=◌
    core_provider.Base.codes_eq core_provider.Chart.chart_bytes
    core_provider.Chart.chart_bytes_with_retry core_provider.Chart.Retries.chart_config
    core_provider.Chart.chart_group_version_kind core_provider.Chart.chart_info_from_bytes
    core_provider.Chart.chart_info_from_spec core_provider.Chart.chart_json_schema
    core_provider.Chart.directories core_provider.Chart.for_spec core_provider.Chart.from_reader
    core_provider.Chart.getter_options core_provider.Chart.yaml_text
    core_provider.Composition.api_config core_provider.Composition.get_compositions
    core_provider.Controller.Observe.compare_digests core_provider.Controller.Observe.conclude
    core_provider.Controller.Observe.observe core_provider.Controller.Observe.observe_deployed
    core_provider.Controller.Observe.observe_resolved
    core_provider.Controller.Observe.observe_resource
    core_provider.Controller.Observe.observe_version core_provider.Controller.Observe.read_chart
    core_provider.Controller.Observe.resolve core_provider.Controller.change_definition
    core_provider.Controller.chart_of core_provider.Controller.deploy_options
    core_provider.Crd.Cluster.get core_provider.Crd.Cluster.lookup
    core_provider.Crd.Generated.generate_bytes core_provider.Crd.Generated.generate_crd
    core_provider.Crd.Generation.has_version core_provider.Crd.Generation.status_digest
    core_provider.Crd.Generation.status_equal core_provider.Crd.lookup
    core_provider.Deploy.Find.lookup core_provider.Deploy.Find.lookup_all
    core_provider.Deploy.Find.lookup_configmaps core_provider.Deploy.Find.lookup_deployed
    core_provider.Deploy.Find.lookup_service core_provider.Deploy.Install.apply_options
    core_provider.Deploy.Install.create_configmap core_provider.Deploy.Install.create_deployment
    core_provider.Deploy.Install.create_json_schema core_provider.Deploy.Install.create_rbac
    core_provider.Deploy.Install.create_service core_provider.Deploy.Install.deploy
    core_provider.Deploy.Install.deploy_all core_provider.Deploy.Install.if_service
    core_provider.Deploy.Install.install_configmaps core_provider.Deploy.Install.install_deployment
    core_provider.Deploy.Install.install_service core_provider.Deploy.Install.namespaced_name
    core_provider.Deploy.Names.cdc_configmap_nn core_provider.Deploy.Names.cdc_deployment_nn
    core_provider.Deploy.Names.cdc_rbac_nn core_provider.Deploy.Names.json_schema_configmap_nn
    core_provider.Deploy.Names.resource_namer core_provider.Deploy.Platform.create
    core_provider.Deploy.Platform.credentials_of core_provider.Deploy.Platform.fetch_or_empty
    core_provider.Deploy.Platform.hash core_provider.Deploy.Platform.install
    core_provider.Deploy.Rbac.create_rbac_resources core_provider.Deploy.Rbac.install_rbac_resources
    core_provider.Deploy.Rbac.lookup_rbac_resources core_provider.Deploy.Secret.deploy_secret_access
    core_provider.Deploy.Secret.lookup_secret_access core_provider.Hash.get_hash
    core_provider.Hash.new_fnv_object_hash core_provider.Hash.sum_hash core_provider.Hash.write
    core_provider.Kube.apply core_provider.Kube.apply_once core_provider.Kube.apply_to
    core_provider.Kube.get_object core_provider.Objects.create_k8s_object core_provider.Objects.put
    core_provider.Retry.retry_do observed core_provider.Objects.value_of
observed_eq = refl

observe-up_to_date_example : UpToDate external deployed_definition observed one_object one_object
observe-up_to_date_example =
    observe-up_to_date external deployed_definition observed one_object one_object observed_eq

-- The cluster is still what it was.
abbrev IsUntouched : Objects → Type 0
IsUntouched w = w ≡ one_object

reads_only : ObserveKeeps external IsUntouched
reads_only = record {
  deployed = record {
    gets = λ gvk nn. record { holds = λ s h. h };
    waits = λ d. record { holds = λ s h. h };
  };
  dry_runs = record {
    creates = λ opts obj dry. record { holds = λ s h. ground arith };
    updates = λ opts obj dry. record { holds = λ s h. ground arith };
  };
  registers = record { holds = λ s h. h };
  crds = λ gvk nn. record { holds = λ s h. h };
  secrets = λ nn. record { holds = λ s h. h };
  downloads = λ url opts. record { holds = λ s h. h };
  waits = λ d. record { holds = λ s h. h };
  plurals = λ gvk. record { holds = λ s h. h };
  lists = λ gvr s. record { holds = λ s h. h };
}

observe-keeps_example : IsUntouched (observe external (deployed_definition, one_object)).1.1
observe-keeps_example =
    observe-keeps external IsUntouched reads_only (deployed_definition, one_object) refl

created : CompositionDefinition × Objects
created = (create external (a_definition, one_object)).1

created_eq : create external (a_definition, one_object) ≡ (ok tt, created)
unfolding core_provider.Base.Exec.beside core_provider.Base.Exec.on_error ◌>>=◌
    core_provider.Base.codes_eq core_provider.Base.Result.is_canceled
    core_provider.Base.Result.is_deadline_exceeded core_provider.Base.Result.is_transient_net
    core_provider.Chart.chart_bytes core_provider.Chart.chart_bytes_with_retry
    core_provider.Chart.Retries.chart_config core_provider.Chart.chart_group_version_kind
    core_provider.Chart.chart_info_from_bytes core_provider.Chart.chart_info_from_spec
    core_provider.Chart.chart_json_schema core_provider.Chart.get_secret
    core_provider.Chart.getter_options core_provider.Chart.secret_value
    core_provider.Chart.yaml_text core_provider.Composition.api_config
    core_provider.Composition.has_permanent_code core_provider.Composition.is_non_retryable_error
    core_provider.Composition.is_retryable_error core_provider.Controller.Apply.apply_crd
    core_provider.Controller.Apply.apply_definition core_provider.Controller.Apply.create
    core_provider.Controller.Apply.create_chart core_provider.Controller.Apply.create_world
    core_provider.Controller.apply_opts core_provider.Controller.change_definition
    core_provider.Controller.deploy_options core_provider.Crd.Cluster.add_version
    core_provider.Crd.Cluster.apply_crd core_provider.Crd.Cluster.apply_first
    core_provider.Crd.Cluster.apply_or_update_crd core_provider.Crd.Cluster.check_webhook
    core_provider.Crd.Cluster.create_crd core_provider.Crd.Cluster.create_or_update
    core_provider.Crd.Cluster.get core_provider.Crd.Cluster.inject_conversion_conf_to_crd
    core_provider.Crd.Cluster.is_ready core_provider.Crd.Cluster.refresh_status
    core_provider.Crd.Cluster.update_crd core_provider.Crd.Cluster.wait_established
    core_provider.Crd.Generated.generate_bytes core_provider.Crd.Generated.generate_crd
    core_provider.Crd.Generation.append_all core_provider.Crd.Generation.append_one
    core_provider.Crd.Generation.append_version core_provider.Crd.Generation.first_status
    core_provider.Crd.Generation.gvk_exists core_provider.Crd.Generation.has_version
    core_provider.Crd.Generation.set_served_storage core_provider.Crd.Generation.set_statuses
    core_provider.Crd.Generation.status_digest core_provider.Crd.Generation.status_equal
    core_provider.Crd.Generation.update_status core_provider.Crd.insert core_provider.Crd.lookup
    core_provider.Deploy.Install.apply_options core_provider.Deploy.Install.create_configmap
    core_provider.Deploy.Install.create_deployment core_provider.Deploy.Install.create_json_schema
    core_provider.Deploy.Install.create_rbac core_provider.Deploy.Install.create_service
    core_provider.Deploy.Install.deploy core_provider.Deploy.Install.deploy_all
    core_provider.Deploy.Install.if_service core_provider.Deploy.Install.install_configmaps
    core_provider.Deploy.Install.install_deployment core_provider.Deploy.Install.install_service
    core_provider.Deploy.Install.namespaced_name core_provider.Deploy.Install.roll_out
    core_provider.Deploy.Install.wait_ready core_provider.Deploy.Names.cdc_configmap_nn
    core_provider.Deploy.Names.cdc_deployment_nn core_provider.Deploy.Names.cdc_rbac_nn
    core_provider.Deploy.Names.json_schema_configmap_nn core_provider.Deploy.Names.resource_namer
    core_provider.Deploy.Platform.create core_provider.Deploy.Platform.credentials_of
    core_provider.Deploy.Platform.hash core_provider.Deploy.Platform.install
    core_provider.Deploy.Rbac.create_rbac_resources core_provider.Deploy.Rbac.install_rbac_resources
    core_provider.Deploy.Secret.deploy_secret_access core_provider.Deployment.annotate
    core_provider.Deployment.clean_from_restart_annotation core_provider.Deployment.is_ready
    core_provider.Deployment.remove_annotation core_provider.Deployment.restart_deployment
    core_provider.Deployment.restarted core_provider.Hash.get_hash core_provider.Hash.hex_loop
    core_provider.Hash.new_fnv_object_hash core_provider.Hash.sum_hash core_provider.Hash.write
    core_provider.Kube.apply core_provider.Kube.apply_once core_provider.Kube.apply_to
    core_provider.Kube.is_retryable_client_error core_provider.Objects.add_pairs
    core_provider.Objects.create_k8s_object core_provider.Objects.in_pairs core_provider.Objects.put
    core_provider.Objects.template_values core_provider.Retry.delay
    core_provider.Retry.effective_attempts core_provider.Retry.retry_do
    core_provider.Retry.retry_loop core_provider.Watcher.watch_loop
    core_provider.Watcher.watch_resource core_provider.Objects.value_of created
created_eq = refl

create-ok_example :
    (gvk : GroupVersionKind) × (schema : String) × (applied : Applied external.crds)
    × (digest : List ℕ) × (v : Objects) × ReadByCreate external a_definition gvk schema one_object v
    × Installed external a_definition gvk schema applied digest v created.1
    × (created.0 ≡ with_digest digest a_definition)
create-ok_example = create-ok external a_definition created.0 one_object created.1 created_eq

updated : CompositionDefinition × Objects
updated = (update external (a_definition, one_object)).1

updated_eq : update external (a_definition, one_object) ≡ (ok tt, updated)
unfolding core_provider.Base.Exec.beside core_provider.Base.Exec.on_error ◌>>=◌
    core_provider.Base.codes_eq core_provider.Base.Result.is_canceled
    core_provider.Base.Result.is_deadline_exceeded core_provider.Base.Result.is_transient_net
    core_provider.Chart.chart_bytes core_provider.Chart.chart_bytes_with_retry
    core_provider.Chart.Retries.chart_config core_provider.Chart.chart_group_version_kind
    core_provider.Chart.chart_info_from_bytes core_provider.Chart.chart_info_from_spec
    core_provider.Chart.chart_json_schema core_provider.Chart.directories
    core_provider.Chart.for_spec core_provider.Chart.from_reader core_provider.Chart.get_secret
    core_provider.Chart.getter_options core_provider.Chart.secret_value
    core_provider.Chart.yaml_text core_provider.Composition.api_config
    core_provider.Composition.get_compositions core_provider.Composition.get_compositions_with_retry
    core_provider.Composition.has_permanent_code core_provider.Composition.is_non_retryable_error
    core_provider.Composition.is_retryable_error core_provider.Composition.label
    core_provider.Composition.labels_of core_provider.Composition.relabel
    core_provider.Composition.set_label core_provider.Composition.update_composition
    core_provider.Composition.update_composition_with_retry
    core_provider.Composition.update_compositions_version core_provider.Composition.update_each
    core_provider.Composition.update_found core_provider.Composition.updated
    core_provider.Controller.Apply.apply_crd core_provider.Controller.Apply.apply_definition
    core_provider.Controller.Apply.move_compositions core_provider.Controller.Apply.old_gvr
    core_provider.Controller.Apply.same_kind core_provider.Controller.Apply.undeploy_old
    core_provider.Controller.Apply.update core_provider.Controller.Apply.update_after
    core_provider.Controller.Apply.update_chart core_provider.Controller.Apply.update_world
    core_provider.Controller.apply_opts core_provider.Controller.change_definition
    core_provider.Controller.chart_of core_provider.Controller.deploy_options
    core_provider.Crd.Cluster.add_version core_provider.Crd.Cluster.apply_crd
    core_provider.Crd.Cluster.apply_first core_provider.Crd.Cluster.apply_or_update_crd
    core_provider.Crd.Cluster.check_webhook core_provider.Crd.Cluster.create_crd
    core_provider.Crd.Cluster.create_or_update core_provider.Crd.Cluster.get
    core_provider.Crd.Cluster.inject_conversion_conf_to_crd core_provider.Crd.Cluster.is_ready
    core_provider.Crd.Cluster.is_retryable_crd_error core_provider.Crd.Cluster.refresh_status
    core_provider.Crd.Cluster.uninstall core_provider.Crd.Cluster.uninstall_once
    core_provider.Crd.Cluster.update_crd core_provider.Crd.Cluster.wait_established
    core_provider.Crd.Generated.generate_bytes core_provider.Crd.Generated.generate_crd
    core_provider.Crd.Generation.append_all core_provider.Crd.Generation.append_one
    core_provider.Crd.Generation.append_version core_provider.Crd.Generation.first_status
    core_provider.Crd.Generation.gvk_exists core_provider.Crd.Generation.has_version
    core_provider.Crd.Generation.set_served_storage core_provider.Crd.Generation.set_statuses
    core_provider.Crd.Generation.status_digest core_provider.Crd.Generation.status_equal
    core_provider.Crd.Generation.update_status core_provider.Crd.insert core_provider.Crd.lookup
    core_provider.Deploy.Install.apply_options core_provider.Deploy.Install.create_configmap
    core_provider.Deploy.Install.create_deployment core_provider.Deploy.Install.create_json_schema
    core_provider.Deploy.Install.create_rbac core_provider.Deploy.Install.create_service
    core_provider.Deploy.Install.deploy core_provider.Deploy.Install.deploy_all
    core_provider.Deploy.Install.if_service core_provider.Deploy.Install.install_configmaps
    core_provider.Deploy.Install.install_deployment core_provider.Deploy.Install.install_service
    core_provider.Deploy.Install.namespaced_name core_provider.Deploy.Install.roll_out
    core_provider.Deploy.Install.wait_ready core_provider.Deploy.Names.cdc_configmap_nn
    core_provider.Deploy.Names.cdc_deployment_nn core_provider.Deploy.Names.cdc_rbac_nn
    core_provider.Deploy.Names.json_schema_configmap_nn core_provider.Deploy.Names.resource_namer
    core_provider.Deploy.Platform.create core_provider.Deploy.Platform.credentials_of
    core_provider.Deploy.Platform.hash core_provider.Deploy.Platform.install
    core_provider.Deploy.Platform.remove core_provider.Deploy.Rbac.create_rbac_resources
    core_provider.Deploy.Rbac.install_rbac_resources
    core_provider.Deploy.Rbac.uninstall_rbac_resources
    core_provider.Deploy.Secret.deploy_secret_access
    core_provider.Deploy.Secret.undeploy_secret_access core_provider.Deploy.Uninstall.undeploy
    core_provider.Deploy.Uninstall.undeploy_all core_provider.Deploy.Uninstall.undeploy_crd
    core_provider.Deploy.Uninstall.undeploy_rest core_provider.Deploy.Uninstall.undeploy_workload
    core_provider.Deployment.annotate core_provider.Deployment.clean_from_restart_annotation
    core_provider.Deployment.is_ready core_provider.Deployment.remove_annotation
    core_provider.Deployment.restart_deployment core_provider.Deployment.restarted
    core_provider.Hash.get_hash core_provider.Hash.hex_loop core_provider.Hash.new_fnv_object_hash
    core_provider.Hash.sum_hash core_provider.Hash.write core_provider.Kube.apply
    core_provider.Kube.apply_once core_provider.Kube.apply_to
    core_provider.Kube.is_retryable_client_error core_provider.Kube.uninstall
    core_provider.Kube.uninstall_of core_provider.Kube.uninstall_once
    core_provider.Objects.add_pairs core_provider.Objects.create_k8s_object
    core_provider.Objects.in_pairs core_provider.Objects.put core_provider.Objects.template_values
    core_provider.Retry.delay core_provider.Retry.effective_attempts core_provider.Retry.retry_do
    core_provider.Retry.retry_loop core_provider.Status.detail_of core_provider.Status.new_detail
    core_provider.Status.refresh_composition_definition_status
    core_provider.Status.set_served_stored core_provider.Status.update_version_info
    core_provider.Status.update_version_one core_provider.Status.update_versions
    core_provider.Watcher.watch_loop core_provider.Watcher.watch_resource
    core_provider.Objects.value_of updated
updated_eq = refl

update-ok_example :
    (gvk : GroupVersionKind) × (schema url : String) × (applied : Applied external.crds)
    × (digest : List ℕ) × (chart : ChartInfo) × (v u : Objects) × ReadByUpdate external a_definition
        gvk schema url one_object v
    × Installed external a_definition gvk schema applied digest v u
    × Replaced external (with_digest digest a_definition) gvk u updated.1
    × (a_definition.chart ≡ some chart)
    × (updated.0
        ≡ refresh_composition_definition_status external.to_api_version chart
            (with_digest digest a_definition)
            applied.1.body
            applied.0
            gvk
            url)
update-ok_example = update-ok external a_definition updated.0 one_object updated.1 updated_eq

deleted : CompositionDefinition × Objects
deleted = (delete external (a_definition, one_object)).1

deleted_eq : delete external (a_definition, one_object) ≡ (ok tt, deleted)
unfolding core_provider.Base.Exec.beside core_provider.Base.Exec.on_error ◌>>=◌
    core_provider.Base.Result.is_canceled core_provider.Base.Result.is_deadline_exceeded
    core_provider.Base.Result.is_transient_net core_provider.Chart.chart_bytes
    core_provider.Chart.chart_bytes_with_retry core_provider.Chart.Retries.chart_config
    core_provider.Chart.chart_group_version_kind core_provider.Chart.chart_info_from_bytes
    core_provider.Chart.chart_info_from_spec core_provider.Chart.get_secret
    core_provider.Chart.getter_options core_provider.Chart.secret_value
    core_provider.Chart.yaml_text core_provider.Composition.api_config
    core_provider.Composition.get_composition_definitions
    core_provider.Composition.get_composition_definitions_with_version
    core_provider.Composition.get_compositions core_provider.Composition.has_permanent_code
    core_provider.Composition.is_non_retryable_error core_provider.Composition.is_retryable_error
    core_provider.Composition.label core_provider.Composition.of_group_kind
    core_provider.Composition.of_group_version_kind core_provider.Controller.Delete.delete
    core_provider.Controller.Delete.delete_compositions
    core_provider.Controller.Delete.delete_deployment
    core_provider.Controller.Delete.delete_existing core_provider.Controller.Delete.delete_resolved
    core_provider.Controller.Delete.delete_versions core_provider.Controller.Delete.delete_world
    core_provider.Controller.Delete.uninstall_each core_provider.Controller.change_definition
    core_provider.Controller.deploy_options core_provider.Crd.Cluster.get
    core_provider.Crd.Cluster.is_retryable_crd_error core_provider.Crd.Cluster.uninstall
    core_provider.Crd.Cluster.uninstall_once core_provider.Deploy.Install.create_configmap
    core_provider.Deploy.Install.create_deployment core_provider.Deploy.Install.create_json_schema
    core_provider.Deploy.Install.create_rbac core_provider.Deploy.Install.create_service
    core_provider.Deploy.Install.if_service core_provider.Deploy.Install.namespaced_name
    core_provider.Deploy.Names.cdc_configmap_nn core_provider.Deploy.Names.cdc_deployment_nn
    core_provider.Deploy.Names.cdc_rbac_nn core_provider.Deploy.Names.json_schema_configmap_nn
    core_provider.Deploy.Names.resource_namer core_provider.Deploy.Platform.create
    core_provider.Deploy.Platform.credentials_of core_provider.Deploy.Platform.remove
    core_provider.Deploy.Rbac.create_rbac_resources
    core_provider.Deploy.Rbac.uninstall_rbac_resources
    core_provider.Deploy.Secret.undeploy_secret_access core_provider.Deploy.Uninstall.undeploy
    core_provider.Deploy.Uninstall.undeploy_all core_provider.Deploy.Uninstall.undeploy_crd
    core_provider.Deploy.Uninstall.undeploy_rest core_provider.Deploy.Uninstall.undeploy_workload
    core_provider.Kube.is_retryable_client_error core_provider.Kube.uninstall
    core_provider.Kube.uninstall_of core_provider.Kube.uninstall_once
    core_provider.Objects.add_pairs core_provider.Objects.create_k8s_object
    core_provider.Objects.in_pairs core_provider.Objects.put core_provider.Objects.template_values
    core_provider.Retry.delay core_provider.Retry.effective_attempts core_provider.Retry.retry_do
    core_provider.Retry.retry_loop core_provider.Objects.value_of deleted
deleted_eq = refl

delete-ok_example :
    (deleted.0 ≡ with_condition "Deleting" a_definition)
    × Deleted external a_definition one_object deleted.1
delete-ok_example = delete-ok external a_definition deleted.0 one_object deleted.1 deleted_eq
