-- ===== src/Deploy/Install.antt =====
-- Deploy of internal/tools/deploy/deploy.go. Every call in the program gives the client `kube` twice,
-- as an argument and in the options.
use core_provider.Base.{ℕ, String, List, [], ◌∷◌, if◌then◌else◌}
use core_provider.Base.Result.{wrap}
use core_provider.Base.Exec.{Exec, pure, lift, on_error, ◌>>=◌, ◌>>◌}
use core_provider.Schema.{NamespacedName, Object}
use core_provider.Hash.{new_fnv_object_hash, get_hash}
use core_provider.Kube.{ApplyOptions}
use core_provider.Objects.{string_value}
use core_provider.Deployment.{Body, clean_from_restart_annotation, restart_deployment, is_ready}
use core_provider.Watcher.{watch_resource}
use core_provider.Deploy.Names.{
  resource_namer, cdc_configmap_nn, cdc_deployment_nn, cdc_rbac_nn, json_schema_configmap_nn,
}
use core_provider.Deploy.Platform.{
  DeployOptions, Platform, credentials_of, on_cluster, hash, create, install, name_values,
  config_values, deployment_values, service_values,
}
use core_provider.Deploy.Rbac.{RbacResources, create_rbac_resources, install_rbac_resources}
use core_provider.Deploy.Secret.{deploy_secret_access}

-- if opts.DryRunServer { applyOpts.DryRun = []string{"All"} }
unfoldable pub apply_options : DeployOptions → ApplyOptions
apply_options opts = record {
  dry_run = if opts.dry_run_server then "All" ∷ [] else [];
  field_manager = "";
  field_validation = "";
}

unfoldable pub namespaced_name : DeployOptions → NamespacedName
namespaced_name opts = record {
  namespace = opts.namespace;
  name = resource_namer opts.gvr.resource opts.gvr.version;
}

module _ {W : Type 0} (p : Platform W) (opts : DeployOptions) where
  unfoldable pub create_json_schema : Exec (ℕ × W) (Object Body)
  create_json_schema = on_error (wrap "error creating ConfigMap for JSON schema: %w") (
      create p opts.gvr (json_schema_configmap_nn (namespaced_name opts))
        opts.json_schema_template_path
        (string_value "schema" ∷ string_value opts.json_schema_bytes ∷ []))

  unfoldable pub create_configmap : Object Body → Exec (ℕ × W) (Object Body)
  create_configmap sa =
      create p opts.gvr (cdc_configmap_nn (namespaced_name opts)) opts.configmap_template_path (
        string_value "composition_controller_sa_name"
        ∷ string_value sa.name
        ∷ string_value "composition_controller_sa_namespace"
        ∷ string_value sa.namespace
        ∷ [])

  unfoldable pub create_deployment : Object Body → Exec (ℕ × W) (Object Body)
  create_deployment sa =
      create p opts.gvr (cdc_deployment_nn (namespaced_name opts)) opts.deployment_template_path
        (string_value "serviceAccountName" ∷ string_value sa.name ∷ [])

  unfoldable pub create_service : Exec (ℕ × W) (Object Body)
  create_service =
      create p opts.gvr (cdc_deployment_nn (namespaced_name opts)) opts.service_template_path []

  unfoldable pub create_rbac : Exec (ℕ × W) RbacResources
  create_rbac =
      create_rbac_resources p opts.gvr (cdc_rbac_nn (namespaced_name opts)) opts.rbac_folder_path

  -- _, err = os.Stat(opts.ServiceTemplatePath); if err == nil { … }
  unfoldable pub if_service : Exec (ℕ × W) (Unit {0}) → Exec (ℕ × W) (Unit {0})
  if_service m s =
      let done = m s in
      if p.files.file_exists opts.service_template_path s.1 then done else pure tt s

  unfoldable pub install_configmaps : ApplyOptions → Object Body → Exec (ℕ × W) (Unit {0})
  install_configmaps apply_opts sa = do
    schema ← create_json_schema
    schema' ←
        on_error (wrap "error applying ConfigMap for JSON schema: %w") (install p apply_opts schema)
    hash p "error hashing JSON schema configmap: %v" (name_values schema')
    cm ← create_configmap sa
    cm' ← install p apply_opts cm
    hash p "error hashing configmap: %v" (config_values cm')

  -- the deployment is the one that the server answered, without the time of its last restart
  unfoldable pub install_deployment : ApplyOptions → Object Body → Exec (ℕ × W) (Object Body)
  install_deployment apply_opts sa = do
    dep ← create_deployment sa
    applied ← install p apply_opts dep
    let clean = clean_from_restart_annotation applied
    hash p "error hashing deployment spec: %v" (deployment_values clean)
    pure clean

  unfoldable pub install_service : ApplyOptions → Exec (ℕ × W) (Unit {0})
  install_service apply_opts = do
    svc ← create_service
    svc' ← install p apply_opts svc
    hash p "error hashing service: %v" (service_values svc')

  unfoldable pub wait_ready : String → Object Body → Exec (ℕ × W) (Unit {0})
  wait_ready message dep =
      on_error (wrap message)
        (on_cluster p (watch_resource is_ready p.watch_deployment dep.namespace dep.name))

  -- if !opts.DryRunServer { … }
  unfoldable pub roll_out : Object Body → Exec (ℕ × W) (Unit {0})
  roll_out dep = do
    wait_ready "error waiting for deployment to be ready: %w" dep
    dep' ← on_cluster p (restart_deployment p.patch p.now dep)
    wait_ready "waiting for deployment to be ready: %w" dep'

  unfoldable pub deploy_all : Exec (ℕ × W) (List ℕ)
  deploy_all = do
    rbac ← create_rbac
    credentials ← lift (credentials_of opts.spec)
    deploy_secret_access p opts (namespaced_name opts) (apply_options opts) rbac.sa credentials
    install_rbac_resources p rbac (apply_options opts)
    install_configmaps (apply_options opts) rbac.sa
    dep ← install_deployment (apply_options opts) rbac.sa
    if_service (install_service (apply_options opts))
    if opts.dry_run_server then pure tt else roll_out dep
    (λ s. pure (get_hash s.0) s)

  -- Deploy(ctx, kube, opts)
  unfoldable pub deploy : Exec W (List ℕ)
  deploy w = let (r, s) = deploy_all (new_fnv_object_hash, w) in (r, s.1)
