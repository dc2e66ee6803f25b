-- ===== src/Deploy/Find.antt =====
-- Lookup of internal/tools/deploy/deploy.go
use core_provider.Base.{ℕ, List}
use core_provider.Base.Exec.{Exec, pure, lift, ◌>>=◌, ◌>>◌}
use core_provider.Schema.{Object}
use core_provider.Hash.{new_fnv_object_hash, get_hash}
use core_provider.Deployment.{Body, clean_from_restart_annotation}
use core_provider.Deploy.Platform.{
  DeployOptions, Platform, credentials_of, hash, fetch_or_empty, name_values, config_values,
  deployment_values, service_values,
}
use core_provider.Deploy.Rbac.{lookup_rbac_resources}
use core_provider.Deploy.Secret.{lookup_secret_access}
use core_provider.Deploy.Install.{
  namespaced_name, create_json_schema, create_configmap, create_deployment, create_service,
  create_rbac, if_service,
}

module _ {W : Type 0} (p : Platform W) (opts : DeployOptions) where
  unfoldable pub lookup_configmaps : Object Body → Exec (ℕ × W) (Unit {0})
  lookup_configmaps sa = do
    schema ← create_json_schema p opts
    schema' ← fetch_or_empty p "error fetching ConfigMap for JSON schema: %w" schema
    hash p "error hashing JSON schema configmap: %v" (name_values schema')
    cm ← create_configmap p opts sa
    cm' ← fetch_or_empty p "error fetching configmap: %w" cm
    hash p "error hashing configmap: %v" (config_values cm')

  unfoldable pub lookup_deployed : Object Body → Exec (ℕ × W) (Unit {0})
  lookup_deployed sa = do
    dep ← create_deployment p opts sa
    found ← fetch_or_empty p "error fetching deployment: %w" dep
    hash p "error hashing deployment spec: %v"
        (deployment_values (clean_from_restart_annotation found))

  unfoldable pub lookup_service : Exec (ℕ × W) (Unit {0})
  lookup_service = do
    svc ← create_service p opts
    svc' ← fetch_or_empty p "error fetching service: %w" svc
    hash p "error hashing service: %v" (service_values svc')

  unfoldable pub lookup_all : Exec (ℕ × W) (List ℕ)
  lookup_all = do
    rbac ← create_rbac p opts
    credentials ← lift (credentials_of opts.spec)
    lookup_secret_access p opts (namespaced_name opts) rbac.sa credentials
    lookup_rbac_resources p rbac
    lookup_configmaps rbac.sa
    lookup_deployed rbac.sa
    if_service p opts lookup_service
    (λ s. pure (get_hash s.0) s)

  -- Lookup(ctx, kube, opts)
  unfoldable pub lookup : Exec W (List ℕ)
  lookup w = let (r, s) = lookup_all (new_fnv_object_hash, w) in (r, s.1)
