-- ===== src/Deploy/Uninstall.antt =====
-- Undeploy of internal/tools/deploy/deploy.go. There is no hash here: the number beside the world is
-- passed on.
use core_provider.Base.{ℕ, if◌then◌else◌}
use core_provider.Base.Exec.{Exec, pure, lift, ◌>>=◌, ◌>>◌}
use core_provider.Schema.{group_resource, Object}
use core_provider.Deployment.{Body}
use core_provider.Crd.Cluster
use core_provider.Crd.Cluster.{CrdPlatform}
use core_provider.Deploy.Platform.{UndeployOptions, Platform, credentials_of, on_cluster, remove}
use core_provider.Deploy.Rbac.{uninstall_rbac_resources}
use core_provider.Deploy.Secret.{undeploy_secret_access}
use core_provider.Deploy.Install.{
  namespaced_name, create_json_schema, create_configmap, create_deployment, create_service,
  create_rbac, if_service,
}

module _ {W : Type 0} (p : Platform W) (crds : CrdPlatform W) (opts : UndeployOptions) where
  open opts use {options}

  -- what is created from a template and uninstalled
  uninstall_made : Exec (ℕ × W) (Object Body) → Exec (ℕ × W) (Unit {0})
  uninstall_made make = do obj ← make; on_cluster p (remove p obj)

  unfoldable pub undeploy_workload : Object Body → Exec (ℕ × W) (Unit {0})
  unfolding uninstall_made
  undeploy_workload sa = do
    uninstall_made (create_json_schema p options)
    uninstall_made (create_deployment p options sa)
    uninstall_made (create_configmap p options sa)

  -- if !opts.SkipCRD { crd.Uninstall(…) }
  unfoldable pub undeploy_crd : Exec (ℕ × W) (Unit {0})
  undeploy_crd =
      if opts.skip_crd
      then pure tt
      else on_cluster p (Cluster.uninstall crds (group_resource options.gvr))

  -- the part after the RBAC resources
  unfoldable pub undeploy_rest : Exec (ℕ × W) (Unit {0})
  unfolding uninstall_made
  undeploy_rest = do
    if_service p options (uninstall_made (create_service p options))
    credentials ← lift (credentials_of options.spec)
    undeploy_secret_access p options (namespaced_name options) credentials
    undeploy_crd

  unfoldable pub undeploy_all : Exec (ℕ × W) (Unit {0})
  undeploy_all = do
    rbac ← create_rbac p options
    undeploy_workload rbac.sa
    on_cluster p (uninstall_rbac_resources p rbac)
    undeploy_rest

  -- Undeploy(ctx, kube, opts)
  unfoldable pub undeploy : Exec W (Unit {0})
  undeploy w = let (r, s) = undeploy_all (0, w) in (r, s.1)
