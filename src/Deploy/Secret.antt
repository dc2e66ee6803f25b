-- ===== src/Deploy/Secret.antt =====
-- The role and the role binding that let the composition controller read the credentials of its
-- chart: the blocks `if opts.Spec.Credentials != nil` of Deploy, Lookup and Undeploy.
use core_provider.Base.{ℕ, List, [], ◌∷◌, Option, none, some}
use core_provider.Base.Exec.{Exec, pure, ◌>>=◌, ◌>>◌}
use core_provider.Schema.{NamespacedName, Object}
use core_provider.Kube.{ApplyOptions}
use core_provider.Objects.{Any, string_value}
use core_provider.Deployment.{Body}
use core_provider.Types.{Credentials}
use core_provider.Deploy.Names.{cdc_rbac_nn}
use core_provider.Deploy.Platform.{
  DeployOptions, Platform, create, install, fetch, remove, on_cluster, hash, rules_values,
  binding_values,
}

module _ {W : Type 0} (p : Platform W) (opts : DeployOptions) (nn : NamespacedName) where
  -- the names in the namespace of the secret
  secret_nn : Credentials → NamespacedName
  secret_nn c = cdc_rbac_nn (record { namespace = c.password_ref.namespace; name = nn.name })

  secret_role : Credentials → Exec (ℕ × W) (Object Body)
  unfolding secret_nn
  secret_role c =
      create p opts.gvr (secret_nn c) (p.files.join_path opts.rbac_folder_path "secret-role.yaml")
        (string_value "secretName" ∷ string_value c.password_ref.name ∷ [])

  secret_rolebinding : Credentials → List Any → Exec (ℕ × W) (Object Body)
  unfolding secret_nn
  secret_rolebinding c additional =
      create p opts.gvr (secret_nn c)
        (p.files.join_path opts.rbac_folder_path "secret-rolebinding.yaml") additional

  service_account : Object Body → List Any
  service_account sa =
      string_value "serviceAccount"
      ∷ string_value sa.name
      ∷ string_value "saNamespace"
      ∷ string_value sa.namespace
      ∷ []

  unfoldable pub deploy_secret_access :
      ApplyOptions → Object Body → Option Credentials → Exec (ℕ × W) (Unit {0})
  unfolding secret_role secret_rolebinding service_account
  deploy_secret_access apply_opts sa none = pure tt
  deploy_secret_access apply_opts sa (some c) = do
    role ← secret_role c
    role' ← install p apply_opts role
    hash p "error hashing role: %v" (rules_values role')
    rolebinding ← secret_rolebinding c (service_account sa)
    rolebinding' ← install p apply_opts rolebinding
    hash p "error hashing rolebinding: %v" (binding_values rolebinding')

  -- here an object that is not found is an error
  unfoldable pub lookup_secret_access : Object Body → Option Credentials → Exec (ℕ × W) (Unit {0})
  unfolding secret_role secret_rolebinding service_account
  lookup_secret_access sa none = pure tt
  lookup_secret_access sa (some c) = do
    role ← secret_role c
    role' ← fetch p role
    hash p "error hashing role: %v" (rules_values role')
    rolebinding ← secret_rolebinding c (service_account sa)
    rolebinding' ← fetch p rolebinding
    hash p "error hashing rolebinding: %v" (binding_values rolebinding')

  -- the binding is rendered without the service account
  unfoldable pub undeploy_secret_access : Option Credentials → Exec (ℕ × W) (Unit {0})
  unfolding secret_role secret_rolebinding
  undeploy_secret_access none = pure tt
  undeploy_secret_access (some c) = do
    role ← secret_role c
    on_cluster p (remove p role)
    rolebinding ← secret_rolebinding c []
    on_cluster p (remove p rolebinding)
