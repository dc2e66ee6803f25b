-- ===== src/Deploy/Rbac.antt =====
-- createRBACResources, installRBACResources, lookupRBACResources and uninstallRBACResources. The hash is
-- never nil here, which two of them test for.
use core_provider.Base.{ℕ, String, [], ◌∷◌}
use core_provider.Base.Exec.{Exec, pure, ◌>>=◌, ◌>>◌}
use core_provider.Schema.{GroupVersionResource, NamespacedName, Object}
use core_provider.Kube.{ApplyOptions}
use core_provider.Objects.{string_value}
use core_provider.Deployment.{Body}
use core_provider.Deploy.Platform.{
  Platform, create, install, fetch_or_empty, remove, hash, name_values, rules_values,
  binding_values,
}

pub record RbacResources : Type 0 where
  pub sa : Object Body
  pub clusterrole : Object Body
  pub clusterrolebinding : Object Body
  pub role : Object Body
  pub rolebinding : Object Body

module _ {W : Type 0} (p : Platform W) where
  unfoldable pub create_rbac_resources :
      GroupVersionResource → NamespacedName → String → Exec (ℕ × W) RbacResources
  create_rbac_resources gvr nn folder = do
    sa ← create p gvr nn (p.files.join_path folder "serviceaccount.yaml") []
    clusterrole ← create p gvr nn (p.files.join_path folder "clusterrole.yaml") []
    let account =
        string_value "serviceAccount"
        ∷ string_value sa.name
        ∷ string_value "saNamespace"
        ∷ string_value sa.namespace
        ∷ []
    clusterrolebinding ←
        create p gvr nn (p.files.join_path folder "clusterrolebinding.yaml") account
    role ← create p gvr nn (p.files.join_path folder "compositiondefinition-role.yaml") []
    rolebinding ←
        create p gvr nn (p.files.join_path folder "compositiondefinition-rolebinding.yaml") account
    pure (record {
      sa = sa;
      clusterrole = clusterrole;
      clusterrolebinding = clusterrolebinding;
      role = role;
      rolebinding = rolebinding;
    })

  unfoldable pub install_rbac_resources : RbacResources → ApplyOptions → Exec (ℕ × W) (Unit {0})
  install_rbac_resources r opts = do
    clusterrole ← install p opts r.clusterrole
    hash p "error hashing clusterrole: %v" (rules_values clusterrole)
    clusterrolebinding ← install p opts r.clusterrolebinding
    hash p "error hashing clusterrolebinding: %v" (binding_values clusterrolebinding)
    role ← install p opts r.role
    hash p "error hashing role: %v" (rules_values role)
    rolebinding ← install p opts r.rolebinding
    hash p "error hashing rolebinding: %v" (binding_values rolebinding)
    sa ← install p opts r.sa
    hash p "error hashing serviceaccount: %v" (name_values sa)

  unfoldable pub lookup_rbac_resources : RbacResources → Exec (ℕ × W) (Unit {0})
  lookup_rbac_resources r = do
    clusterrole ← fetch_or_empty p "error getting clusterrole: %w" r.clusterrole
    hash p "error hashing clusterrole: %v" (rules_values clusterrole)
    clusterrolebinding ←
        fetch_or_empty p "error getting clusterrolebinding: %w" r.clusterrolebinding
    hash p "error hashing clusterrolebinding: %v" (binding_values clusterrolebinding)
    role ← fetch_or_empty p "error getting role: %w" r.role
    hash p "error hashing role: %v" (rules_values role)
    rolebinding ← fetch_or_empty p "error getting rolebinding: %w" r.rolebinding
    hash p "error hashing rolebinding: %v" (binding_values rolebinding)
    sa ← fetch_or_empty p "error getting serviceaccount: %w" r.sa
    hash p "error hashing serviceaccount: %v" (name_values sa)

  unfoldable pub uninstall_rbac_resources : RbacResources → Exec W (Unit {0})
  uninstall_rbac_resources r = do
    remove p r.clusterrole
    remove p r.clusterrolebinding
    remove p r.role
    remove p r.rolebinding
    remove p r.sa
