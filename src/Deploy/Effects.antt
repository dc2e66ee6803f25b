-- ===== src/Deploy/Effects.antt =====
-- What the steps of Deploy and Lookup keep of the cluster: reading keeps it, and so does a dry run.
use core_provider.Base.{ℕ, String, List, [], ◌∷◌, ◌≡◌, refl, Bool-cases, inl, inr, arith}
use core_provider.Base.Result.{Result, ok, err}
use core_provider.Base.Exec.{Exec}
use core_provider.Base.Exec.Keeps.{Keeps, keeps_rules}
use core_provider.Retry.Attempts.{retry_do-Keeps}
use core_provider.Schema.{
  GroupVersionKind, GroupVersionResource, NamespacedName, Object, object_key,
}
use core_provider.Kube.{
  ApplyOptions, client_config, answered, with_version, apply_found, apply_once, apply, apply_to,
  get_object,
}
use core_provider.Objects.{Any, create_k8s_object}
use core_provider.Deployment.{Body}
use core_provider.Deploy.Platform.{
  DeployOptions, Platform, Value, on_cluster, hash, create, install, fetch, fetch_or_empty,
  found_or_empty,
}
use core_provider.Deploy.Rbac.{create_rbac_resources}
use core_provider.Deploy.Install.{
  create_json_schema, create_configmap, create_deployment, create_service, create_rbac,
}

module _ {W : Type 0} (p : Platform W) (P : W → Type 0) where
  -- Reading from the cluster and waiting keep `P`.
  pub record ReadsKeep : Type 0 where
    pub gets : (gvk : GroupVersionKind) (nn : NamespacedName) → Keeps P (p.client.get gvk nn)
    pub waits : (d : ℕ) → Keeps P (p.wait d)

  -- A dry run persists nothing: writes with the option "All" keep `P`.
  pub record DryRunsKeep : Type 0 where
    pub creates :
        (opts : ApplyOptions) (obj : Object Body)
        → opts.dry_run ≡ "All" ∷ []
        → Keeps P (p.client.create opts obj)
    pub updates :
        (opts : ApplyOptions) (obj : Object Body)
        → opts.dry_run ≡ "All" ∷ []
        → Keeps P (p.client.update opts obj)

  -- `P` of the world beside the hash, and beside an object
  abbrev pub Beside : {X : Type 0} → X × W → Type 0
  Beside s = P s.1

  pub on_cluster-Keeps : {A : Type 0} (m : Exec W A) → Keeps P m → Keeps Beside (on_cluster p m)
  on_cluster-Keeps m k = record { holds = λ s h. k.holds s.1 h }

  pub hash-Keeps : (m : String) (vs : List Value) → Keeps Beside (hash p m vs)
  unfolding hash
  hash-Keeps m vs = record { holds = λ s h. h }

  pub create-Keeps :
      (gvr : GroupVersionResource) (nn : NamespacedName) (path : String) (vs : List Any)
      → Keeps Beside (create p gvr nn path vs)
  unfolding create create_k8s_object
  create-Keeps gvr nn path vs = record { holds = λ s h. h }

  module _ (reads : ReadsKeep) where
    pub fetch-Keeps : (obj : Object Body) → Keeps Beside (fetch p obj)
    unfolding fetch get_object
    fetch-Keeps obj = record { holds = λ s h. (reads.gets obj.gvk (object_key obj)).holds s.1 h }

    found_or_empty-world :
        (m : String) (o : Result (Object Body) × (ℕ × W)) → (found_or_empty p m o).1 ≡ o.1
    unfolding found_or_empty
    found_or_empty-world m (ok o, s) = refl
    found_or_empty-world m (err e, s) = ground arith

    pub fetch_or_empty-Keeps :
        (m : String) (obj : Object Body) → Keeps Beside (fetch_or_empty p m obj)
    unfolding fetch_or_empty
    fetch_or_empty-Keeps m obj = record {
      holds = λ s h. rw (found_or_empty-world m (fetch p obj s)) ((fetch-Keeps obj).holds s h);
    }

    answered-world : (obj : Object Body) (o : Result (Object Body) × W) → (answered obj o).1.1 ≡ o.1
    answered-world obj (ok x, w) = refl
    answered-world obj (err e, w) = refl

    module _ (writes : DryRunsKeep) (opts : ApplyOptions) (dry : opts.dry_run ≡ "All" ∷ []) where
      apply_found-keeps :
          (obj : Object Body) (o : Result (Object Body) × W)
          → P o.1
          → P (apply_found p.client p.api p.wait opts obj o).1.1
      apply_found-keeps obj (ok tmp, w) h =
          let obj' = with_version tmp.resource_version obj in
          rw (answered-world obj' (p.client.update opts obj' w))
            ((writes.updates opts obj' dry).holds w h)
      apply_found-keeps obj (err e, w) h = elim (Bool-cases (p.api.is_not_found e)) [
        | inl gone ↦
            rw (gone, answered-world obj (p.client.create opts obj w))
              ((writes.creates opts obj dry).holds w h)
        | inr other ↦ rw other h
      ]

      apply_once-Keeps : Keeps Beside (apply_once p.client p.api p.wait opts)
      unfolding apply_once
      apply_once-Keeps = record {
        holds = λ s h.
            apply_found-keeps s.0 (p.client.get s.0.gvk (object_key s.0) s.1)
              ((reads.gets s.0.gvk (object_key s.0)).holds s.1 h);
      }

      apply-Keeps : Keeps Beside (apply p.client p.api p.wait opts)
      unfolding apply
      apply-Keeps =
          retry_do-Keeps (client_config p.wait (Object Body))
            (apply_once p.client p.api p.wait opts) Beside apply_once-Keeps
            (λ d. record { holds = λ s h. (reads.waits d).holds s.1 h }) (λ n d e s h. h)

      pub install-Keeps : (obj : Object Body) → Keeps Beside (install p opts obj)
      unfolding install apply_to
      install-Keeps obj = record { holds = λ s h. apply-Keeps.holds (obj, s.1) h }

  pub create_rbac-Keeps : (opts : DeployOptions) → Keeps Beside (create_rbac p opts)
  unfolding create_rbac create_rbac_resources
  create_rbac-Keeps opts = search (keeps_rules, create-Keeps) depth 14

  module _ (opts : DeployOptions) where
    pub create_json_schema-Keeps : Keeps Beside (create_json_schema p opts)
    unfolding create_json_schema
    create_json_schema-Keeps = search (keeps_rules, create-Keeps)

    pub create_configmap-Keeps : (sa : Object Body) → Keeps Beside (create_configmap p opts sa)
    unfolding create_configmap
    create_configmap-Keeps sa = create-Keeps _ _ _ _

    pub create_deployment-Keeps : (sa : Object Body) → Keeps Beside (create_deployment p opts sa)
    unfolding create_deployment
    create_deployment-Keeps sa = create-Keeps _ _ _ _

    pub create_service-Keeps : Keeps Beside (create_service p opts)
    unfolding create_service
    create_service-Keeps = create-Keeps _ _ _ _
