-- ===== src/Deploy/DryRun.antt =====
-- Deploy in dry-run mode and Lookup leave the cluster as it was.
use core_provider.Base.{
  ℕ, [], ◌∷◌, true, Option, none, some, ◌≡◌, Bool-cases, inl, inr, if◌then◌else◌,
}
use core_provider.Base.Exec.{Exec, pure}
use core_provider.Base.Exec.Keeps.{Keeps, Keeps-pure, keeps_rules}
use core_provider.Schema.{NamespacedName, Object}
use core_provider.Types.{Credentials}
use core_provider.Deployment.{Body}
use core_provider.Hash.{new_fnv_object_hash, get_hash}
use core_provider.Deploy.Platform.{DeployOptions, Platform, install}
use core_provider.Deploy.Rbac.{RbacResources, install_rbac_resources, lookup_rbac_resources}
use core_provider.Deploy.Secret.{deploy_secret_access, lookup_secret_access}
use core_provider.Deploy.Install.{
  apply_options, namespaced_name, if_service, install_configmaps, install_deployment,
  install_service, roll_out, deploy_all, deploy,
}
use core_provider.Deploy.Find.{
  lookup_configmaps, lookup_deployed, lookup_service, lookup_all, lookup,
}
use core_provider.Deploy.Effects.{
  ReadsKeep, DryRunsKeep, Beside, hash-Keeps, create-Keeps, fetch-Keeps, fetch_or_empty-Keeps,
  install-Keeps, create_rbac-Keeps, create_json_schema-Keeps, create_configmap-Keeps,
  create_deployment-Keeps, create_service-Keeps,
}

module _ {W : Type 0} (p : Platform W) (P : W → Type 0) (reads : ReadsKeep p P)
    (opts : DeployOptions) where
  abbrev nn : NamespacedName
  nn = namespaced_name opts

  if_service-Keeps :
      (m : Exec (ℕ × W) (Unit {0}))
      → Keeps (Beside p P) m
      → Keeps (Beside p P) (if_service p opts m)
  unfolding if_service
  if_service-Keeps m k = record {
    holds = λ s h. elim (Bool-cases (p.files.file_exists opts.service_template_path s.1)) [
      | inl there ↦ rw there (k.holds s h)
      | inr missing ↦ rw missing h
    ];
  }

  digest-Keeps : Keeps {W = ℕ × W} (Beside p P) (λ s. pure (get_hash s.0) s)
  digest-Keeps = record { holds = λ s h. h }

  lookup_secret_access-Keeps :
      (sa : Object Body) (c : Option Credentials)
      → Keeps (Beside p P) (lookup_secret_access p opts nn sa c)
  unfolding lookup_secret_access
  lookup_secret_access-Keeps sa none = Keeps-pure tt
  lookup_secret_access-Keeps sa (some c) =
      search (keeps_rules, create-Keeps p P, hash-Keeps p P, fetch-Keeps p P reads) depth 14

  lookup_rbac_resources-Keeps : (r : RbacResources) → Keeps (Beside p P) (lookup_rbac_resources p r)
  unfolding lookup_rbac_resources
  lookup_rbac_resources-Keeps r =
      search (keeps_rules, hash-Keeps p P, fetch_or_empty-Keeps p P reads) depth 22

  lookup_configmaps-Keeps : (sa : Object Body) → Keeps (Beside p P) (lookup_configmaps p opts sa)
  unfolding lookup_configmaps
  lookup_configmaps-Keeps sa =
      search
        (
          keeps_rules,
          create_json_schema-Keeps p P,
          create_configmap-Keeps p P,
          hash-Keeps p P,
          fetch_or_empty-Keeps p P reads,
        )
        depth 14

  lookup_deployed-Keeps : (sa : Object Body) → Keeps (Beside p P) (lookup_deployed p opts sa)
  unfolding lookup_deployed
  lookup_deployed-Keeps sa =
      search
        (keeps_rules, create_deployment-Keeps p P, hash-Keeps p P, fetch_or_empty-Keeps p P reads)
        depth 9

  lookup_service-Keeps : Keeps (Beside p P) (lookup_service p opts)
  unfolding lookup_service
  lookup_service-Keeps =
      search (keeps_rules, create_service-Keeps p P, hash-Keeps p P, fetch_or_empty-Keeps p P reads)
        depth 9

  lookup_all-Keeps : Keeps (Beside p P) (lookup_all p opts)
  unfolding lookup_all
  lookup_all-Keeps =
      search
        (
          keeps_rules,
          create_rbac-Keeps p P,
          lookup_secret_access-Keeps,
          lookup_rbac_resources-Keeps,
          lookup_configmaps-Keeps,
          lookup_deployed-Keeps,
          if_service-Keeps,
          lookup_service-Keeps,
          digest-Keeps,
        )
        depth 16

  -- Lookup changes nothing that reading and waiting do not change, whatever it returns: a property
  -- of the world that these keep holds after Lookup if it holds before.
  pub lookup-keeps : (w : W) → P w → P (lookup p opts w).1
  unfolding lookup
  lookup-keeps w h = lookup_all-Keeps.holds (new_fnv_object_hash, w) h

  module _ (writes : DryRunsKeep p P) (dry : opts.dry_run_server ≡ true) where
    apply_dry : (apply_options opts).dry_run ≡ "All" ∷ []
    unfolding apply_options
    apply_dry = rw dry

    installs : (obj : Object Body) → Keeps (Beside p P) (install p (apply_options opts) obj)
    installs = install-Keeps p P reads writes (apply_options opts) apply_dry

    deploy_secret_access-Keeps :
        (sa : Object Body) (c : Option Credentials)
        → Keeps (Beside p P) (deploy_secret_access p opts nn (apply_options opts) sa c)
    unfolding deploy_secret_access
    deploy_secret_access-Keeps sa none = Keeps-pure tt
    deploy_secret_access-Keeps sa (some c) =
        search (keeps_rules, create-Keeps p P, hash-Keeps p P, installs) depth 14

    install_rbac_resources-Keeps :
        (r : RbacResources) → Keeps (Beside p P) (install_rbac_resources p r (apply_options opts))
    unfolding install_rbac_resources
    install_rbac_resources-Keeps r = search (keeps_rules, hash-Keeps p P, installs) depth 22

    install_configmaps-Keeps :
        (sa : Object Body) → Keeps (Beside p P) (install_configmaps p opts (apply_options opts) sa)
    unfolding install_configmaps
    install_configmaps-Keeps sa =
        search
          (
            keeps_rules,
            create_json_schema-Keeps p P,
            create_configmap-Keeps p P,
            hash-Keeps p P,
            installs,
          )
          depth 14

    install_deployment-Keeps :
        (sa : Object Body) → Keeps (Beside p P) (install_deployment p opts (apply_options opts) sa)
    unfolding install_deployment
    install_deployment-Keeps sa =
        search (keeps_rules, create_deployment-Keeps p P, hash-Keeps p P, installs) depth 9

    install_service-Keeps : Keeps (Beside p P) (install_service p opts (apply_options opts))
    unfolding install_service
    install_service-Keeps =
        search (keeps_rules, create_service-Keeps p P, hash-Keeps p P, installs) depth 9

    no_roll_out :
        (dep : Object Body)
        → Keeps (Beside p P) (if opts.dry_run_server then pure tt else roll_out p opts dep)
    no_roll_out dep = rw dry (Keeps-pure tt)

    deploy_all-Keeps : Keeps (Beside p P) (deploy_all p opts)
    unfolding deploy_all
    deploy_all-Keeps =
        search
          (
            keeps_rules,
            create_rbac-Keeps p P,
            deploy_secret_access-Keeps,
            install_rbac_resources-Keeps,
            install_configmaps-Keeps,
            install_deployment-Keeps,
            if_service-Keeps,
            install_service-Keeps,
            no_roll_out,
            digest-Keeps,
          )
          depth 18

    -- Deploy with DryRunServer leaves the cluster as it was, whatever it returns: every property of
    -- the world that reading, waiting and dry-run writes keep holds afterwards if it holds before.
    pub deploy-dry_run : (w : W) → P w → P (deploy p opts w).1
    unfolding deploy
    deploy-dry_run w h = deploy_all-Keeps.holds (new_fnv_object_hash, w) h
