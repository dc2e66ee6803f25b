-- ===== src/Examples/Clusters.antt =====
-- Kubernetes calls, Deploy, Lookup and Undeploy on a concrete cluster.
use core_provider.Base.{List, [], ◌∷◌, none, some, true, ◌≡◌, refl, arith}
use core_provider.Base.Result.{ok}
use core_provider.Base.Exec.{on_error, ◌>>=◌}
use core_provider.Retry.{effective_attempts, retry_loop, retry_do}
use core_provider.Schema.{Object, group_resource}
use core_provider.Kube.{
  ApplyOptions, UninstallOptions, apply_once, apply, uninstall_once, uninstall, uninstall_of,
}
use core_provider.Kube.Calls.{Applied, apply-ok}
use core_provider.Crd.Cluster
use core_provider.Deployment.{Body}
use core_provider.Deploy.Platform.{Platform, credentials_of, remove, create}
use core_provider.Deploy.Effects.{ReadsKeep, DryRunsKeep}
use core_provider.Deploy.DryRun.{deploy-dry_run}
use core_provider.Deploy.Install.{
  create_json_schema, create_configmap, create_deployment, create_service, create_rbac, if_service,
  namespaced_name, deploy,
}
use core_provider.Deploy.Uninstall.{
  undeploy_workload, undeploy_crd, undeploy_rest, undeploy_all, undeploy,
}
use core_provider.Deploy.Secret.{undeploy_secret_access}
use core_provider.Deploy.Rbac.{create_rbac_resources, uninstall_rbac_resources}
use core_provider.Deploy.Names.{
  cdc_rbac_nn, cdc_configmap_nn, cdc_deployment_nn, json_schema_configmap_nn, resource_namer,
}
use core_provider.Objects.{put, add_pairs, in_pairs, template_values, create_k8s_object}
use core_provider.Deploy.Removal.{undeploy_nil, undeploy-crd}
use core_provider.Examples.Fixtures.{
  api_errors, a_client, a_wait, an_object, a_platform, a_chart, a_gvr, options, undeploy_options,
  a_crd_platform, an_empty_client,
}

abbrev Objects : Type 0
Objects = List (Object Body)

abbrev plainly : ApplyOptions
plainly = record { dry_run = []; field_manager = ""; field_validation = "" }

abbrev removing : UninstallOptions
removing = record {
  grace_period_seconds = none;
  preconditions = none;
  propagation_policy = none;
  dry_run = [];
}

created_once :
    apply a_client api_errors a_wait plainly (an_object "a", [])
    ≡ (ok tt, (an_object "a", an_object "a" ∷ []))
unfolding apply apply_once retry_do
created_once = refl

apply-ok_example :
    Applied a_client api_errors a_wait plainly (an_object "a") (an_object "a") (an_object "a" ∷ [])
apply-ok_example =
    apply-ok a_client api_errors a_wait plainly (an_object "a") (an_object "a") []
      (an_object "a" ∷ []) created_once

deleted_once :
    uninstall a_client api_errors a_wait removing (an_object "a", an_object "a" ∷ [])
    ≡ (ok tt, (an_object "a", []))
unfolding uninstall uninstall_once retry_do
deleted_once = refl

-- The cluster is still what it was.
abbrev IsUntouched : Objects → Type 0
IsUntouched w = w ≡ an_object "a" ∷ []

reads-keep : ReadsKeep a_platform IsUntouched
reads-keep = record {
  gets = λ gvk nn. record { holds = λ s h. h };
  waits = λ d. record { holds = λ s h. h };
}

dry_runs-keep : DryRunsKeep a_platform IsUntouched
dry_runs-keep = record {
  creates = λ opts obj dry. record { holds = λ s h. ground arith };
  updates = λ opts obj dry. record { holds = λ s h. ground arith };
}

deploy-dry_run_example :
    IsUntouched (deploy a_platform (options true (some a_chart)) (an_object "a" ∷ [])).1
deploy-dry_run_example =
    deploy-dry_run a_platform IsUntouched reads-keep (options true (some a_chart)) dry_runs-keep
      refl (an_object "a" ∷ []) refl

undeploy_nil_example :
    ¬ (undeploy a_platform a_crd_platform (undeploy_options none) [] ≡ (ok tt, []))
undeploy_nil_example = undeploy_nil a_platform a_crd_platform (undeploy_options none) [] [] refl

-- An empty cluster, in which nothing is found.
abbrev nowhere : Platform (List (Object Body))
nowhere = record a_platform {
  client = an_empty_client;
  files = record a_platform.files { decode = λ dat. ok (an_object "a"); render = λ t vs. ok "" };
}

undeployed : undeploy nowhere a_crd_platform (undeploy_options (some a_chart)) [] ≡ (ok tt, [])
unfolding undeploy undeploy_all undeploy_rest undeploy_workload undeploy_crd undeploy_secret_access
    uninstall_rbac_resources create_rbac create_rbac_resources create create_json_schema
    create_configmap create_deployment create_service if_service on_error ◌>>=◌ credentials_of
    remove uninstall_of uninstall uninstall_once retry_do create_k8s_object put add_pairs in_pairs
    template_values Cluster.uninstall Cluster.uninstall_once namespaced_name cdc_rbac_nn
    cdc_configmap_nn cdc_deployment_nn json_schema_configmap_nn resource_namer effective_attempts
    retry_loop
undeployed = refl

undeploy-crd_example :
    (u : Objects) × (Cluster.uninstall a_crd_platform (group_resource a_gvr) u ≡ (ok tt, []))
undeploy-crd_example =
    undeploy-crd nowhere a_crd_platform (undeploy_options (some a_chart)) [] [] refl undeployed
