-- ===== src/Controller/Cleanup.antt =====
-- cleanupObsoleteFinalizerLabels, which runs once when the controller is set up.
use core_provider.Base.{String, List, [], ◌∷◌, Bool, true, false, str_eq, if◌then◌else◌}
use core_provider.Base.Result.{wrap}
use core_provider.Base.Exec.{Exec, pure, attempt, on_error, ◌>>=◌, ◌>>◌}
use core_provider.Types.{CompositionDefinition}
use core_provider.Deployment.{remove_annotation}
use core_provider.Controller.{External}

abbrev pub obsolete_label : String
obsolete_label = "composition.krateo.io/still-exist-compositions-finalizer"

-- _, exists := labels[key]
unfoldable pub has_label : String → List (String × String) → Bool
has_label k [] = false
has_label k ((j, v) ∷ m) = if str_eq j k then true else has_label k m

-- delete(cr.Labels, obsoleteLabel)
unfoldable pub without_obsolete_label : CompositionDefinition → CompositionDefinition
without_obsolete_label cr = record cr { labels = remove_annotation obsolete_label cr.labels }

module _ {W A L : Type 0} (x : External W A L) where
  -- an update that fails is logged, and the loop goes on
  unfoldable pub cleanup_each : List CompositionDefinition → Exec W (Unit {0})
  cleanup_each [] = pure tt
  cleanup_each (cr ∷ crs) = do
    if has_label obsolete_label cr.labels
        then (attempt (x.update_definition (without_obsolete_label cr)) >> pure tt)
        else pure tt
    cleanup_each crs

  -- cleanupObsoleteFinalizerLabels(ctx, kube, log)
  unfoldable pub cleanup_obsolete_finalizer_labels : Exec W (Unit {0})
  cleanup_obsolete_finalizer_labels = do
    list ← on_error (wrap "error listing CompositionDefinitions: %w") x.list_definitions
    cleanup_each list
