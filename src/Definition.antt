-- ===== src/Definition.antt =====
-- internal/controllers/compositiondefinitions/retry.go: the updates of a CompositionDefinition, each of
-- which reads it, changes it and writes it back.
pub mod Update
use core_provider.Base.{ℕ, String, Bool, if◌then◌else◌}
use core_provider.Base.Result.{Error, wrap, Result, ok, err, ApiErrors}
use core_provider.Base.Exec.{Exec, on_error}
use core_provider.Retry.{retry_do}
use core_provider.Schema.{NamespacedName}
use core_provider.Types.{CompositionDefinition, CompositionDefinitionStatus}
use core_provider.Composition.{api_config}

-- `deep_equal` is equality.Semantic.DeepEqual on statuses.
pub record Definitions (W : Type 0) : Type 0 where
  pub api : ApiErrors
  pub wait : ℕ → Exec W (Unit {0})
  pub get : NamespacedName → Exec W CompositionDefinition
  pub update : CompositionDefinition → Exec W CompositionDefinition
  pub update_status : CompositionDefinition → Exec W CompositionDefinition
  pub deep_equal : CompositionDefinitionStatus → CompositionDefinitionStatus → Bool

module _ {W : Type 0} (p : Definitions W) where
  unfoldable pub status_written : Result CompositionDefinition × W → Result (Unit {0}) × W
  status_written (ok cd, w) = (ok tt, w)
  status_written (err e, w) = (err e, w)

  unfoldable pub change_status :
      (CompositionDefinition → CompositionDefinition)
      → Result CompositionDefinition × W
      → Result (Unit {0}) × W
  unfolding status_written
  change_status mutate (ok cd, w) =
      if p.deep_equal cd.status (mutate cd).status
      then (ok tt, w)
      else status_written (p.update_status (mutate cd) w)
  change_status mutate (err e, w) = (err e, w)

  unfoldable pub update_status_once :
      NamespacedName → (CompositionDefinition → CompositionDefinition) → Exec W (Unit {0})
  unfolding change_status
  update_status_once key mutate w = change_status mutate (p.get key w)

  -- updateCompositionDefinitionStatusWithRetry(ctx, namespace, name, mutate)
  unfoldable pub update_status_with_retry :
      NamespacedName → (CompositionDefinition → CompositionDefinition) → Exec W (Unit {0})
  update_status_with_retry key mutate =
      on_error (wrap "updating CompositionDefinition status %s/%s failed after %d attempts: %w")
        (retry_do (api_config p.api p.wait) (update_status_once key mutate))

  unfoldable pub written : Result CompositionDefinition × W → Result (Unit {0}) × W
  written (ok cd, w) = (ok tt, w)
  written (err e, w) = if p.api.is_not_found e then (ok tt, w) else (err e, w)

  -- `mutate` says whether it has changed the object
  unfoldable pub change :
      (CompositionDefinition → Bool × CompositionDefinition)
      → Result CompositionDefinition × W
      → Result (Unit {0}) × W
  unfolding written
  change mutate (ok cd, w) =
      let (changed, cd') = mutate cd in if changed then written (p.update cd' w) else (ok tt, w)
  change mutate (err e, w) = if p.api.is_not_found e then (ok tt, w) else (err e, w)

  unfoldable pub update_once :
      NamespacedName → (CompositionDefinition → Bool × CompositionDefinition) → Exec W (Unit {0})
  unfolding change
  update_once key mutate w = change mutate (p.get key w)

  -- updateCompositionDefinitionWithRetry(ctx, namespace, name, mutate)
  unfoldable pub update_with_retry :
      NamespacedName → (CompositionDefinition → Bool × CompositionDefinition) → Exec W (Unit {0})
  update_with_retry key mutate =
      on_error (wrap "updating CompositionDefinition %s/%s failed after %d attempts: %w")
        (retry_do (api_config p.api p.wait) (update_once key mutate))
