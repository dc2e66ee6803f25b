-- ===== src/Composition.antt =====
-- internal/controllers/compositiondefinitions/helpers/getters/getters.go: the compositions of a
-- version, and their move to another one.
pub mod Update
use core_provider.Base.{
  ℕ, String, List, [], ◌∷◌, Option, none, some, Bool, true, false, not, ◌&&◌, ◌||◌, str_eq,
  str_append, ◌==◌, if◌then◌else◌,
}
use core_provider.Base.Result.{
  Error, status, text, wrap, Result, ok, err, is_canceled, is_deadline_exceeded, is_transient_net,
  ApiErrors,
}
use core_provider.Base.Exec.{Exec, pure, lift, on_error, continue, ◌>>=◌, ◌>>◌}
use core_provider.Retry.{Config, pos, retry_do}
use core_provider.Schema.{GroupVersionKind, GroupVersionResource}
use core_provider.Types.{CompositionDefinition}

abbrev pub Labels : Type 0
Labels = List (String × String)

-- What the program takes from its libraries. `C` is an unstructured composition. `selector` is the
-- text of the selector of one label, which may be refused; `list` takes the selector; `nested_labels`
-- and `set_nested_labels` are NestedStringMap and SetNestedStringMap at metadata.labels.
pub record Compositions (W C : Type 0) : Type 0 where
  pub api : ApiErrors
  pub wait : ℕ → Exec W (Unit {0})
  pub selector : String → String → Result String
  pub list : GroupVersionResource → String → Exec W (List C)
  pub get : GroupVersionResource → String → String → Exec W C
  pub update : GroupVersionResource → String → C → Exec W C
  pub namespace_of : C → String
  pub name_of : C → String
  pub nested_labels : C → Result (Option Labels)
  pub set_nested_labels : Labels → C → Result C

abbrev pub version_label : String
version_label = "krateo.io/composition-version"

-- labelmap[key], the empty string where there is none
unfoldable pub label : String → Labels → String
label k [] = ""
label k ((j, v) ∷ m) = if str_eq j k then v else label k m

-- labelmap[key] = value
unfoldable pub set_label : String → String → Labels → Labels
set_label k v [] = (k, v) ∷ []
set_label k v ((j, u) ∷ m) = if str_eq j k then (k, v) ∷ m else (j, u) ∷ set_label k v m

-- the codes of an *apierrors.StatusError that is not wrapped
unfoldable pub has_permanent_code : Error → Bool
has_permanent_code (status code reason) =
    code == 401 || code == 403 || code == 404 || code == 422 || code == 400
has_permanent_code _ = false

-- isNonRetryableCompositionError(err), and isNonRetryableCompositionDefinitionError of retry.go, which
-- is the same text
unfoldable pub is_non_retryable_error : ApiErrors → Error → Bool
unfolding has_permanent_code
is_non_retryable_error api e =
    if api.is_forbidden e
      || api.is_unauthorized e
      || api.is_not_found e
      || api.is_invalid e
      || api.is_bad_request e
    then true
    else has_permanent_code e

-- isRetryableCompositionError(err), and isRetryableCompositionDefinitionError of retry.go
unfoldable pub is_retryable_error : ApiErrors → Error → Bool
is_retryable_error api e =
    if is_canceled e
    then false
    else if is_deadline_exceeded e
    then true
    else if is_non_retryable_error api e
    then false
    else if is_transient_net e
    then true
    else true

-- both retries have the same constants
unfoldable pub api_config : {W : Type 0} → ApiErrors → (ℕ → Exec W (Unit {0})) → Config W
api_config api wait = record {
  attempts = pos 5;
  initial_delay = 250000000;
  maximum_delay = 2000000000;
  wait = wait;
  retryable = is_retryable_error api;
  on_retry = λ attempt d e w. w;
}

unfoldable pub composition_key : String → String → String
composition_key namespace name =
    if str_eq namespace "" then name else str_append namespace (str_append "/" name)

module _ {W C : Type 0} (p : Compositions W C) (gvr : GroupVersionResource) where
  -- GetCompositions(ctx, dyn, gvr)
  unfoldable pub get_compositions : Exec W (List C)
  get_compositions = do
    selector ←
        on_error (wrap "error creating label requirement: %w")
          (lift (p.selector version_label gvr.version))
    on_error (wrap "error listing compositions: %w") (p.list gvr selector)

  -- getCompositionsWithRetry(ctx, dyn, gvr, log)
  unfoldable pub get_compositions_with_retry : Exec W (List C)
  get_compositions_with_retry =
      on_error (wrap "error listing compositions after %d attempts: %w")
        (retry_do (api_config p.api p.wait) get_compositions)

  unfoldable pub updated : Result C × W → Result (Unit {0}) × W
  updated (ok u, w) = (ok tt, w)
  updated (err e, w) = if p.api.is_not_found e then (ok tt, w) else (err e, w)

  -- the labels of a composition, an empty map where there are none
  unfoldable pub labels_of : C → Result Labels
  labels_of u = elim (p.nested_labels u) [
    | err e ↦ err (wrap "error getting labels from composition %s: %w" e)
    | ok none ↦ ok []
    | ok (some m) ↦ ok m
  ]

  -- the label of the version, and the update
  unfoldable pub relabel : String → String → C → Labels → Exec W (Unit {0})
  relabel namespace new_version u m w =
      if str_eq (label version_label m) new_version
      then (ok tt, w)
      else elim (p.set_nested_labels (set_label version_label new_version m) u) [
        | err e ↦ (err (wrap "error setting labels on composition %s: %w" e), w)
        | ok u' ↦ updated (p.update gvr namespace u' w)
      ]

  unfoldable pub update_found : String → String → Result C × W → Result (Unit {0}) × W
  update_found namespace new_version (ok u, w) =
      continue (labels_of u) (relabel namespace new_version u) w
  update_found namespace new_version (err e, w) =
      if p.api.is_not_found e
      then (ok tt, w)
      else (err (wrap "error getting composition %s: %w" e), w)

  -- the operation that updateCompositionWithRetry repeats
  unfoldable pub update_composition : String → String → String → Exec W (Unit {0})
  update_composition namespace name new_version w =
      update_found namespace new_version (p.get gvr namespace name w)

  -- updateCompositionWithRetry(ctx, dyn, gvr, namespace, name, newVersion, log)
  unfoldable pub update_composition_with_retry : String → String → String → Exec W (Unit {0})
  update_composition_with_retry namespace name new_version =
      on_error (wrap "composition %s update failed after %d attempts: %w")
        (retry_do (api_config p.api p.wait) (update_composition namespace name new_version))

  unfoldable pub update_each : String → List C → Exec W (Unit {0})
  update_each new_version [] = pure tt
  update_each new_version (u ∷ us) = do
    update_composition_with_retry (p.namespace_of u) (p.name_of u) new_version
    update_each new_version us

  -- UpdateCompositionsVersion(ctx, dyn, gvr, newVersion)
  unfoldable pub update_compositions_version : String → Exec W (Unit {0})
  update_compositions_version new_version = do
    items ← on_error (wrap "error getting compositions: %w") get_compositions_with_retry
    update_each new_version items

-- GetCompositionDefinitions(ctx, cli, gk) and GetCompositionDefinitionsWithVersion(ctx, cli, gvk), after
-- the list has been read: `gvk_of` is FromAPIVersionAndKind of the status.
unfoldable pub of_group_kind :
    (CompositionDefinition → GroupVersionKind)
    → String
    → String
    → List CompositionDefinition
    → List CompositionDefinition
of_group_kind gvk_of group kind [] = []
of_group_kind gvk_of group kind (cd ∷ cds) =
    let rest = of_group_kind gvk_of group kind cds in
    if str_eq (gvk_of cd).group group && str_eq (gvk_of cd).kind kind then cd ∷ rest else rest

unfoldable pub of_group_version_kind :
    (CompositionDefinition → GroupVersionKind)
    → GroupVersionKind
    → List CompositionDefinition
    → List CompositionDefinition
of_group_version_kind gvk_of gvk [] = []
of_group_version_kind gvk_of gvk (cd ∷ cds) =
    let rest = of_group_version_kind gvk_of gvk cds in
    if str_eq (gvk_of cd).group gvk.group
      && str_eq (gvk_of cd).kind gvk.kind
      && str_eq (gvk_of cd).version gvk.version
    then cd ∷ rest
    else rest

module _ {W : Type 0} (list : Exec W (List CompositionDefinition))
    (gvk_of : CompositionDefinition → GroupVersionKind) where
  unfoldable pub get_composition_definitions : String → String → Exec W (List CompositionDefinition)
  get_composition_definitions group kind = do
    cds ← on_error (λ e. text "error listing CompositionDefinitions: %s") list
    pure (of_group_kind gvk_of group kind cds)

  unfoldable pub get_composition_definitions_with_version :
      GroupVersionKind → Exec W (List CompositionDefinition)
  get_composition_definitions_with_version gvk = do
    cds ← on_error (λ e. text "error listing CompositionDefinitions: %s") list
    pure (of_group_version_kind gvk_of gvk cds)
