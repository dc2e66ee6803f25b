-- ===== src/Composition/Update.antt =====
-- What moving compositions to another version does.
use mathlib.Core.Path.{subst}
use core_provider.Base.{
  String, List, [], ◌∷◌, true, not, ◌&&◌, ◌||◌, ◌≡◌, ap, arith, str_eq, Bool-cases, inl, inr,
}
use core_provider.Base.Result.{
  Error, ok, err, is_canceled, is_deadline_exceeded, ApiErrors, Result-cases, Result-split,
}
use core_provider.Base.Exec.{>>=-ok, on_error-ok}
use core_provider.Retry.Attempts.{retry_do-ok}
use core_provider.Schema.{GroupVersionResource}
use core_provider.Composition.{
  Compositions, Labels, version_label, label, set_label, is_non_retryable_error, is_retryable_error,
  api_config, get_compositions, get_compositions_with_retry, updated, labels_of, relabel,
  update_found, update_composition, update_composition_with_retry, update_each,
  update_compositions_version,
}

-- An error is tried again unless the context was cancelled, or the API server has refused the request
-- for good and no deadline was exceeded; what the network says does not matter.
pub is_retryable_error_eq :
    (api : ApiErrors) (e : Error)
    → is_retryable_error api e
      ≡ not (is_canceled e) && (is_deadline_exceeded e || not (is_non_retryable_error api e))
unfolding is_retryable_error
is_retryable_error_eq api e = ground arith

module _ {W C : Type 0} (p : Compositions W C) (gvr : GroupVersionResource)
    (new_version : String) where
  -- The last exchange about a composition: it was not found; it had the version; it was updated with
  -- the label of the version; or it was not found by the update. `w'` is the world after it.
  pub data Moved (namespace name : String) (w' : W) : Type 0 where
    absent :
        (u : W) (e : Error)
        → p.get gvr namespace name u ≡ (err e, w')
        → p.api.is_not_found e ≡ true
        → Moved namespace name w'
    there :
        (u : W) (c : C) (m : Labels)
        → p.get gvr namespace name u ≡ (ok c, w')
        → labels_of p gvr c ≡ ok m
        → str_eq (label version_label m) new_version ≡ true
        → Moved namespace name w'
    relabelled :
        (u v : W) (c c' answer : C) (m : Labels)
        → p.get gvr namespace name u ≡ (ok c, v)
        → labels_of p gvr c ≡ ok m
        → p.set_nested_labels (set_label version_label new_version m) c ≡ ok c'
        → p.update gvr namespace c' v ≡ (ok answer, w')
        → Moved namespace name w'
    vanished :
        (u v : W) (c c' : C) (e : Error)
        → p.get gvr namespace name u ≡ (ok c, v)
        → p.update gvr namespace c' v ≡ (err e, w')
        → p.api.is_not_found e ≡ true
        → Moved namespace name w'

  updated-Moved :
      {namespace name : String} (u v t : W) (c c' : C) (m : Labels)
      → p.get gvr namespace name u ≡ (ok c, v)
      → labels_of p gvr c ≡ ok m
      → p.set_nested_labels (set_label version_label new_version m) c ≡ ok c'
      → updated p gvr (p.update gvr namespace c' v) ≡ (ok tt, t)
      → Moved namespace name t
  unfolding updated
  updated-Moved {namespace} u v t c c' m g l s h =
      elim (Result-cases (p.update gvr namespace c' v)) [
        | inl (a, x, q) ↦ relabelled u v c c' a m g l s (ground arith)
        | inr (e, x, q) ↦ vanished u v c c' e g (ground arith) (ground arith)
      ]

  relabel-Moved :
      {namespace name : String} (u v t : W) (c : C) (m : Labels)
      → p.get gvr namespace name u ≡ (ok c, v)
      → labels_of p gvr c ≡ ok m
      → relabel p gvr namespace new_version c m v ≡ (ok tt, t)
      → Moved namespace name t
  unfolding relabel
  relabel-Moved {namespace} u v t c m g l h =
      elim (Bool-cases (str_eq (label version_label m) new_version)) [
        | inl same ↦ there u c m (ground arith) l same
        | inr other ↦
            elim (Result-split (p.set_nested_labels (set_label version_label new_version m) c)) [
              | inl (c', s) ↦ updated-Moved u v t c c' m g l s (ground arith)
              | inr (e, s) ↦ ground arith
            ]
      ]

  update_composition-Moved :
      (namespace name : String) (u t : W)
      → update_composition p gvr namespace name new_version u ≡ (ok tt, t)
      → Moved namespace name t
  unfolding update_composition update_found
  update_composition-Moved namespace name u t h = elim (Result-cases (p.get gvr namespace name u)) [
    | inl (c, v, g) ↦ elim (Result-split (labels_of p gvr c)) [
      | inl (m, l) ↦ relabel-Moved u v t c m g l (ground arith)
      | inr (e, l) ↦ ground arith
    ]
    | inr (e, v, g) ↦ absent u e (ground arith) (ground arith)
  ]

  update_composition_with_retry-Moved :
      (namespace name : String) (w t : W)
      → update_composition_with_retry p gvr namespace name new_version w ≡ (ok tt, t)
      → Moved namespace name t
  unfolding update_composition_with_retry
  update_composition_with_retry-Moved namespace name w t h =
      let (u, _, e) =
        retry_do-ok (api_config p.api p.wait) (update_composition p gvr namespace name new_version)
          (λ s. Unit {0}) (λ s s' x q i. tt) (λ d. record { holds = λ s i. tt }) (λ n d x s i. tt) w
          t tt (on_error-ok _ _ w t tt h) tt in
      update_composition-Moved namespace name u t e

  -- each of the compositions was moved, one after the other, and `w'` is the world at the end
  pub data AllMoved : List C → W → W → Type 0 where
    all : {w : W} → AllMoved [] w w
    first :
        {c : C} {cs : List C} {w v w' : W}
        → Moved (p.namespace_of c) (p.name_of c) v
        → AllMoved cs v w'
        → AllMoved (c ∷ cs) w w'

  update_each-AllMoved :
      (cs : List C) (w t : W) → update_each p gvr new_version cs w ≡ (ok tt, t) → AllMoved cs w t
  unfolding update_each
  update_each-AllMoved [] w t h = subst (AllMoved [] w) (ap (λ o. o.1) h) all
  update_each-AllMoved (c ∷ cs) w t h =
      let (_, v, one, rest) = >>=-ok _ _ w tt t h in
      first (update_composition_with_retry-Moved (p.namespace_of c) (p.name_of c) w v one)
        (update_each-AllMoved cs v t rest)

  -- A successful UpdateCompositionsVersion has listed the compositions in a last successful call and
  -- has then dealt with each of them in turn: it was gone, had the new version already, or was updated
  -- with the label of the new version.
  pub update_compositions_version-ok :
      (w w' : W)
      → update_compositions_version p gvr new_version w ≡ (ok tt, w')
      → (items : List C) × (u v : W) × (get_compositions p gvr u ≡ (ok items, v))
        × AllMoved items v w'
  unfolding update_compositions_version get_compositions_with_retry
  update_compositions_version-ok w w' h =
      let (items, v, listed, rest) = >>=-ok _ _ w tt w' h in
      let (u, _, e) =
        retry_do-ok (api_config p.api p.wait) (get_compositions p gvr) (λ s. Unit {0})
          (λ s s' x q i. tt) (λ d. record { holds = λ s i. tt }) (λ n d x s i. tt) w v items
          (on_error-ok _ _ w v items (on_error-ok _ _ w v items listed)) tt in
      (items, u, v, e, update_each-AllMoved items v w' rest)
