-- ===== src/Definition/Update.antt =====
-- What a successful update of a CompositionDefinition has written.
use core_provider.Base.{Bool, true, false, ◌≡◌, arith, Bool-cases, inl, inr}
use core_provider.Base.Result.{Error, Result, ok, err, Result-cases}
use core_provider.Base.Exec.{on_error-ok}
use core_provider.Retry.Attempts.{retry_do-ok}
use core_provider.Schema.{NamespacedName}
use core_provider.Types.{CompositionDefinition}
use core_provider.Composition.{api_config}
use core_provider.Definition.{
  Definitions, status_written, update_status_once, update_status_with_retry, written, update_once,
  update_with_retry,
}

module _ {W : Type 0} (p : Definitions W) (key : NamespacedName) where
  -- The last exchange of a status update: the definition was read and `mutate` has nothing to change
  -- in its status; or the status of the changed definition was written.
  pub data StatusUpdated (mutate : CompositionDefinition → CompositionDefinition) (w' : W)
      : Type 0 where
    same :
        (u : W) (cd : CompositionDefinition)
        → p.get key u ≡ (ok cd, w')
        → p.deep_equal cd.status (mutate cd).status ≡ true
        → StatusUpdated mutate w'
    changed :
        (u v : W) (cd answer : CompositionDefinition)
        → p.get key u ≡ (ok cd, v)
        → p.deep_equal cd.status (mutate cd).status ≡ false
        → p.update_status (mutate cd) v ≡ (ok answer, w')
        → StatusUpdated mutate w'

  written_status :
      (o : Result CompositionDefinition × W) (t : W)
      → status_written p o ≡ (ok tt, t)
      → (cd : CompositionDefinition) × (o ≡ (ok cd, t))
  unfolding status_written
  written_status (ok cd, w) t h = (cd, ground arith)
  written_status (err e, w) t h = cc

  update_status_once-StatusUpdated :
      (mutate : CompositionDefinition → CompositionDefinition) (u t : W)
      → update_status_once p key mutate u ≡ (ok tt, t)
      → StatusUpdated mutate t
  unfolding update_status_once
  update_status_once-StatusUpdated mutate u t h = elim (Result-cases (p.get key u)) [
    | inl (cd, v, g) ↦ elim (Bool-cases (p.deep_equal cd.status (mutate cd).status)) [
      | inl equal ↦ same u cd (ground arith) equal
      | inr differs ↦
          let (answer, q) = written_status (p.update_status (mutate cd) v) t (ground arith) in
          changed u v cd answer g differs q
    ]
    | inr (e, v, g) ↦ ground arith
  ]

  -- A successful status update ends with the definition read and either unchanged by `mutate`, as
  -- deep equality tells, or written with what `mutate` makes of the status that was just read.
  pub update_status_with_retry-ok :
      (mutate : CompositionDefinition → CompositionDefinition) (w w' : W)
      → update_status_with_retry p key mutate w ≡ (ok tt, w')
      → StatusUpdated mutate w'
  unfolding update_status_with_retry
  update_status_with_retry-ok mutate w w' h =
      let (u, _, e) =
        retry_do-ok (api_config p.api p.wait) (update_status_once p key mutate) (λ s. Unit {0})
          (λ s s' x q i. tt) (λ d. record { holds = λ s i. tt }) (λ n d x s i. tt) w w' tt
          (on_error-ok _ _ w w' tt h) tt in
      update_status_once-StatusUpdated mutate u w' e

  -- The last exchange of an update: the definition was not found; it was read and `mutate` says that
  -- there is nothing to change; what `mutate` makes of it was written; or the write did not find it.
  pub data Updated (mutate : CompositionDefinition → Bool × CompositionDefinition) (w' : W)
      : Type 0 where
    absent :
        (u : W) (e : Error)
        → p.get key u ≡ (err e, w')
        → p.api.is_not_found e ≡ true
        → Updated mutate w'
    kept :
        (u : W) (cd : CompositionDefinition)
        → p.get key u ≡ (ok cd, w')
        → (mutate cd).0 ≡ false
        → Updated mutate w'
    wrote :
        (u v : W) (cd answer : CompositionDefinition)
        → p.get key u ≡ (ok cd, v)
        → (mutate cd).0 ≡ true
        → p.update (mutate cd).1 v ≡ (ok answer, w')
        → Updated mutate w'
    vanished :
        (u v : W) (cd : CompositionDefinition) (e : Error)
        → p.get key u ≡ (ok cd, v)
        → (mutate cd).0 ≡ true
        → p.update (mutate cd).1 v ≡ (err e, w')
        → p.api.is_not_found e ≡ true
        → Updated mutate w'

  written-Updated :
      (mutate : CompositionDefinition → Bool × CompositionDefinition) (u v t : W)
      (cd : CompositionDefinition)
      → p.get key u ≡ (ok cd, v)
      → (mutate cd).0 ≡ true
      → written p (p.update (mutate cd).1 v) ≡ (ok tt, t)
      → Updated mutate t
  unfolding written
  written-Updated mutate u v t cd g c h = elim (Result-cases (p.update (mutate cd).1 v)) [
    | inl (answer, x, q) ↦ wrote u v cd answer g c (ground arith)
    | inr (e, x, q) ↦ vanished u v cd e g c (ground arith) (ground arith)
  ]

  update_once-Updated :
      (mutate : CompositionDefinition → Bool × CompositionDefinition) (u t : W)
      → update_once p key mutate u ≡ (ok tt, t)
      → Updated mutate t
  unfolding update_once
  update_once-Updated mutate u t h = elim (Result-cases (p.get key u)) [
    | inl (cd, v, g) ↦ elim (Bool-cases (mutate cd).0) [
      | inl c ↦ written-Updated mutate u v t cd g c (ground arith)
      | inr c ↦ kept u cd (ground arith) c
    ]
    | inr (e, v, g) ↦ absent u e (ground arith) (ground arith)
  ]

  -- A successful update ends with the definition not found, at the read or at the write, or read and
  -- left alone because `mutate` says so, or written with what `mutate` makes of what was just read.
  pub update_with_retry-ok :
      (mutate : CompositionDefinition → Bool × CompositionDefinition) (w w' : W)
      → update_with_retry p key mutate w ≡ (ok tt, w')
      → Updated mutate w'
  unfolding update_with_retry
  update_with_retry-ok mutate w w' h =
      let (u, _, e) =
        retry_do-ok (api_config p.api p.wait) (update_once p key mutate) (λ s. Unit {0})
          (λ s s' x q i. tt) (λ d. record { holds = λ s i. tt }) (λ n d x s i. tt) w w' tt
          (on_error-ok _ _ w w' tt h) tt in
      update_once-Updated mutate u w' e
