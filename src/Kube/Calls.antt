-- ===== src/Kube/Calls.antt =====
-- What Apply and Uninstall ask of the API server.
use core_provider.Base.{
  ℕ, String, true, ◌≡◌, refl, sym, ap, ◌∙◌, inl, inr, arith, Bool-cases, ◌⊎◌, if_true, if_false,
}
use core_provider.Base.Result.{Error, Result, ok, err, ApiErrors, Result-cases}
use core_provider.Base.Exec.{Exec}
use core_provider.Base.Exec.Keeps.{Keeps}
use core_provider.Retry.Attempts.{retry_do-ok}
use core_provider.Schema.{Object, object_key}
use core_provider.Kube.{
  ApplyOptions, UninstallOptions, Client, wait_beside, client_config, answered, with_version,
  apply_found, apply_once, apply, ignore_not_found, uninstall_found, uninstall_once, uninstall,
}

module _ {W B : Type 0} (c : Client W B) (api : ApiErrors) (wait : ℕ → Exec W (Unit {0})) where
  -- The last exchange of a successful Apply of `obj`: it was read and not found, and was created; or
  -- it was read and updated at the version that was read. `obj'` is the server's answer.
  pub data Applied (opts : ApplyOptions) (obj obj' : Object B) (w' : W) : Type 0 where
    created :
        (version : String) (u v : W) (e : Error)
        → c.get obj.gvk (object_key obj) u ≡ (err e, v)
        → api.is_not_found e ≡ true
        → c.create opts (with_version version obj) v ≡ (ok obj', w')
        → Applied opts obj obj' w'
    updated :
        (u v : W) (tmp : Object B)
        → c.get obj.gvk (object_key obj) u ≡ (ok tmp, v)
        → c.update opts (with_version tmp.resource_version obj) v ≡ (ok obj', w')
        → Applied opts obj obj' w'

  answered-ok :
      (obj : Object B) (o : Result (Object B) × W) {obj' : Object B} {w' : W}
      → answered obj o ≡ (ok tt, (obj', w'))
      → o ≡ (ok obj', w')
  answered-ok obj (ok x, w) h = cc
  answered-ok obj (err e, w) h = cc

  apply_once-ok :
      (opts : ApplyOptions) (obj obj' : Object B) (version : String) (u w' : W)
      → apply_once c api wait opts (with_version version obj, u) ≡ (ok tt, (obj', w'))
      → Applied opts obj obj' w'
  unfolding apply_once
  apply_once-ok opts obj obj' version u w' h =
      elim (Result-cases (c.get obj.gvk (object_key obj) u)) [
        | inl (tmp, v, g) ↦ updated u v tmp g (answered-ok _ _ (found g))
        | inr (e, v, g) ↦ elim (Bool-cases (api.is_not_found e)) [
          | inl gone ↦
              created version u v e g gone (answered-ok _ _ (sym (if_true _ _ gone) ∙ found g))
          | inr other ↦ absurd (failed (sym (if_false _ _ other) ∙ found g))
        ]
      ]
    where
      found :
          {o : Result (Object B) × W}
          → c.get obj.gvk (object_key obj) u ≡ o
          → apply_found c api wait opts (with_version version obj) o ≡ (ok tt, (obj', w'))
      found g = sym (ap (apply_found c api wait opts (with_version version obj)) g) ∙ h

      failed :
          {e : Error} {s s' : Object B × W}
          → ¬ (◌≡◌ {A = Result (Unit {0}) × (Object B × W)} (err e, s) (ok tt, s'))
      failed q = cc

  -- the object that an attempt leaves differs from `obj` in its resource version at most
  abbrev IsVersion : Object B → Object B × W → Type 0
  IsVersion obj s = s.0 ≡ with_version s.0.resource_version obj

  apply_once-IsVersion :
      (opts : ApplyOptions) (obj : Object B) (s t : Object B × W) (e : Error)
      → apply_once c api wait opts s ≡ (err e, t)
      → IsVersion obj s
      → IsVersion obj t
  unfolding apply_once
  apply_once-IsVersion opts obj s t e q p = ground arith

  waits-IsVersion : (obj : Object B) (d : ℕ) → Keeps (IsVersion obj) (wait_beside wait d)
  waits-IsVersion obj d = record { holds = λ s p. p }

  -- A successful Apply ends in an Apply that the server has answered: the object was read and not
  -- found, and was created; or it was read, and updated at the version that was read.
  pub apply-ok :
      (opts : ApplyOptions) (obj obj' : Object B) (w w' : W)
      → apply c api wait opts (obj, w) ≡ (ok tt, (obj', w'))
      → Applied opts obj obj' w'
  unfolding apply
  apply-ok opts obj obj' w w' h =
      let (s, e, last) =
        retry_do-ok (client_config wait (Object B)) (apply_once c api wait opts) (IsVersion obj)
          (apply_once-IsVersion opts obj) (waits-IsVersion obj) (λ n d e s p. p) (obj, w) (obj', w')
          tt h refl in
      apply_once-ok opts obj obj' s.0.resource_version s.1 w'
        (ap (λ o. apply_once c api wait opts (o, s.1)) (sym e) ∙ last)

  -- The last exchange of a successful Uninstall of `obj`: it was read and not found; or it was read,
  -- and deleted or not found any more at the version that was read.
  pub data Uninstalled (opts : UninstallOptions) (obj : Object B) (w' : W) : Type 0 where
    absent :
        (u : W) (e : Error)
        → c.get obj.gvk (object_key obj) u ≡ (err e, w')
        → api.is_not_found e ≡ true
        → Uninstalled opts obj w'
    deleted :
        (u v : W) (tmp : Object B)
        → c.get obj.gvk (object_key obj) u ≡ (ok tmp, v)
        → c.delete opts (with_version tmp.resource_version obj) v ≡ (ok tt, w')
        → Uninstalled opts obj w'
    vanished :
        (u v : W) (tmp : Object B) (e : Error)
        → c.get obj.gvk (object_key obj) u ≡ (ok tmp, v)
        → c.delete opts (with_version tmp.resource_version obj) v ≡ (err e, w')
        → api.is_not_found e ≡ true
        → Uninstalled opts obj w'

  ignore_not_found-ok :
      (obj : Object B) (o : Result (Unit {0}) × W) (t : Object B × W)
      → ignore_not_found c api wait obj o ≡ (ok tt, t)
      → (o ≡ (ok tt, t.1)) ⊎ ((e : Error) × (o ≡ (err e, t.1)) × (api.is_not_found e ≡ true))
  ignore_not_found-ok obj (ok u, w) t h = inl (ground arith)
  ignore_not_found-ok obj (err e, w) t h = inr (e, ground arith, ground arith)

  uninstall_deleted :
      (opts : UninstallOptions) (obj : Object B) (u v : W) (tmp : Object B) (t : Object B × W)
      → c.get obj.gvk (object_key obj) u ≡ (ok tmp, v)
      → uninstall_found c api wait opts obj (ok tmp, v) ≡ (ok tt, t)
      → Uninstalled opts obj t.1
  uninstall_deleted opts obj u v tmp t g h =
      let x = with_version tmp.resource_version obj in
      elim (ignore_not_found-ok x (c.delete opts x v) t h) [
        | inl gone ↦ deleted u v tmp g gone
        | inr (e, gone, known) ↦ vanished u v tmp e g gone known
      ]

  -- the version that an earlier attempt has set does not matter
  uninstall_once-ok :
      (opts : UninstallOptions) (obj : Object B) (version : String) (u : W) (t : Object B × W)
      → uninstall_once c api wait opts (with_version version obj, u) ≡ (ok tt, t)
      → Uninstalled opts obj t.1
  unfolding uninstall_once
  uninstall_once-ok opts obj version u t h =
      elim (Result-cases (c.get obj.gvk (object_key obj) u)) [
        | inl (tmp, v, g) ↦ uninstall_deleted opts obj u v tmp t g (found g)
        | inr (e, v, g) ↦ absent u e (ground (arith, found g)) (ground (arith, found g))
      ]
    where
      found :
          {o : Result (Object B) × W}
          → c.get obj.gvk (object_key obj) u ≡ o
          → uninstall_found c api wait opts (with_version version obj) o ≡ (ok tt, t)
      found g = sym (ap (uninstall_found c api wait opts (with_version version obj)) g) ∙ h

  uninstall_once-IsVersion :
      (opts : UninstallOptions) (obj : Object B) (s t : Object B × W) (e : Error)
      → uninstall_once c api wait opts s ≡ (err e, t)
      → IsVersion obj s
      → IsVersion obj t
  unfolding uninstall_once
  uninstall_once-IsVersion opts obj s t e q p = ground arith

  -- A successful Uninstall ends with the object read and not found, deleted at the version that was
  -- read, or read and then not found by the deletion.
  pub uninstall-ok :
      (opts : UninstallOptions) (obj : Object B) (w : W) (t : Object B × W)
      → uninstall c api wait opts (obj, w) ≡ (ok tt, t)
      → Uninstalled opts obj t.1
  unfolding uninstall
  uninstall-ok opts obj w t h =
      let (s, e, last) =
        retry_do-ok (client_config wait (Object B)) (uninstall_once c api wait opts) (IsVersion obj)
          (uninstall_once-IsVersion opts obj) (waits-IsVersion obj) (λ n d e s p. p) (obj, w) t tt h
          refl in
      uninstall_once-ok opts obj s.0.resource_version s.1 t
        (ap (λ o. uninstall_once c api wait opts (o, s.1)) (sym e) ∙ last)
