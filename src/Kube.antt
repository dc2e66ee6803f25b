-- ===== src/Kube.antt =====
-- internal/tools/kube: client.go and options.go.
-- The client of controller-runtime is the parameter `c`; `W` is the state that it and the clock
-- depend on, the cluster among it. An object that a call fills in is the call's answer; on an error
-- the client leaves the object as it was.
pub mod Calls
use core_provider.Base.{ℕ, String, List, [], Option, none, Bool, true, false, not, if◌then◌else◌}
use core_provider.Base.Result.{Error, Result, ok, err, is_canceled, ApiErrors}
use core_provider.Base.Exec.{Exec}
use core_provider.Retry.{Config, pos, retry_do}
use core_provider.Schema.{GroupVersionKind, NamespacedName, Object, object_key}

pub record ApplyOptions : Type 0 where
  pub dry_run : List String
  pub field_manager : String
  pub field_validation : String

pub record UninstallOptions : Type 0 where
  pub grace_period_seconds : Option ℕ
  pub preconditions : Option String
  pub propagation_policy : Option String
  pub dry_run : List String

-- `create` and `update` take client.CreateOptions and client.UpdateOptions, `delete` takes
-- client.DeleteOptions: the structs have the fields of the two above.
pub record Client (W B : Type 0) : Type 0 where
  pub get : GroupVersionKind → NamespacedName → Exec W (Object B)
  pub create : ApplyOptions → Object B → Exec W (Object B)
  pub update : ApplyOptions → Object B → Exec W (Object B)
  pub delete : UninstallOptions → Object B → Exec W (Unit {0})

unfoldable pub is_retryable_client_error : Error → Bool
is_retryable_client_error e = not (is_canceled e)

module _ {W : Type 0} (wait : ℕ → Exec W (Unit {0})) where
  -- The operation may change the object `X` that it works on, the wait changes only the world.
  abbrev pub wait_beside : {X : Type 0} → ℕ → Exec (X × W) (Unit {0})
  wait_beside d (x, w) = let (r, w') = wait d w in (r, (x, w'))

  abbrev pub client_config : (X : Type 0) → Config (X × W)
  client_config X = record {
    attempts = pos 10;
    initial_delay = 100000000;
    maximum_delay = 100000000;
    wait = wait_beside;
    retryable = is_retryable_client_error;
    on_retry = λ attempt d e s. s;
  }

module _ {W B : Type 0} where
  -- the answer of Create or Update takes the place of the object
  abbrev pub answered : Object B → Result (Object B) × W → Result (Unit {0}) × (Object B × W)
  answered obj (ok obj', w) = (ok tt, (obj', w))
  answered obj (err e, w) = (err e, (obj, w))

-- obj.SetResourceVersion(tmp.GetResourceVersion())
abbrev pub with_version : {B : Type 0} → String → Object B → Object B
with_version version obj = record obj { resource_version = version }

module _ {W B : Type 0} (c : Client W B) (api : ApiErrors) (wait : ℕ → Exec W (Unit {0})) where
  abbrev pub apply_found :
      ApplyOptions → Object B → Result (Object B) × W → Result (Unit {0}) × (Object B × W)
  apply_found opts obj (ok tmp, w) =
      let obj' = with_version tmp.resource_version obj in answered obj' (c.update opts obj' w)
  apply_found opts obj (err e, w) =
      if api.is_not_found e then answered obj (c.create opts obj w) else (err e, (obj, w))

  -- the operation that Apply repeats
  unfoldable pub apply_once : ApplyOptions → Exec (Object B × W) (Unit {0})
  apply_once opts (obj, w) = apply_found opts obj (c.get obj.gvk (object_key obj) w)

  unfoldable pub apply : ApplyOptions → Exec (Object B × W) (Unit {0})
  apply opts = retry_do (client_config wait (Object B)) (apply_once opts)

  -- a call of Apply on a variable that the caller reads afterwards
  unfoldable pub apply_to : ApplyOptions → Object B → Exec W (Object B)
  apply_to opts obj w =
      let (r, s) = apply opts (obj, w) in (elim r [ ok u ↦ ok s.0 | err e ↦ err e ], s.1)

  -- `if apierrors.IsNotFound(err) { return nil }`
  abbrev pub ignore_not_found :
      Object B → Result (Unit {0}) × W → Result (Unit {0}) × (Object B × W)
  ignore_not_found obj (ok u, w) = (ok tt, (obj, w))
  ignore_not_found obj (err e, w) =
      if api.is_not_found e then (ok tt, (obj, w)) else (err e, (obj, w))

  abbrev pub uninstall_found :
      UninstallOptions → Object B → Result (Object B) × W → Result (Unit {0}) × (Object B × W)
  uninstall_found opts obj (ok tmp, w) =
      let obj' = with_version tmp.resource_version obj in
      ignore_not_found obj' (c.delete opts obj' w)
  uninstall_found opts obj (err e, w) =
      if api.is_not_found e then (ok tt, (obj, w)) else (err e, (obj, w))

  unfoldable pub uninstall_once : UninstallOptions → Exec (Object B × W) (Unit {0})
  uninstall_once opts (obj, w) = uninstall_found opts obj (c.get obj.gvk (object_key obj) w)

  unfoldable pub uninstall : UninstallOptions → Exec (Object B × W) (Unit {0})
  uninstall opts = retry_do (client_config wait (Object B)) (uninstall_once opts)

  unfoldable pub uninstall_of : UninstallOptions → Object B → Exec W (Unit {0})
  uninstall_of opts obj w = let (r, s) = uninstall opts (obj, w) in (r, s.1)

  -- Get(ctx, kube, obj)
  unfoldable pub get_object : Object B → Exec W (Object B)
  get_object obj = c.get obj.gvk (object_key obj)
