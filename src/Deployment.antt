-- ===== src/Deployment.antt =====
-- internal/tools/deployment/deployment.go, and the parts of an API object that the deployment of a
-- composition controller reads.
pub mod Restart
use core_provider.Base.{
  ℕ, String, List, [], ◌∷◌, Option, none, some, Bool, true, false, not, ◌&&◌, str_eq, ◌==◌,
  if◌then◌else◌,
}
use core_provider.Base.Result.{Result, ok, err, ApiErrors}
use core_provider.Base.Exec.{Exec}
use core_provider.Schema.{Object, object_key}
use core_provider.Kube.{Client}

-- A nil map is `none`.
abbrev pub Annotations : Type 0
Annotations = Option (List (String × String))

-- The union of the fields of the kinds that are deployed: a kind uses those that it has, and the
-- others have their zero value. `rules` to `config_data` and `spec` are JSON texts; `spec` is the
-- rest of the spec beside the annotations of the pod template and the replicas.
pub record Body : Type 0 where
  pub rules : String
  pub subjects : String
  pub role_ref : String
  pub config_data : String
  pub spec : String
  pub template_annotations : Annotations
  pub replicas : Option ℕ
  pub ready_replicas : ℕ
  pub conditions : List (String × String)

abbrev pub empty_body : Body
empty_body = record {
  rules = "";
  subjects = "";
  role_ref = "";
  config_data = "";
  spec = "";
  template_annotations = none;
  replicas = none;
  ready_replicas = 0;
  conditions = [];
}

-- rbacv1.Role{} and the like
abbrev pub empty_object : Object Body
empty_object = record {
  gvk = record { group = ""; version = ""; kind = "" };
  namespace = "";
  name = "";
  resource_version = "";
  body = empty_body;
}

abbrev pub restarted_at : String
restarted_at = "kubectl.kubernetes.io/restartedAt"

unfoldable pub annotate : String → String → List (String × String) → List (String × String)
annotate k v [] = (k, v) ∷ []
annotate k v ((j, u) ∷ m) = if str_eq j k then (k, v) ∷ m else (j, u) ∷ annotate k v m

unfoldable pub remove_annotation : String → List (String × String) → List (String × String)
remove_annotation k [] = []
remove_annotation k ((j, u) ∷ m) =
    let rest = remove_annotation k m in if str_eq j k then rest else (j, u) ∷ rest

abbrev set_annotations : Annotations → Object Body → Object Body
set_annotations a d = record d { body = record d.body { template_annotations = a } }

-- CleanFromRestartAnnotation(obj)
unfoldable pub clean_from_restart_annotation : Object Body → Object Body
unfolding remove_annotation
clean_from_restart_annotation d = elim d.body.template_annotations [
  | none ↦ d
  | some m ↦ set_annotations (some (remove_annotation restarted_at m)) d
]

-- what RestartDeployment sends: the annotations, made if they are nil, with the time of the restart
unfoldable pub restarted : String → Object Body → Object Body
unfolding annotate
restarted now d = elim d.body.template_annotations [
  | none ↦ set_annotations (some (annotate restarted_at now [])) d
  | some m ↦ set_annotations (some (annotate restarted_at now m)) d
]

-- RestartDeployment(ctx, kube, obj): `patch` is kube.Patch by a merge from the first object, and
-- `now` the time in RFC 3339. The answer is the new object.
unfoldable pub restart_deployment :
    {W : Type 0}
    → (Object Body → Object Body → Exec W (Object Body))
    → (W → String)
    → Object Body
    → Exec W (Object Body)
unfolding restarted
restart_deployment patch now d w = patch d (restarted (now w) d) w

is_available : List (String × String) → Bool
is_available [] = false
is_available ((type, status) ∷ rest) =
    if str_eq type "Available" && str_eq status "True" then true else is_available rest

-- IsReady(d)
unfoldable pub is_ready : Object Body → Bool
unfolding is_available
is_ready d = elim d.body.replicas [
  | none ↦ is_available d.body.conditions
  | some n ↦ if not (d.body.ready_replicas == n) then false else is_available d.body.conditions
]

-- LookupDeployment(ctx, kube, obj): whether it exists, and whether its replicas are ready
looked_up : {W : Type 0} → ApiErrors → Result (Object Body) × W → Result (Bool × Bool) × W
looked_up api (ok d, w) =
    (ok (true, elim d.body.replicas [ none ↦ false | some n ↦ n == d.body.ready_replicas ]), w)
looked_up api (err e, w) = if api.is_not_found e then (ok (false, false), w) else (err e, w)

unfoldable pub lookup_deployment :
    {W : Type 0} → Client W Body → ApiErrors → Object Body → Exec W (Bool × Bool)
unfolding looked_up
lookup_deployment c api d w = looked_up api (c.get d.gvk (object_key d) w)
