-- ===== src/Examples/Mutating.antt =====
-- The mutating webhook at a concrete request.
use core_provider.Base.{String, List, [], ◌∷◌, ◌++◌, Option, some, Bool, true, false, ◌≡◌, refl}
use core_provider.Base.Result.{ok}
use core_provider.Base.Exec.{◌>>=◌}
use core_provider.Schema.{Object}
use core_provider.Crd.{JsonProps, Crd}
use core_provider.Crd.Cluster
use core_provider.Crd.Cluster.{CrdPlatform}
use core_provider.Deployment.{Body}
use core_provider.Defaults.{object, string, int, float, Members, no_members, member, Properties}
use core_provider.Defaults.Extension.{value_on}
use core_provider.Defaults.Populate.{populate_defaults_from_crd}
use core_provider.Defaults.Populate.Keeps.{populate_defaults_from_crd-keeps}
use core_provider.Mutation.{Op, Request, Webhook, patched, version_op, labels_op, label_ops, handle}
use core_provider.Mutation.Patches.{Completed, LabelledBy, handle-patched}
use core_provider.Examples.Fixtures.{a_crd_platform, an_empty_client}
use core_provider.Examples.Crds.{a_crd}
use core_provider.Examples.Defaulting.{reads_number, integral, a_spec, given}

abbrev spec_crd : Crd
spec_crd = a_crd (
    record {
      name = "v1-0-0";
      served = true;
      storage = true;
      schema = some (some (record { properties = some (("spec", "{}") ∷ []); rest = "{}" }));
    }
    ∷ [])

abbrev resource : Members
resource =
    member "apiVersion" (string "composition.krateo.io/v1-0-0")
      (member "spec" (object given) no_members)

abbrev second_part : String → Option String
second_part v = some "v1-0-0"

abbrev spec_properties : JsonProps → Properties
spec_properties p = a_spec

abbrev populated : Members
populated = member "apiVersion" (string "composition.krateo.io/v1-0-0") (
    member "spec"
      (object (
        member "image" (object (member "name" (string "app") (member "tag" (float "2") no_members)))
          (member "replicas" (int "1") no_members)))
      no_members)

populated_eq :
    populate_defaults_from_crd reads_number integral second_part spec_properties spec_crd resource
    ≡ ok populated
unfolding core_provider.Crd.lookup core_provider.Defaults.Populate.api_version
    core_provider.Defaults.Populate.populate_defaults_from_crd
    core_provider.Defaults.Populate.populate_from core_provider.Defaults.Populate.populate_spec
    core_provider.Defaults.Populate.schema_for core_provider.Defaults.Populate.spec_map
    core_provider.Defaults.Populate.spec_schema core_provider.Defaults.apply_default
    core_provider.Defaults.array_of core_provider.Defaults.as_integer
    core_provider.Defaults.replicate core_provider.Defaults.set_value
    core_provider.Defaults.value_at core_provider.Defaults.apply_defaults
populated_eq = refl

populate_defaults_from_crd-keeps_example :
    value_on ("spec" ∷ "image" ∷ "name" ∷ []) (object populated) ≡ some (string "app")
unfolding value_on core_provider.Defaults.value_at
populate_defaults_from_crd-keeps_example =
    populate_defaults_from_crd-keeps reads_number integral second_part spec_properties spec_crd
      resource populated ("spec" ∷ "image" ∷ "name" ∷ []) (string "app") populated_eq refl refl refl

abbrev spec_object : Object Crd
spec_object = record {
  gvk = record {
    group = "apiextensions.k8s.io";
    version = "v1";
    kind = "CustomResourceDefinition";
  };
  namespace = "";
  name = "fireworks.composition.krateo.io";
  resource_version = "1";
  body = spec_crd;
}

abbrev spec_platform : CrdPlatform (List (Object Body))
spec_platform = record a_crd_platform {
  client = record an_empty_client { get = λ gvk nn w. (ok spec_object, w) };
}

abbrev webhook : Webhook
webhook = record {
  has_labels = λ raw. ok false;
  decode = λ raw. ok resource;
  marshal = λ m. ok "completed";
  create_patch = λ a b. ok [];
  unmarshal = reads_number;
  truncate = integral;
  version_of = second_part;
  properties_of = spec_properties;
}

abbrev creation : Request
creation = record {
  operation = "CREATE";
  group = "composition.krateo.io";
  version = "v1-0-0";
  resource = "fireworks";
  raw = "{}";
}

handled :
    handle webhook spec_platform creation [] ≡ (patched (labels_op ∷ version_op creation ∷ []), [])
unfolding ◌>>=◌ core_provider.Crd.Cluster.get core_provider.Crd.lookup
    core_provider.Defaults.Populate.api_version
    core_provider.Defaults.Populate.populate_defaults_from_crd
    core_provider.Defaults.Populate.populate_from core_provider.Defaults.Populate.populate_spec
    core_provider.Defaults.Populate.schema_for core_provider.Defaults.Populate.spec_map
    core_provider.Defaults.Populate.spec_schema core_provider.Defaults.apply_default
    core_provider.Defaults.array_of core_provider.Defaults.as_integer
    core_provider.Defaults.replicate core_provider.Defaults.set_value
    core_provider.Defaults.value_at core_provider.Mutation.default_ops core_provider.Mutation.handle
    core_provider.Mutation.label_ops core_provider.Mutation.respond
    core_provider.Defaults.apply_defaults
handled = refl

handle-patched_example :
    (has_labels : Bool) × (crd : Object Crd) × (patch : List Op) × (webhook.has_labels "{}"
      ≡ ok has_labels)
    × (Cluster.get spec_platform
          (record { group = "composition.krateo.io"; resource = "fireworks" })
          []
        ≡ (ok (some crd), []))
    × Completed webhook creation crd.body patch
    × (extra : List Op) × LabelledBy webhook creation has_labels extra
    × (labels_op ∷ version_op creation ∷ [] ≡ patch ++ extra)
handle-patched_example =
    handle-patched webhook spec_platform creation (labels_op ∷ version_op creation ∷ []) [] []
      handled
