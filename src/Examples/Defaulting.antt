-- ===== src/Examples/Defaulting.antt =====
-- The defaults of a schema at concrete inputs.
use core_provider.Base.{String, [], ◌∷◌, none, some, ◌≡◌, refl}
use core_provider.Base.Result.{Result, ok}
use core_provider.Defaults.{
  Json, object, int, string, float, Members, no_members, member, schema, Properties, no_properties,
  property, value_at, set_value, as_integer, apply_default, apply_defaults,
}
use core_provider.Defaults.Extension.{value_on, apply_defaults-keeps}

abbrev pub reads_number : String → Result Json
reads_number raw = ok (float raw)

abbrev pub integral : String → String
integral x = x

abbrev pub a_spec : Properties
a_spec = property "replicas" (schema "integer" (some "1") no_properties none none) (
    property "image"
      (schema "object" none
        (property "tag" (schema "string" (some "2") no_properties none none) no_properties) none
        none)
      no_properties)

abbrev pub given : Members
given = member "image" (object (member "name" (string "app") no_members)) no_members

abbrev completed : Members
completed =
    member "image" (object (member "name" (string "app") (member "tag" (float "2") no_members)))
      (member "replicas" (int "1") no_members)

applied : apply_defaults reads_number integral a_spec given ≡ ok completed
unfolding apply_defaults value_at apply_default set_value as_integer
applied = refl

apply_defaults-keeps_example :
    value_on ("image" ∷ "name" ∷ []) (object completed) ≡ some (string "app")
unfolding value_on value_at
apply_defaults-keeps_example =
    apply_defaults-keeps reads_number integral a_spec given completed ("image" ∷ "name" ∷ [])
      (string "app") applied refl refl
