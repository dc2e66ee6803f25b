-- ===== src/Defaults.antt =====
-- internal/controllers/compositiondefinitions/webhooks/utils/defaults/defaults.go: the defaults of a
-- schema, put into a custom resource.
pub mod Extension
pub mod Populate
use core_provider.Base.{
  ℕ, zero, suc, String, Option, none, some, Bool, true, false, ◌&&◌, str_eq, if◌then◌else◌,
}
use core_provider.Base.Result.{Error, wrap, text, Result, ok, err}

-- JSON values as Go holds them: a number is a float64 or an int64, both as their text.
mutual
  pub data Json : Type 0 where
    object : Members → Json
    array : Elements → Json
    float int : String → Json
    string : String → Json
    boolean : Bool → Json
    null : Json

  pub data Members : Type 0 where
    no_members : Members
    member : String → Json → Members → Members

  pub data Elements : Type 0 where
    no_elements : Elements
    element : Json → Elements → Elements

-- `Items.Schema`: its type and its default, a JSON text
pub record ItemSchema : Type 0 where
  pub type : String
  pub fallback : Option String

-- JSONSchemaProps: type, default, properties, items and the least number of items, in that order. Where
-- `Items` or its schema is nil there are no items; a negative number, which no test passes, is 0.
mutual
  pub data Schema : Type 0 where
    schema : String → Option String → Properties → Option ItemSchema → Option ℕ → Schema

  pub data Properties : Type 0 where
    no_properties : Properties
    property : String → Schema → Properties → Properties

-- targetMap[name] with `exists`
unfoldable pub value_at : String → Members → Option Json
value_at k no_members = none
value_at k (member j v m) = if str_eq j k then some v else value_at k m

-- targetMap[name] = value
unfoldable pub set_value : String → Json → Members → Members
set_value k v no_members = member k v no_members
set_value k v (member j u m) = if str_eq j k then member k v m else member j u (set_value k v m)

abbrev pub has_properties : Properties → Bool
has_properties no_properties = false
has_properties (property n s ps) = true

unfoldable pub replicate : ℕ → Json → Elements
replicate zero v = no_elements
replicate (suc n) v = element v (replicate n v)

-- the nested map is only added if it has any values
abbrev pub add_nested : String → Members → Members → Members
add_nested name no_members m = m
add_nested name (member k v nested) m = set_value name (object (member k v nested)) m

-- `unmarshal` is json.Unmarshal into a value, `truncate` the conversion of a float64 to an int64.
module _ (unmarshal : String → Result Json) (truncate : String → String) where
  -- the conversion for fields of type integer
  unfoldable pub as_integer : String → Json → Json
  as_integer type (float x) = if str_eq type "integer" then int (truncate x) else float x
  as_integer type v = v

  -- targetMap[name] = the default
  unfoldable pub apply_default : String → String → String → Members → Result Members
  apply_default name type raw m = elim (unmarshal raw) [
    | err e ↦ err (wrap "failed to unmarshal default value for field %s: %w" e)
    | ok v ↦ ok (set_value name (as_integer type v) m)
  ]

  unfoldable pub array_of : String → Option ItemSchema → Option ℕ → Members → Result Members
  array_of name (some item) (some (suc n)) m = elim item.fallback [
    | none ↦ ok m
    | some raw ↦ elim (unmarshal raw) [
      | err e ↦ err (wrap "failed to unmarshal default array item for field %s: %w" e)
      | ok v ↦ ok (set_value name (array (replicate (suc n) (as_integer item.type v))) m)
    ]
  ]
  array_of name _ _ m = ok m

  -- a value that is set: `nested` is what becomes of it where it is a map
  abbrev pub apply_set : String → Json → (Members → Result Members) → Members → Result Members
  apply_set name (object sub) nested m = elim (nested sub) [
    | err e ↦ err e
    | ok sub' ↦ ok (set_value name (object sub') m)
  ]
  apply_set name _ nested m = ok m

  -- a value that is not set and has no default
  abbrev pub apply_missing :
      String
      → String
      → Bool
      → Result Members
      → Option ItemSchema
      → Option ℕ
      → Members
      → Result Members
  apply_missing name type is_object nested items min m =
      if is_object
      then elim nested [ err e ↦ err e | ok sub ↦ ok (add_nested name sub m) ]
      else if str_eq type "array"
      then array_of name items min m
      else ok m

  -- applyDefaultsToMap(properties, targetMap). The properties come in the order of the list; each round
  -- changes the value of its own name only.
  unfoldable mutual
    pub apply_property : String → Schema → Members → Result Members
    apply_property name (schema type fallback ps items min) m =
        let is_object = str_eq type "object" && has_properties ps in
        let nested = λ (sub : Members). apply_defaults ps sub in
        elim (value_at name m) [
          | some v ↦ if is_object then apply_set name v nested m else ok m
          | none ↦ elim fallback [
            | some raw ↦ apply_default name type raw m
            | none ↦ apply_missing name type is_object (apply_defaults ps no_members) items min m
          ]
        ]

    pub apply_defaults : Properties → Members → Result Members
    apply_defaults no_properties m = ok m
    apply_defaults (property name s ps) m = elim (apply_property name s m) [
      | err e ↦ err e
      | ok m' ↦ apply_defaults ps m'
    ]
