-- ===== src/Defaults/Populate.antt =====
-- PopulateDefaultsFromCRD of defaults.go.
pub mod Keeps
use core_provider.Base.{String, List, [], ◌∷◌, Option, none, some, str_eq, if◌then◌else◌}
use core_provider.Base.Result.{Error, text, Result, ok, err}
use core_provider.Crd.{JsonProps, OpenApiSchema, CrdVersion, Crd, lookup}
use core_provider.Defaults.{
  Json, object, null, string, Members, no_members, Properties, value_at, set_value, apply_defaults,
}

-- the search for the schema of the version
unfoldable pub schema_for : String → List CrdVersion → Option OpenApiSchema
schema_for v [] = none
schema_for v (x ∷ xs) =
    let rest = schema_for v xs in
    if str_eq x.name v then elim x.schema [ some (some s) ↦ some s | _ ↦ rest ] else rest

-- schema.Properties["spec"]
unfoldable pub spec_schema : OpenApiSchema → Option JsonProps
spec_schema s = elim s.properties [ none ↦ none | some ps ↦ lookup "spec" ps ]

-- crUnstructured.GetAPIVersion()
unfoldable pub api_version : Members → String
api_version cr = elim (value_at "apiVersion" cr) [ some (string v) ↦ v | _ ↦ "" ]

-- The spec, an empty map where there is none. NestedFieldCopy of one field of a map has no error.
unfoldable pub spec_map : Option Json → Result Members
spec_map none = ok no_members
spec_map (some null) = ok no_members
spec_map (some (object m)) = ok m
spec_map (some _) = err (text "spec field is not a map")

-- `version_of` is the second of the parts of an apiVersion at the slashes, where there are two;
-- `properties_of` is what the schema of the spec has as its properties.
module _ (unmarshal : String → Result Json) (truncate : String → String)
    (version_of : String → Option String) (properties_of : JsonProps → Properties) where
  -- crUnstructured.Object with the spec and its defaults. SetNestedField of one field of a map has no
  -- error.
  unfoldable pub populate_spec : JsonProps → Members → Result Members
  populate_spec props cr = elim (spec_map (value_at "spec" cr)) [
    | err e ↦ err e
    | ok m ↦ elim (apply_defaults unmarshal truncate (properties_of props) m) [
      | err e ↦ err e
      | ok m' ↦ ok (set_value "spec" (object m') cr)
    ]
  ]

  unfoldable pub populate_from : Option OpenApiSchema → Members → Result Members
  populate_from none cr = err (text "no schema found for version %s in CRD %s")
  populate_from (some s) cr = elim (spec_schema s) [
    | none ↦ ok cr
    | some props ↦ populate_spec props cr
  ]

  -- PopulateDefaultsFromCRD(crd, cr), neither of which is nil at its only call
  unfoldable pub populate_defaults_from_crd : Crd → Members → Result Members
  populate_defaults_from_crd crd cr = elim (version_of (api_version cr)) [
    | none ↦ err (text "invalid apiVersion format in custom resource: %s")
    | some v ↦ populate_from (schema_for v crd.versions) cr
  ]
