-- ===== src/Defaults/Populate/Keeps.antt =====
-- A custom resource keeps its values when it is given the defaults of its CRD.
use mathlib.Core.Path.{subst}
use core_provider.Base.{
  String, List, [], ◌∷◌, Option, none, some, Bool, true, false, ◌≡◌, sym, ◌∙◌, if_true, arith,
  str_eq, eq_iff, Bool-cases, Option-cases, inl, inr,
}
use core_provider.Base.Result.{Result, ok, Result-split}
use core_provider.Crd.{JsonProps, OpenApiSchema, Crd}
use core_provider.Defaults.{
  Json, object, array, float, int, string, boolean, null, Members, Properties, value_at, set_value,
  apply_defaults,
}
use core_provider.Defaults.Extension.{value_on, is_object, value_at-set_value, apply_defaults-keeps}
use core_provider.Defaults.Populate.{
  schema_for, spec_schema, api_version, spec_map, populate_spec, populate_from,
  populate_defaults_from_crd,
}

abbrev pub is_null : Json → Bool
is_null null = true
is_null _ = false

-- a value below the spec stands in the map of the spec
spec_map-value_on :
    (o : Option Json) (m : Members) (path : List String) (v : Json)
    → spec_map o ≡ ok m
    → elim o [ none ↦ none | some w ↦ value_on path w ] ≡ some v
    → is_null v ≡ false
    → value_on path (object m) ≡ some v
unfolding spec_map value_on
spec_map-value_on none m path v h e n = cc
spec_map-value_on (some null) m [] v h e n = ground arith
spec_map-value_on (some null) m (k ∷ path) v h e n = cc
spec_map-value_on (some (object w)) m path v h e n = ground arith
spec_map-value_on (some (array w)) m path v h e n = cc
spec_map-value_on (some (float w)) m path v h e n = cc
spec_map-value_on (some (int w)) m path v h e n = cc
spec_map-value_on (some (string w)) m path v h e n = cc
spec_map-value_on (some (boolean w)) m path v h e n = cc

module _ (unmarshal : String → Result Json) (truncate : String → String)
    (version_of : String → Option String) (properties_of : JsonProps → Properties) where
  -- the spec with its defaults in the place of the spec
  set_spec-keeps :
      (props : JsonProps) (cr m m' : Members) (path : List String) (v : Json)
      → spec_map (value_at "spec" cr) ≡ ok m
      → apply_defaults unmarshal truncate (properties_of props) m ≡ ok m'
      → value_on path (object cr) ≡ some v
      → is_object v ≡ false
      → is_null v ≡ false
      → value_on path (object (set_value "spec" (object m') cr)) ≡ some v
  unfolding value_on
  set_spec-keeps props cr m m' [] v s a e leaf not_null = ground arith
  set_spec-keeps props cr m m' (k ∷ path) v s a e leaf not_null =
      elim (Bool-cases (str_eq "spec" k)) [
        | inr other ↦ ground (arith, value_at-set_value k "spec" (object m') cr)
        | inl same ↦
            let is_spec : "spec" ≡ k = ground (arith, eq_iff "spec" k) in
            let below =
              apply_defaults-keeps unmarshal truncate (properties_of props) m m' path v a
                (spec_map-value_on (value_at "spec" cr) m path v s
                  (subst (λ j. value_on (j ∷ path) (object cr) ≡ some v) (sym is_spec) e) not_null)
                leaf in
            let q : value_at k (set_value "spec" (object m') cr) ≡ some (object m') =
              value_at-set_value k "spec" (object m') cr ∙ if_true _ _ same in
            rw (q, value_on) below
      ]

  populate_spec-keeps :
      (props : JsonProps) (cr cr' : Members) (path : List String) (v : Json)
      → populate_spec unmarshal truncate version_of properties_of props cr ≡ ok cr'
      → value_on path (object cr) ≡ some v
      → is_object v ≡ false
      → is_null v ≡ false
      → value_on path (object cr') ≡ some v
  unfolding populate_spec
  populate_spec-keeps props cr cr' path v h e leaf not_null =
      elim (Result-split (spec_map (value_at "spec" cr))) [
        | inr (x, s) ↦ ground arith
        | inl (m, s) ↦
            elim (Result-split (apply_defaults unmarshal truncate (properties_of props) m)) [
              | inr (x, a) ↦ ground arith
              | inl (m', a) ↦
                  let q : set_value "spec" (object m') cr ≡ cr' = ground arith in
                  subst (λ t. value_on path (object t) ≡ some v) q
                    (set_spec-keeps props cr m m' path v s a e leaf not_null)
            ]
      ]

  populate_from-keeps :
      (o : Option OpenApiSchema) (cr cr' : Members) (path : List String) (v : Json)
      → populate_from unmarshal truncate version_of properties_of o cr ≡ ok cr'
      → value_on path (object cr) ≡ some v
      → is_object v ≡ false
      → is_null v ≡ false
      → value_on path (object cr') ≡ some v
  unfolding populate_from
  populate_from-keeps none cr cr' path v h e leaf not_null = cc
  populate_from-keeps (some s) cr cr' path v h e leaf not_null =
      elim (Option-cases (spec_schema s)) [
        | inl missing ↦
            let q : cr ≡ cr' = ground arith in subst (λ t. value_on path (object t) ≡ some v) q e
        | inr (props, found) ↦
            populate_spec-keeps props cr cr' path v (ground arith) e leaf not_null
      ]

  -- A custom resource that has been given the defaults of its CRD has every value that it had before: a
  -- value on a path of keys that is neither an object nor null is there, unchanged.
  pub populate_defaults_from_crd-keeps :
      (crd : Crd) (cr cr' : Members) (path : List String) (v : Json)
      → populate_defaults_from_crd unmarshal truncate version_of properties_of crd cr ≡ ok cr'
      → value_on path (object cr) ≡ some v
      → is_object v ≡ false
      → is_null v ≡ false
      → value_on path (object cr') ≡ some v
  unfolding populate_defaults_from_crd
  populate_defaults_from_crd-keeps crd cr cr' path v h e leaf not_null =
      elim (Option-cases (version_of (api_version cr))) [
        | inl none_found ↦ ground arith
        | inr (version, found) ↦
            populate_from-keeps (schema_for version crd.versions) cr cr' path v (ground arith) e
              leaf not_null
      ]
