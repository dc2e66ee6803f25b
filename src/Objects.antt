-- ===== src/Objects.antt =====
-- internal/tools/objects: object.go and templates/templates.go.
-- `Files` is what the program takes from the file system and from the template and YAML libraries.
use core_provider.Base.{
  String, List, [], ◌∷◌, Option, none, some, Bool, true, false, str_eq, str_append, if◌then◌else◌,
}
use core_provider.Base.Result.{text, wrap, Result, ok, err}
use core_provider.Base.Exec.{Exec}
use core_provider.Schema.{GroupVersionResource, NamespacedName, Object}

-- a value of type `any`, as far as it is asked for a string
pub data Any : Type 0 where
  string_value : String → Any
  other_value : String → Any

-- map[string]any
abbrev pub Values : Type 0
Values = List (String × Any)

-- `read_file` is os.ReadFile, `file_exists` says that os.Stat gives no error, `join_path` is
-- filepath.Join of two parts, `render` is what the two library calls of Template.Render make of a
-- template and its values, and `decode` is the YAML serializer's Decode into an object.
pub record Files (W B : Type 0) : Type 0 where
  pub read_file : String → W → Result String
  pub file_exists : String → W → Bool
  pub join_path : String → String → String
  pub render : String → Values → Result String
  pub decode : String → Result (Object B)

-- values[key] = value
unfoldable pub put : String → Any → Values → Values
put k v [] = (k, v) ∷ []
put k v ((j, u) ∷ m) = if str_eq j k then (k, v) ∷ m else (j, u) ∷ put k v m

-- values[key]
unfoldable pub value_of : String → Values → Option Any
value_of k [] = none
value_of k ((j, u) ∷ m) = if str_eq j k then some u else value_of k m

module _ {W B : Type 0} (files : Files W B) where
  open files use {read_file, render, decode}

  -- templates.Values(opts)
  unfoldable pub template_values : GroupVersionResource → NamespacedName → Values
  template_values gvr nn =
      let name = if str_eq nn.name "" then str_append gvr.resource "-controller" else nn.name in
      let namespace = if str_eq nn.namespace "" then "default" else nn.namespace in
      ("apiGroup", string_value gvr.group)
      ∷ ("apiVersion", string_value gvr.version)
      ∷ ("resource", string_value gvr.resource)
      ∷ ("name", string_value name)
      ∷ ("namespace", string_value namespace)
      ∷ []

  -- len(additionalvalues)%2 != 0, found before the first pair is read
  unfoldable pub in_pairs : List Any → Bool
  in_pairs [] = true
  in_pairs (a ∷ []) = false
  in_pairs (a ∷ b ∷ more) = in_pairs more

  -- the loop over additionalvalues
  unfoldable pub add_pairs : List Any → Values → Result Values
  add_pairs (string_value k ∷ v ∷ more) values = add_pairs more (put k v values)
  add_pairs (other_value k ∷ v ∷ more) values =
      err (text "additionalvalues key must be a string: %w")
  add_pairs _ values = ok values

  decoded : Result (Object B) → Result (Object B)
  decoded (ok obj) = ok obj
  decoded (err e) = err (wrap "failed to decode object: %w - path: %s - values: %s" e)

  rendered : Result String → Result (Object B)
  unfolding decoded
  rendered (ok dat) = decoded (decode dat)
  rendered (err e) = err e

  valued : String → Result Values → Result (Object B)
  unfolding rendered
  valued template (ok values) = rendered (render template values)
  valued template (err e) = err e

  templated : GroupVersionResource → NamespacedName → List Any → Result String → Result (Object B)
  unfolding valued in_pairs add_pairs template_values
  templated gvr nn additional (ok template) =
      if in_pairs additional
      then valued template (add_pairs additional (template_values gvr nn))
      else err (text "additionalvalues must be in pairs: %w")
  templated gvr nn additional (err e) = err (wrap "failed to read object template file: %w" e)

  -- CreateK8sObject(obj, gvr, nn, path, additionalvalues...)
  unfoldable pub create_k8s_object :
      GroupVersionResource → NamespacedName → String → List Any → Exec W (Object B)
  unfolding templated
  create_k8s_object gvr nn path additional w = (templated gvr nn additional (read_file path w), w)
