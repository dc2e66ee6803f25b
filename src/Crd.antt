-- ===== src/Crd.antt =====
-- Custom resource definitions: the fields of apiextensionsv1.CustomResourceDefinition that
-- internal/tools/crd reads and writes. What the program never looks into is held as its JSON text.
pub mod Generation
pub mod Versions
pub mod Statuses
pub mod Cluster
pub mod Schemas
pub mod Updates
pub mod Generated
pub mod Serving
pub mod CaBundle
use core_provider.Base.{
  ℕ, String, List, [], ◌∷◌, Option, none, some, Bool, true, false, str_eq, if◌then◌else◌,
}

-- apiextensionsv1.JSONSchemaProps below the top level; `"{}"` is the zero value.
abbrev pub JsonProps : Type 0
JsonProps = String

-- map[string]JSONSchemaProps
abbrev pub Properties : Type 0
Properties = List (String × JsonProps)

-- The top of an OpenAPI schema; a nil `Properties` is `none`.
pub record OpenApiSchema : Type 0 where
  pub properties : Option Properties
  pub rest : String

-- `Schema` of a version is a pointer to a struct that holds the pointer `OpenAPIV3Schema`.
pub record CrdVersion : Type 0 where
  pub name : String
  pub served : Bool
  pub storage : Bool
  pub schema : Option (Option OpenApiSchema)

pub record ServiceReference : Type 0 where
  pub namespace : String
  pub name : String
  pub port : ℕ
  pub path : String

-- A nil CA bundle is `none`.
pub record WebhookClientConfig : Type 0 where
  pub service : Option ServiceReference
  pub ca_bundle : Option (List ℕ)

pub record WebhookConversion : Type 0 where
  pub conversion_review_versions : List String
  pub client_config : Option WebhookClientConfig

pub record CrdConversion : Type 0 where
  pub strategy : String
  pub webhook : Option WebhookConversion

-- `Spec` and `Status` of a CustomResourceDefinition
pub record Crd : Type 0 where
  pub group : String
  pub kind : String
  pub plural : String
  pub versions : List CrdVersion
  pub conversion : Option CrdConversion
  pub conditions : List (String × String)

-- m[key] with `ok`, on a map that may be nil
unfoldable pub lookup : String → Properties → Option JsonProps
lookup k [] = none
lookup k ((j, v) ∷ m) = if str_eq j k then some v else lookup k m

-- m[key] = v
unfoldable pub insert : String → JsonProps → Properties → Properties
insert k v [] = (k, v) ∷ []
insert k v ((j, u) ∷ m) = if str_eq j k then (k, v) ∷ m else (j, u) ∷ insert k v m
