-- ===== src/Schema.antt =====
-- The structs of k8s.io/apimachinery and sigs.k8s.io/controller-runtime that the program fills in.
use core_provider.Base.{String}

pub record GroupVersionKind : Type 0 where
  pub group : String
  pub version : String
  pub kind : String

pub record GroupVersionResource : Type 0 where
  pub group : String
  pub version : String
  pub resource : String

pub record GroupResource : Type 0 where
  pub group : String
  pub resource : String

-- gvr.GroupResource()
abbrev pub group_resource : GroupVersionResource → GroupResource
group_resource gvr = record { group = gvr.group; resource = gvr.resource }

pub record NamespacedName : Type 0 where
  pub namespace : String
  pub name : String

-- An API object: its apiVersion and kind, the metadata that the program uses, and the rest.
pub record Object (B : Type 0) : Type 0 where
  pub gvk : GroupVersionKind
  pub namespace : String
  pub name : String
  pub resource_version : String
  pub body : B

-- client.ObjectKeyFromObject
abbrev pub object_key : {B : Type 0} → Object B → NamespacedName
object_key obj = record { namespace = obj.namespace; name = obj.name }
