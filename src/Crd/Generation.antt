-- ===== src/Crd/Generation.antt =====
-- internal/tools/crd/generation/generation.go
use core_provider.Base.{
  ℕ, String, List, [], ◌∷◌, ◌++◌, map, Option, none, some, Bool, true, false, not, str_eq, codes_eq,
  if◌then◌else◌,
}
use core_provider.Base.Result.{Error, text, panic, wrap, Result, ok, err}
use core_provider.Schema.{GroupVersionKind}
use core_provider.Hash.{new_fnv_object_hash, sum_hash, get_hash}
use core_provider.Crd.{
  JsonProps, OpenApiSchema, CrdVersion, WebhookClientConfig, WebhookConversion, CrdConversion, Crd,
  lookup, insert,
}

-- UpdateCABundle(crd, caBundle), by the pointers that it follows
update_client_config : List ℕ → Option WebhookClientConfig → Result (Option WebhookClientConfig)
update_client_config bundle none = err (text ".spec.conversion.webhook.clientConfig field is nil")
update_client_config bundle (some c) = ok (some (record c { ca_bundle = some bundle }))

update_webhook : List ℕ → Option WebhookConversion → Result (Option WebhookConversion)
unfolding update_client_config
update_webhook bundle none = err (text ".spec.conversion.webhook field is nil")
update_webhook bundle (some w) = elim (update_client_config bundle w.client_config) [
  | ok c ↦ ok (some (record w { client_config = c }))
  | err e ↦ err e
]

update_conversion : List ℕ → Option CrdConversion → Result (Option CrdConversion)
unfolding update_webhook
update_conversion bundle none = err (text ".spec.conversion field is nil")
update_conversion bundle (some c) = elim (update_webhook bundle c.webhook) [
  | ok w ↦ ok (some (record c { webhook = w }))
  | err e ↦ err e
]

unfoldable pub update_ca_bundle : Crd → List ℕ → Result Crd
unfolding update_conversion
update_ca_bundle crd bundle = elim (update_conversion bundle crd.conversion) [
  | ok c ↦ ok (record crd { conversion = c })
  | err e ↦ err e
]

abbrev pub set_version : String → Bool → Bool → CrdVersion → CrdVersion
set_version version served storage v =
    if str_eq v.name version then record v { served = served; storage = storage } else v

-- SetServedStorage(crd, version, served, storage)
unfoldable pub set_served_storage : Crd → String → Bool → Bool → Crd
set_served_storage crd version served storage = record crd {
  versions = map (set_version version served storage) crd.versions;
}

-- the two searches of AppendVersion, and those of GVKExists and Lookup
unfoldable pub has_version : String → List CrdVersion → Bool
has_version n [] = false
has_version n (v ∷ vs) = if str_eq v.name n then true else has_version n vs

abbrev pub vacuum : String
vacuum = "vacuum"

-- The version that AppendVersion adds beside the first one. The texts of the descriptions in its schema are
-- left out.
abbrev pub vacuum_version : CrdVersion
vacuum_version = record {
  name = vacuum;
  served = false;
  storage = true;
  schema = some (
      some (record {
        properties = some (
            ("apiVersion", "{\"type\":\"string\"}")
            ∷ ("kind", "{\"type\":\"string\"}")
            ∷ ("metadata", "{\"type\":\"object\"}")
            ∷ ("spec", "{\"type\":\"object\",\"x-kubernetes-preserve-unknown-fields\":true}")
            ∷ ("status", "{\"type\":\"object\",\"x-kubernetes-preserve-unknown-fields\":true}")
            ∷ []);
        rest = "{\"type\":\"object\"}";
      }));
}

abbrev pub serve : CrdVersion → CrdVersion
serve v = if str_eq v.name vacuum then v else record v { served = true; storage = false }

-- one round of the outer loop of AppendVersion
unfoldable pub append_one : List CrdVersion → CrdVersion → List CrdVersion
append_one versions v =
    if has_version v.name versions
    then versions
    else map serve
        (versions ++ v ∷ (if has_version vacuum versions then [] else vacuum_version ∷ []))

unfoldable pub append_all : List CrdVersion → List CrdVersion → List CrdVersion
append_all versions [] = versions
append_all versions (v ∷ vs) = append_all (append_one versions v) vs

-- AppendVersion(crd, toadd): it never fails
unfoldable pub append_version : Crd → Crd → Result Crd
append_version crd toadd = ok (record crd { versions = append_all crd.versions toadd.versions })

-- Properties["status"] of a schema, where both pointers are set and the key is there
abbrev pub status_of_schema : Option (Option OpenApiSchema) → Option JsonProps
status_of_schema none = none
status_of_schema (some none) = none
status_of_schema (some (some s)) = elim s.properties [ none ↦ none | some m ↦ lookup "status" m ]

-- searchFirstStatus, with the property that is found there
unfoldable pub first_status : List CrdVersion → Option JsonProps
first_status [] = none
first_status (v ∷ vs) = elim (status_of_schema v.schema) [
  | some p ↦ some p
  | none ↦ first_status vs
]

-- Properties["status"], the zero value where there is none
abbrev pub new_status : OpenApiSchema → JsonProps
new_status s = elim s.properties [
  | none ↦ "{}"
  | some m ↦ elim (lookup "status" m) [ none ↦ "{}" | some p ↦ p ]
]

-- Properties["status"] = newStatus, a panic on a nil map
abbrev pub set_status :
    JsonProps → Option (Option OpenApiSchema) → Result (Option (Option OpenApiSchema))
set_status p none = ok none
set_status p (some none) = ok (some none)
set_status p (some (some s)) = elim s.properties [
  | none ↦ err (panic "assignment to entry in nil map")
  | some m ↦ ok (some (some (record s { properties = some (insert "status" p m) })))
]

unfoldable pub set_statuses : JsonProps → List CrdVersion → Result (List CrdVersion)
set_statuses p [] = ok []
set_statuses p (v ∷ vs) = elim (set_status p v.schema) [
  | err e ↦ err e
  | ok s ↦ elim (set_statuses p vs) [
    | err e ↦ err e
    | ok rest ↦ ok (record v { schema = s } ∷ rest)
  ]
]

abbrev pub schema_is_nil : Error
schema_is_nil = text "CRD %s version %s schema is nil"

-- UpdateStatus(crd, version)
unfoldable pub update_status : Crd → CrdVersion → Result Crd
unfolding set_statuses
update_status crd version = elim version.schema [
  | none ↦ err schema_is_nil
  | some none ↦ err schema_is_nil
  | some (some s) ↦ elim (set_statuses (new_status s) crd.versions) [
    | err e ↦ err e
    | ok vs ↦ ok (record crd { versions = vs })
  ]
]

module _ (marshal : JsonProps → Result (List ℕ)) where
  -- the digest of the first status of a CRD
  unfoldable pub status_digest : String → Crd → Result (List ℕ)
  unfolding first_status
  status_digest hashing crd = elim (first_status crd.versions) [
    | none ↦ err (text "CRD %s has no version with status property")
    | some p ↦ elim (sum_hash marshal (p ∷ []) new_fnv_object_hash).0 [
      | err e ↦ err (wrap hashing e)
      | ok u ↦ ok (get_hash (sum_hash marshal (p ∷ []) new_fnv_object_hash).1)
    ]
  ]

  -- StatusEqual(crd1, crd2)
  unfoldable pub status_equal : Crd → Crd → Result Bool
  status_equal crd1 crd2 = elim (status_digest "error hashing CRD status" crd1) [
    | err e ↦ err e
    | ok d1 ↦ elim (status_digest "error hashing generated CRD status" crd2) [
      | err e ↦ err e
      | ok d2 ↦ ok (codes_eq d1 d2)
    ]
  ]

-- GVKExists(crd, gvk)
unfoldable pub gvk_exists : Crd → GroupVersionKind → Bool
unfolding has_version
gvk_exists crd gvk =
    if not (str_eq crd.group gvk.group)
    then false
    else if not (str_eq crd.kind gvk.kind)
    then false
    else has_version gvk.version crd.versions
