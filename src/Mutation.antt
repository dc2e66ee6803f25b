-- ===== src/Mutation.antt =====
-- internal/controllers/compositiondefinitions/webhooks/mutation/mutation.go: the webhook that completes
-- a composition with the defaults of its CRD and labels it with its version.
pub mod Patches
use core_provider.Base.{
  String, List, [], ◌∷◌, ◌++◌, Option, none, some, Bool, true, false, str_eq, if◌then◌else◌,
}
use core_provider.Base.Result.{Error, text, Result, ok, err}
use core_provider.Base.Exec.{Exec}
use core_provider.Schema.{GroupResource, Object}
use core_provider.Crd.{JsonProps, Crd}
use core_provider.Crd.Cluster
use core_provider.Crd.Cluster.{CrdPlatform}
use core_provider.Defaults.{Json, object, string, Members, no_members, Properties}
use core_provider.Defaults.Populate.{populate_defaults_from_crd}

-- jsonpatch.Operation: its operation, path and value
pub record Op : Type 0 where
  pub operation : String
  pub path : String
  pub value : Json

-- AdmissionRequest: the operation, the kind's group and version, the resource and the object's bytes
pub record Request : Type 0 where
  pub operation : String
  pub group : String
  pub version : String
  pub resource : String
  pub raw : String

pub data Response : Type 0 where
  patched : List Op → Response
  errored : Error → Response

-- What the handler takes from libraries: `has_labels` says whether the unmarshalled
-- object has labels, `decode` gives the fields of the object, `marshal` its JSON, `create_patch` the operations
-- from one text to the other; the rest is that of PopulateDefaultsFromCRD.
pub record Webhook : Type 0 where
  pub has_labels : String → Result Bool
  pub decode : String → Result Members
  pub marshal : Members → Result String
  pub create_patch : String → String → Result (List Op)
  pub unmarshal : String → Result Json
  pub truncate : String → String
  pub version_of : String → Option String
  pub properties_of : JsonProps → Properties

abbrev pub version_op : Request → Op
version_op req = record {
  operation = "add";
  path = "/metadata/labels/krateo.io~1composition-version";
  value = string req.version;
}

abbrev pub labels_op : Op
labels_op = record { operation = "add"; path = "/metadata/labels"; value = object no_members }

-- the operations for the label, for a creation only
unfoldable pub label_ops : Request → Bool → List Op
label_ops req has_labels =
    if str_eq req.operation "CREATE"
    then if has_labels then version_op req ∷ [] else labels_op ∷ version_op req ∷ []
    else []

module _ (h : Webhook) where
  -- the operations from the object to the completed one
  unfoldable pub default_ops : Request → Crd → Result (List Op)
  default_ops req crd = elim (h.decode req.raw) [
    | err e ↦ err e
    | ok cr ↦
        elim (populate_defaults_from_crd h.unmarshal h.truncate h.version_of h.properties_of crd
          cr) [
            | err e ↦ err e
            | ok cr' ↦ elim (h.marshal cr') [ err e ↦ err e | ok b ↦ h.create_patch req.raw b ]
          ]
  ]

  unfoldable pub respond : Request → Bool → Result (Option (Object Crd)) → Response
  respond req has_labels (err e) = errored e
  respond req has_labels (ok none) = errored (text "CRD not found")
  respond req has_labels (ok (some crd)) = elim (default_ops req crd.body) [
    | err e ↦ errored e
    | ok patch ↦ patched (patch ++ label_ops req has_labels)
  ]

  -- the handler of NewWebhookHandler
  unfoldable pub handle : {W : Type 0} → CrdPlatform W → Request → W → Response × W
  handle p req w = elim (h.has_labels req.raw) [
    | err e ↦ (errored e, w)
    | ok has_labels ↦
        let (found, w') = Cluster.get p (record { group = req.group; resource = req.resource }) w in
        (respond req has_labels found, w')
  ]
