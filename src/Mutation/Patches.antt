-- ===== src/Mutation/Patches.antt =====
-- What the webhook answers where it does not refuse.
use core_provider.Base.{
  refl, if◌then◌else◌, Bool-cases, true, false, str_eq, [], ◌∷◌, String, List, ◌++◌, Option, none,
  some, Bool, ◌≡◌, ap, arith, inl, inr,
}
use core_provider.Base.Result.{Result, ok, err, Result-split}
use core_provider.Schema.{Object}
use core_provider.Crd.{Crd}
use core_provider.Crd.Cluster
use core_provider.Crd.Cluster.{CrdPlatform}
use core_provider.Defaults.{Members, string, object, no_members}
use core_provider.Defaults.Populate.{populate_defaults_from_crd}
use core_provider.Mutation.{
  Op, Request, Response, patched, Webhook, version_op, labels_op, label_ops, default_ops, respond,
  handle,
}

module _ (h : Webhook) where
  -- The object `cr` of a request is completed to `cr'` by the defaults of the CRD, and `patch` leads from
  -- the one to the other.
  pub record Completed (req : Request) (crd : Crd) (patch : List Op) : Type 0 where
    pub cr : Members
    pub cr' : Members
    pub bytes : String
    pub decoded : h.decode req.raw ≡ ok cr
    pub populated :
        populate_defaults_from_crd h.unmarshal h.truncate h.version_of h.properties_of crd cr
        ≡ ok cr'
    pub written : h.marshal cr' ≡ ok bytes
    pub compared : h.create_patch req.raw bytes ≡ ok patch

  -- The operations for the label. Only a creation has any: the last sets the label of the version to the
  -- version of the kind, and an object without labels gets an empty map of them first.
  pub data LabelledBy (req : Request) (has_labels : Bool) : List Op → Type 0 where
    no_creation : str_eq req.operation "CREATE" ≡ false → LabelledBy req has_labels []
    label_added :
        str_eq req.operation "CREATE" ≡ true
        → has_labels ≡ true
        → LabelledBy req has_labels (
            record {
              operation = "add";
              path = "/metadata/labels/krateo.io~1composition-version";
              value = string req.version;
            }
            ∷ [])
    labels_made :
        str_eq req.operation "CREATE" ≡ true
        → has_labels ≡ false
        → LabelledBy req has_labels (
            record { operation = "add"; path = "/metadata/labels"; value = object no_members }
            ∷ record {
              operation = "add";
              path = "/metadata/labels/krateo.io~1composition-version";
              value = string req.version;
            }
            ∷ [])

  label_ops-LabelledBy :
      (req : Request) (has_labels : Bool) → LabelledBy req has_labels (label_ops req has_labels)
  unfolding label_ops
  label_ops-LabelledBy req has_labels = elim (Bool-cases (str_eq req.operation "CREATE")) [
    | inr other ↦ rw other (no_creation other)
    | inl creation ↦ rw creation (for_creation has_labels creation)
  ]
    where
      for_creation :
          (has_labels : Bool)
          → str_eq req.operation "CREATE" ≡ true
          → LabelledBy req has_labels
              (if has_labels then version_op req ∷ [] else labels_op ∷ version_op req ∷ [])
      for_creation true creation = label_added creation refl
      for_creation false creation = labels_made creation refl

  default_ops-Completed :
      (req : Request) (crd : Crd) (patch : List Op)
      → default_ops h req crd ≡ ok patch
      → Completed req crd patch
  unfolding default_ops
  default_ops-Completed req crd patch e = elim (Result-split (h.decode req.raw)) [
    | inr (x, d) ↦ ground arith
    | inl (cr, d) ↦
        elim (Result-split
          (populate_defaults_from_crd h.unmarshal h.truncate h.version_of h.properties_of crd cr)) [
            | inr (x, q) ↦ ground arith
            | inl (cr', q) ↦ elim (Result-split (h.marshal cr')) [
              | inr (x, b) ↦ ground arith
              | inl (bytes, b) ↦ record {
                cr = cr;
                cr' = cr';
                bytes = bytes;
                decoded = d;
                populated = q;
                written = b;
                compared = ground arith;
              }
            ]
          ]
  ]

  respond-patched :
      (req : Request) (has_labels : Bool) (crd : Object Crd) (ops : List Op)
      → respond h req has_labels (ok (some crd)) ≡ patched ops
      → (patch : List Op) × Completed req crd.body patch
        × (extra : List Op) × LabelledBy req has_labels extra
        × (ops ≡ patch ++ extra)
  unfolding respond
  respond-patched req has_labels crd ops e = elim (Result-split (default_ops h req crd.body)) [
    | inr (x, d) ↦ ground arith
    | inl (patch, d) ↦ (
      patch,
      default_ops-Completed req crd.body patch d,
      label_ops req has_labels,
      label_ops-LabelledBy req has_labels,
      ground arith,
    )
  ]

  -- Where the webhook answers with a patch, the CRD of the resource has been found, and the operations
  -- are those that lead from the object to the object with the defaults of the CRD, followed by those for
  -- the label: for an operation other than CREATE there are none of these; for a CREATE the last sets the
  -- label to the version of the kind, and one before it makes the map of the labels exactly where the
  -- object has none.
  pub handle-patched :
      {W : Type 0} (p : CrdPlatform W) (req : Request) (ops : List Op) (w w' : W)
      → handle h p req w ≡ (patched ops, w')
      → (has_labels : Bool) × (crd : Object Crd) × (patch : List Op) × (h.has_labels req.raw
          ≡ ok has_labels)
        × (Cluster.get p (record { group = req.group; resource = req.resource }) w
            ≡ (ok (some crd), w'))
        × Completed req crd.body patch
        × (extra : List Op) × LabelledBy req has_labels extra
        × (ops ≡ patch ++ extra)
  unfolding handle respond
  handle-patched {W} p req ops w w' e = elim (Result-split (h.has_labels req.raw)) [
    | inr (x, l) ↦ ground arith
    | inl (has_labels, l) ↦
        let (crd, patch, g, c, extra, by, q) =
          found has_labels (Cluster.get p (record { group = req.group; resource = req.resource }) w)
            (ground arith) in
        (has_labels, crd, patch, l, g, c, extra, by, q)
  ]
    where
      found :
          (has_labels : Bool) (o : Result (Option (Object Crd)) × W)
          → ◌≡◌ {A = Response × W} (respond h req has_labels o.0, o.1) (patched ops, w')
          → (crd : Object Crd) × (patch : List Op) × (o ≡ (ok (some crd), w'))
            × Completed req crd.body patch
            × (extra : List Op) × LabelledBy req has_labels extra
            × (ops ≡ patch ++ extra)
      found has_labels (ok (some crd), u) q =
          let (patch, c, extra, by, eq) =
            respond-patched req has_labels crd ops (ap (λ o. o.0) q) in
          (crd, patch, ground arith, c, extra, by, eq)
      found has_labels (ok none, u) q = ground arith
      found has_labels (err x, u) q = ground arith
