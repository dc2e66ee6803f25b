-- ===== src/Conversion/Fields.antt =====
-- What a conversion keeps.
use mathlib.Core.Path.{subst}
use core_provider.Base.{String, List, [], ◌∷◌, false, ◌||◌, ◌≡◌, refl, arith, str_eq, inl, inr}
use core_provider.Base.Result.{Result, ok, Result-split}
use core_provider.Defaults.{Members}
use core_provider.Convertible.{
  Unstructured, field, copy_field, create_empty_convertible, field-copy_field,
}
use core_provider.Conversion.{
  ConversionRequest, ConversionResponse, converted, convert_objects, handle_convert_request,
}

module _ (decode : String → Result (Members × String)) (u : Unstructured) where
  metadata_kept :
      (d k : String) (src : Members)
      → field "metadata" (converted decode u d k src) ≡ field "metadata" src
  unfolding converted
  metadata_kept d k src = rw (field-copy_field, field-copy_field, field-copy_field) refl

  spec_kept :
      (d k : String) (src : Members) → field "spec" (converted decode u d k src) ≡ field "spec" src
  unfolding converted
  spec_kept d k src = rw (field-copy_field, field-copy_field) refl

  status_kept :
      (d k : String) (src : Members)
      → field "status" (converted decode u d k src) ≡ field "status" src
  unfolding converted
  status_kept d k src = rw field-copy_field refl

  -- The answer to a request: object by object, it was decoded, and the converted one is an object of
  -- the desired version and of its own kind with the same metadata, spec and status, where a missing
  -- field counts as null.
  pub data AllConverted (desired : String) : List String → List Members → Type 0 where
    nothing : AllConverted desired [] []
    convert :
        {raw : String} {raws : List String} {dst : Members} {dsts : List Members} (src : Members)
        (kind : String)
        → decode raw ≡ ok (src, kind)
        → field "metadata" dst ≡ field "metadata" src
        → field "spec" dst ≡ field "spec" src
        → field "status" dst ≡ field "status" src
        → ((k : String)
            → (str_eq "metadata" k || str_eq "spec" k || str_eq "status" k) ≡ false
            → field k dst ≡ field k (create_empty_convertible u desired kind))
        → AllConverted desired raws dsts
        → AllConverted desired (raw ∷ raws) (dst ∷ dsts)

  others_empty :
      (d kind : String) (src : Members) (k : String)
      → (str_eq "metadata" k || str_eq "spec" k || str_eq "status" k) ≡ false
      → field k (converted decode u d kind src) ≡ field k (create_empty_convertible u d kind)
  unfolding converted
  others_empty d kind src k h = ground (
    arith,
    field-copy_field k "status" src
        (copy_field "spec" src (copy_field "metadata" src (create_empty_convertible u d kind))),
    field-copy_field k "spec" src (copy_field "metadata" src (create_empty_convertible u d kind)),
    field-copy_field k "metadata" src (create_empty_convertible u d kind),
  )

  convert_objects-AllConverted :
      (desired : String) (raws : List String) (objects : List Members)
      → convert_objects decode u desired raws ≡ ok objects
      → AllConverted desired raws objects
  unfolding convert_objects
  convert_objects-AllConverted desired [] objects h =
      subst (AllConverted desired []) (ground arith) nothing
  convert_objects-AllConverted desired (raw ∷ rest) objects h = elim (Result-split (decode raw)) [
    | inr (e, q) ↦ ground arith
    | inl ((src, kind), q) ↦ elim (Result-split (convert_objects decode u desired rest)) [
      | inr (e, q') ↦ ground arith
      | inl (dsts, q') ↦ subst (AllConverted desired (raw ∷ rest)) (ground arith) (
          convert {dst = converted decode u desired kind src} src kind q
            (metadata_kept desired kind src) (spec_kept desired kind src)
            (status_kept desired kind src) (others_empty desired kind src)
            (convert_objects-AllConverted desired rest dsts q'))
    ]
  ]

  -- A conversion that succeeds answers with the identifier of the request and with all objects of the
  -- request in their order, each converted to the desired version: its metadata, spec and status are
  -- those of the object that was sent, its other fields those of an empty object of that version.
  pub handle_convert_request-ok :
      (req : ConversionRequest) (response : ConversionResponse)
      → handle_convert_request decode u req ≡ ok response
      → (response.uid ≡ req.uid)
        × AllConverted req.desired_api_version req.objects response.converted_objects
  unfolding handle_convert_request
  handle_convert_request-ok req response h =
      elim (Result-split (convert_objects decode u req.desired_api_version req.objects)) [
        | inr (e, q) ↦ ground arith
        | inl (dsts, q) ↦ (
          ground arith,
          subst (AllConverted req.desired_api_version req.objects) (ground arith)
              (convert_objects-AllConverted req.desired_api_version req.objects dsts q),
        )
      ]
