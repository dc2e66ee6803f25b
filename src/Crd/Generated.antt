-- ===== src/Crd/Generated.antt =====
-- generation.go: GenerateCRD, GetGVRFromGeneratedCRD and Unmarshal.
use core_provider.Base.{String, List, [], ◌∷◌, Bool, true, false, if◌then◌else◌}
use core_provider.Base.Result.{panic, wrap, Result, ok, err}
use core_provider.Schema.{GroupVersionKind, GroupVersionResource, Object}
use core_provider.Crd.{CrdVersion, Crd}

-- `generate` is crdgen.Generate with the GVK and the schemas of spec and status, the other options being
-- constants; `decode` is the YAML serializer's Decode; the last two are the embedded JSON files.
pub record Crdgen : Type 0 where
  pub generate : GroupVersionKind → String → String → Result String
  pub decode : String → Result (Object Crd)
  pub status_json_schema : String
  pub empty_json_schema : String

module _ (p : Crdgen) where
  generated : Result String → Result String
  generated (ok res) = ok res
  generated (err e) = err (wrap "generating crd: %w" e)

  -- generateCRD(specSchema, gvk, onlyMetadata)
  unfoldable pub generate_bytes : String → GroupVersionKind → Bool → Result String
  unfolding generated
  generate_bytes spec gvk only_metadata =
      if only_metadata
      then generated (p.generate gvk p.empty_json_schema p.empty_json_schema)
      else generated (p.generate gvk spec p.status_json_schema)

  decoded : String → Result (Object Crd) → Result (Object Crd)
  decoded message (ok crd) = ok crd
  decoded message (err e) = err (wrap message e)

  made : String → String → Result String → Result (Object Crd)
  unfolding decoded
  made m n (ok bytes) = decoded n (p.decode bytes)
  made m n (err e) = err (wrap m e)

  -- GenerateCRD(specSchema, gvk)
  unfoldable pub generate_crd : String → GroupVersionKind → Result (Object Crd)
  unfolding made
  generate_crd spec gvk =
      made "error generating CRD: %w" "error unmarshalling generated CRD: %w"
        (generate_bytes spec gvk false)

  gvr_of_versions : Crd → List CrdVersion → Result GroupVersionResource
  gvr_of_versions crd [] = err (panic "index out of range [0] with length 0")
  gvr_of_versions crd (v ∷ vs) =
      ok (record { group = crd.group; version = v.name; resource = crd.plural })

  -- GetGVRFromGeneratedCRD(specSchema, gvk)
  unfoldable pub get_gvr_from_generated_crd :
      String → GroupVersionKind → Result GroupVersionResource
  unfolding made gvr_of_versions
  get_gvr_from_generated_crd spec gvk =
      elim (made "error generating CRD for GVR fallback: %w"
        "error unmarshalling generated CRD for GVR fallback: %w" (generate_bytes spec gvk true)) [
          | err e ↦ err e
          | ok crd ↦ gvr_of_versions crd.body crd.body.versions
        ]
