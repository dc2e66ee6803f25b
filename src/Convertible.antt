-- ===== src/Convertible.antt =====
-- internal/controllers/compositiondefinitions/webhooks/utils/convertible: convertible.go and hub.go, the
-- objects that a conversion goes between.
use core_provider.Base.{String, ◌≡◌, refl, arith, str_eq, if◌then◌else◌, none, some}
use core_provider.Defaults.{Json, null, Members, no_members, value_at, set_value}
use core_provider.Defaults.Extension.{value_at-set_value}

-- SetAPIVersion and SetKind of an unstructured object
pub record Unstructured : Type 0 where
  pub set_api_version : String → Members → Members
  pub set_kind : String → Members → Members

-- src.Object[key], nil where there is none
unfoldable pub field : String → Members → Json
field k src = elim (value_at k src) [ none ↦ null | some v ↦ v ]

unfoldable pub copy_field : String → Members → Members → Members
unfolding field
copy_field k src dst = set_value k (field k src) dst

-- src.ConvertTo(dst), as the object of dst afterwards
unfoldable pub convert_to : Members → Members → Members
convert_to src dst = copy_field "status" src (copy_field "spec" src (copy_field "metadata" src dst))

-- dst.ConvertFrom(src), as the object of dst afterwards
unfoldable pub convert_from : Members → Members → Members
convert_from dst src =
    copy_field "status" src (copy_field "spec" src (copy_field "metadata" src dst))

-- CreateEmptyConvertible(apiVersion, kind)
unfoldable pub create_empty_convertible : Unstructured → String → String → Members
create_empty_convertible u version kind = u.set_kind kind (u.set_api_version version no_members)

pub field-copy_field :
    (j k : String) (src dst : Members)
    → field j (copy_field k src dst) ≡ (if str_eq k j then field k src else field j dst)
unfolding field copy_field
field-copy_field j k src dst = ground (arith, value_at-set_value j k (field k src) dst)

convert_from-same :
    (dst s t : Members)
    → field "metadata" s ≡ field "metadata" t
    → field "spec" s ≡ field "spec" t
    → field "status" s ≡ field "status" t
    → convert_from dst s ≡ convert_from dst t
unfolding convert_from copy_field
convert_from-same dst s t m p u = rw (m, p, u) refl

-- Converting to any hub and from it loses nothing: it gives what converting from the object itself gives.
pub convert_from-convert_to :
    (src hub dst : Members) → convert_from dst (convert_to src hub) ≡ convert_from dst src
unfolding convert_to
convert_from-convert_to src hub dst =
    convert_from-same dst (convert_to src hub) src
      (rw (field-copy_field, field-copy_field, field-copy_field) refl)
      (rw (field-copy_field, field-copy_field) refl) (rw field-copy_field refl)
