-- ===== src/Pluralizer.antt =====
-- internal/tools/pluralizer/pluralizer.go
use core_provider.Base.{String}
use core_provider.Base.Exec.{Exec, pure, ◌>>=◌}
use core_provider.Schema.{GroupVersionKind, GroupVersionResource}

-- a PluralizerInterface, by its only method
abbrev pub Pluralizer : Type 0 → Type 0
Pluralizer W = GroupVersionKind → Exec W GroupVersionResource

-- GVKtoGVR(gvk), over the plural that plurals.Get gives; the cache of the struct has no part in it
unfoldable pub gvk_to_gvr : {W : Type 0} → (GroupVersionKind → Exec W String) → Pluralizer W
gvk_to_gvr plural gvk = do
  resource ← plural gvk
  pure (record { group = gvk.group; version = gvk.version; resource = resource })
