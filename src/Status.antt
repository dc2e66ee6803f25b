-- ===== src/Status.antt =====
-- internal/controllers/compositiondefinitions/helpers/status/status.go
-- `to_api_version` is the group and version of a GroupVersionKind as one text, which the library's
-- ToAPIVersionAndKind makes.
pub mod Versions
use core_provider.Base.{
  ℕ, String, List, [], ◌∷◌, ◌++◌, Option, none, some, Bool, str_eq, if◌then◌else◌,
}
use core_provider.Schema.{GroupVersionKind, GroupVersionResource}
use core_provider.Types.{
  ChartInfo, VersionDetail, Managed, CompositionDefinitionStatus, CompositionDefinition,
}
use core_provider.Crd.{CrdVersion, Crd}

-- the search for the version: `none` stands for the index -1
unfoldable pub detail_of : String → List VersionDetail → Option VersionDetail
detail_of n [] = none
detail_of n (d ∷ ds) = if str_eq d.version n then some d else detail_of n ds

-- the writes to the entry at the index that the search has found, the first of that name
unfoldable pub set_served_stored : CrdVersion → List VersionDetail → List VersionDetail
set_served_stored v [] = []
set_served_stored v (d ∷ ds) =
    if str_eq d.version v.name
    then record d { served = v.served; stored = v.storage } ∷ ds
    else d ∷ set_served_stored v ds

-- A version that is new: `chart` is what `cr.Spec.Chart` points to, whose fields are copied one by
-- one. The callers have read the chart before, which fails for a nil pointer.
unfoldable pub new_detail : ChartInfo → GroupVersionResource → CrdVersion → VersionDetail
new_detail chart gvr v = record {
  version = v.name;
  served = v.served;
  stored = v.storage;
  chart = if str_eq gvr.version v.name then some chart else none;
}

-- one round of the loop of UpdateVersionInfo
unfoldable pub update_version_one :
    ChartInfo → GroupVersionResource → List VersionDetail → CrdVersion → List VersionDetail
update_version_one chart gvr infos v = elim (detail_of v.name infos) [
  | none ↦ infos ++ new_detail chart gvr v ∷ []
  | some d ↦ set_served_stored v infos
]

unfoldable pub update_versions :
    ChartInfo → GroupVersionResource → List VersionDetail → List CrdVersion → List VersionDetail
update_versions chart gvr infos [] = infos
update_versions chart gvr infos (v ∷ vs) =
    update_versions chart gvr (update_version_one chart gvr infos v) vs

-- UpdateVersionInfo(cr, crd, gvr)
unfoldable pub update_version_info :
    ChartInfo → CompositionDefinition → Crd → GroupVersionResource → CompositionDefinition
update_version_info chart cr crd gvr = record cr {
  status = record cr.status {
    managed = record cr.status.managed {
      version_info = update_versions chart gvr cr.status.managed.version_info crd.versions;
    };
  };
}

-- RefreshCompositionDefinitionStatus(cr, crd, gvr, gvk, packageURL): its error is always nil
unfoldable pub refresh_composition_definition_status :
    (GroupVersionKind → String)
    → ChartInfo
    → CompositionDefinition
    → Crd
    → GroupVersionResource
    → GroupVersionKind
    → String
    → CompositionDefinition
unfolding update_version_info
refresh_composition_definition_status to_api_version chart cr crd gvr gvk package_url =
    let updated = update_version_info chart cr crd gvr in
    record updated {
      status = record updated.status {
        managed = record updated.status.managed { group = crd.group; kind = crd.kind };
        api_version = to_api_version gvk;
        kind = gvk.kind;
        resource = gvr.resource;
        package_url = package_url;
      };
    }
