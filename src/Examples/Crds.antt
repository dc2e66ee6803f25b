-- ===== src/Examples/Crds.antt =====
-- CRDs, the status of a definition and a restart at concrete inputs.
use core_provider.Base.{ℕ, String, List, [], ◌∷◌, Option, none, some, true, false, ◌≡◌, refl}
use core_provider.Base.Result.{Result, ok}
use core_provider.Types.{CompositionDefinition}
use core_provider.Crd.{JsonProps, OpenApiSchema, CrdVersion, Crd, lookup, insert}
use core_provider.Crd.Generation.{
  append_one, append_all, has_version, append_version, set_statuses, update_status, status_equal,
  first_status,
}
use core_provider.Crd.Versions.{IsServable, append_version-IsServable}
use core_provider.Crd.Schemas.{schema_at, or_else, schema_at-append_version}
use core_provider.Crd.Statuses.{update_status-status_equal}
use core_provider.Status.{detail_of, update_version_info}
use core_provider.Status.Versions.{expected, last_version, detail_of-update_version_info}
use core_provider.Examples.Fixtures.{a_chart, a_gvr}

abbrev a_schema : JsonProps → Option (Option OpenApiSchema)
a_schema status = some (some (record { properties = some (("status", status) ∷ []); rest = "{}" }))

abbrev pub a_version : String → JsonProps → CrdVersion
a_version name status = record {
  name = name;
  served = true;
  storage = true;
  schema = a_schema status;
}

abbrev pub a_crd : List CrdVersion → Crd
a_crd versions = record {
  group = "composition.krateo.io";
  kind = "Fireworks";
  plural = "fireworks";
  versions = versions;
  conversion = none;
  conditions = [];
}

abbrev pub old_crd : Crd
old_crd = a_crd (a_version "v1-0-0" "{}" ∷ [])

abbrev pub new_crd : Crd
new_crd = a_crd (a_version "v2-0-0" "{\"type\":\"object\"}" ∷ [])

abbrev pub later_crd : Crd
later_crd = a_crd (a_version "v2-0-0" "{}" ∷ [])

both_versions : List CrdVersion
unfolding append_all append_one has_version
both_versions = append_all old_crd.versions new_crd.versions

appended : append_version old_crd new_crd ≡ ok (a_crd both_versions)
unfolding append_version both_versions append_all
appended = refl

append_version-IsServable_example : IsServable both_versions
unfolding has_version
append_version-IsServable_example =
    append_version-IsServable old_crd new_crd (a_crd both_versions) appended refl refl refl

schema_at-append_version_example :
    schema_at "v2-0-0" both_versions
    ≡ or_else (schema_at "v2-0-0" old_crd.versions) (schema_at "v2-0-0" new_crd.versions)
schema_at-append_version_example =
    schema_at-append_version "v2-0-0" refl old_crd new_crd (a_crd both_versions) appended

abbrev marshal_nothing : JsonProps → Result (List ℕ)
marshal_nothing p = ok (1 ∷ 2 ∷ [])

abbrev refreshed : Crd
refreshed = a_crd (a_version "v1-0-0" "{\"type\":\"object\"}" ∷ [])

update_status-status_equal_example : status_equal marshal_nothing refreshed new_crd ≡ ok true
unfolding update_status set_statuses first_status lookup insert
update_status-status_equal_example =
    update_status-status_equal marshal_nothing old_crd refreshed new_crd
      (a_version "v2-0-0" "{\"type\":\"object\"}") [] "{\"type\":\"object\"}" "{}" (1 ∷ 2 ∷ []) refl
      refl refl refl refl

abbrev pub a_definition : CompositionDefinition
a_definition = record {
  name = "fireworks";
  namespace = "default";
  labels = [];
  deleted = false;
  chart = some a_chart;
  status = record {
    condition = none;
    kind = "";
    resource = "";
    api_version = "";
    managed = record { version_info = []; group = ""; kind = "" };
    package_url = "";
    digest = [];
  };
}

detail_of-update_version_info_example :
    detail_of "v1-0-0"
      (update_version_info a_chart a_definition old_crd a_gvr).status.managed.version_info
    ≡ expected a_chart a_gvr "v1-0-0"
        (detail_of "v1-0-0" a_definition.status.managed.version_info)
        (last_version "v1-0-0" old_crd.versions)
detail_of-update_version_info_example =
    detail_of-update_version_info a_chart a_definition old_crd a_gvr "v1-0-0"
