-- ===== src/Examples/Moves.antt =====
-- Updates of compositions, of definitions and of CRDs at concrete inputs.
use core_provider.Base.{ℕ, List, [], ◌∷◌, Option, some, Bool, true, ◌≡◌, refl, str_eq}
use core_provider.Base.Result.{ok}
use core_provider.Base.Exec.{on_error, ◌>>=◌}
use core_provider.Schema.{NamespacedName, Object, group_resource, GroupVersionResource}
use core_provider.Types.{CompositionDefinition}
use core_provider.Composition.{
  api_config, get_compositions_with_retry, update_each, update_composition_with_retry,
  update_composition, update_found, labels_of, relabel, label, updated, Compositions, Labels,
  version_label, get_compositions, update_compositions_version,
}
use core_provider.Composition.Update.{AllMoved, update_compositions_version-ok}
use core_provider.Definition.{
  update_status_once, update_once, Definitions, update_status_with_retry, update_with_retry,
}
use core_provider.Definition.Update.{
  StatusUpdated, Updated, update_status_with_retry-ok, update_with_retry-ok,
}
use core_provider.Crd.{CrdVersion, Crd}
use core_provider.Crd.Cluster.{create_crd, is_ready, CrdPlatform, crd_gvk, get, apply_or_update_crd}
use core_provider.Crd.Updates.{gvr_of, Done}
use core_provider.Crd.Updates.Branches.{apply_or_update_crd-ok}
use core_provider.Watcher.{event, watch_resource}
use core_provider.Kube.{apply_to, apply, apply_once}
use core_provider.Retry.{retry_do}
use core_provider.Examples.Fixtures.{api_errors, a_wait, a_gvr, an_empty_client, webhook_opts}
use core_provider.Examples.Crds.{new_crd, old_crd, later_crd, a_version, a_definition}
use core_provider.Crd.Serving.{Sent, apply_or_update_crd-Sent}
use core_provider.Crd.Generation.{status_equal, has_version}

-- One composition, which is its labels.
abbrev old_labels : Labels
old_labels = (version_label, "v1-0-0") ∷ []

abbrev one_composition : Compositions ℕ Labels
one_composition = record {
  api = api_errors;
  wait = a_wait;
  selector = λ k v. ok v;
  list = λ gvr s w. (ok (old_labels ∷ []), w);
  get = λ gvr namespace name w. (ok old_labels, w);
  update = λ gvr namespace c w. (ok c, 1);
  namespace_of = λ c. "default";
  name_of = λ c. "a";
  nested_labels = λ c. ok (some c);
  set_nested_labels = λ m c. ok m;
}

moved : update_compositions_version one_composition a_gvr "v2-0-0" 0 ≡ (ok tt, 1)
unfolding update_compositions_version ◌>>=◌ on_error get_compositions_with_retry retry_do api_config
    get_compositions update_each update_composition_with_retry update_composition update_found
    labels_of relabel label updated
moved = refl

update_compositions_version-ok_example :
    (items : List Labels) × (u v : ℕ) × (get_compositions one_composition a_gvr u ≡ (ok items, v))
    × AllMoved one_composition a_gvr "v2-0-0" items v 1
update_compositions_version-ok_example =
    update_compositions_version-ok one_composition a_gvr "v2-0-0" 0 1 moved

abbrev one_definition : Definitions ℕ
one_definition = record {
  api = api_errors;
  wait = a_wait;
  get = λ key w. (ok a_definition, w);
  update = λ cd w. (ok cd, 1);
  update_status = λ cd w. (ok cd, 2);
  deep_equal = λ s t. str_eq s.kind t.kind;
}

abbrev a_key : NamespacedName
a_key = record { namespace = "default"; name = "fireworks" }

abbrev with_kind : CompositionDefinition → CompositionDefinition
with_kind cd = record cd { status = record cd.status { kind = "Fireworks" } }

status_updated : update_status_with_retry one_definition a_key with_kind 0 ≡ (ok tt, 2)
unfolding update_status_with_retry on_error retry_do api_config update_status_once
status_updated = refl

update_status_with_retry-ok_example : StatusUpdated one_definition a_key with_kind 2
update_status_with_retry-ok_example =
    update_status_with_retry-ok one_definition a_key with_kind 0 2 status_updated

abbrev always : CompositionDefinition → Bool × CompositionDefinition
always cd = (true, with_kind cd)

definition_updated : update_with_retry one_definition a_key always 0 ≡ (ok tt, 1)
unfolding update_with_retry on_error retry_do api_config update_once
definition_updated = refl

update_with_retry-ok_example : Updated one_definition a_key always 1
update_with_retry-ok_example =
    update_with_retry-ok one_definition a_key always 0 1 definition_updated

abbrev crd_object : Object Crd
crd_object = record {
  gvk = crd_gvk;
  namespace = "";
  name = "fireworks.composition.krateo.io";
  resource_version = "";
  body = record new_crd { conditions = ("Established", "True") ∷ [] };
}

-- No CRD is there, and the one that is created is established at once.
abbrev a_fresh_platform : CrdPlatform ℕ
a_fresh_platform = record {
  client = an_empty_client;
  api = api_errors;
  wait = a_wait;
  register = λ w. (ok tt, w);
  resource_name = λ gr. gr.resource;
  watch_crds = λ namespace name w. (ok (event "ADDED" (some crd_object) ∷ []), w);
  marshal = λ p. ok [];
}

abbrev new_gvr : GroupVersionResource
new_gvr = record { group = "composition.krateo.io"; version = "v2-0-0"; resource = "fireworks" }

crd_applied :
    apply_or_update_crd a_fresh_platform webhook_opts crd_object 0 ≡ (ok (new_gvr, crd_object), 0)
unfolding apply_or_update_crd ◌>>=◌ on_error get create_crd apply_to apply retry_do apply_once
    watch_resource is_ready
crd_applied = refl

apply_or_update_crd-ok_example :
    (version : CrdVersion) × (rest : List CrdVersion) × (v : ℕ) × (found : Option (Object Crd))
    × (crd_object.body.versions ≡ version ∷ rest)
    × (get a_fresh_platform (group_resource (gvr_of version crd_object)) 0 ≡ (ok found, v))
    × Done a_fresh_platform webhook_opts (gvr_of version crd_object) version crd_object v 0 found
apply_or_update_crd-ok_example =
    apply_or_update_crd-ok a_fresh_platform webhook_opts crd_object 0 0 new_gvr crd_object
      crd_applied

abbrev first_object : Object Crd
first_object = record crd_object { body = old_crd; resource_version = "7" }

abbrev added_object : Object Crd
added_object = record crd_object { body = later_crd }

-- The CRD has another version with the same status, and the new one is established at once.
abbrev a_used_platform : CrdPlatform ℕ
a_used_platform = record a_fresh_platform {
  client = record an_empty_client { get = λ gvk nn w. (ok first_object, w) };
}

version_added :
    apply_or_update_crd a_used_platform webhook_opts added_object 0
    ≡ (ok (new_gvr, added_object), 0)
unfolding apply_or_update_crd ◌>>=◌ on_error get apply_to apply retry_do apply_once watch_resource
    is_ready core_provider.Crd.Cluster.update_crd status_equal
    core_provider.Crd.Generation.status_digest core_provider.Crd.lookup core_provider.Hash.sum_hash
    core_provider.Base.codes_eq core_provider.Hash.get_hash core_provider.Hash.write
    core_provider.Hash.new_fnv_object_hash core_provider.Crd.Generation.gvk_exists
    core_provider.Crd.Cluster.add_version core_provider.Crd.Generation.append_version
    core_provider.Crd.Cluster.check_webhook
version_added = refl

status_kept : status_equal a_used_platform.marshal first_object.body added_object.body ≡ ok true
unfolding status_equal core_provider.Crd.Generation.status_digest core_provider.Crd.lookup
    core_provider.Hash.sum_hash core_provider.Base.codes_eq core_provider.Hash.get_hash
    core_provider.Hash.write core_provider.Hash.new_fnv_object_hash
status_kept = refl

apply_or_update_crd-Sent_example : Sent a_used_platform first_object (a_version "v2-0-0" "{}") 0 0
unfolding has_version get ◌>>=◌
apply_or_update_crd-Sent_example =
    apply_or_update_crd-Sent a_used_platform webhook_opts added_object first_object
      (a_version "v2-0-0" "{}") [] refl refl refl status_kept refl 0 0 0 new_gvr added_object refl
      version_added
