-- ===== src/Deployment/Restart.antt =====
-- A restart of the deployment, and the hash that must not see it.
use core_provider.Base.{String, List, [], ◌∷◌, none, some, true, ◌≡◌, arith, str_eq, eq_refl}
use core_provider.Schema.{Object}
use core_provider.Deployment.{
  Annotations, Body, annotate, remove_annotation, restarted_at, clean_from_restart_annotation,
  restarted,
}

-- the entries of a map, of which a nil map has none
abbrev pub entries : Annotations → List (String × String)
entries none = []
entries (some m) = m

remove_annotation-annotate :
    (k v : String) (m : List (String × String))
    → str_eq k k ≡ true
    → remove_annotation k (annotate k v m) ≡ remove_annotation k m
unfolding annotate remove_annotation
remove_annotation-annotate k v [] same = ground arith
remove_annotation-annotate k v ((j, u) ∷ m) same =
    let ih = remove_annotation-annotate k v m same in ground arith

-- Without the restart annotation, the pod template of a deployment has the same annotations before
-- and after a restart at any time, where a nil map counts as empty.
pub clean_from_restart_annotation-restarted :
    (now : String) (d : Object Body)
    → entries (clean_from_restart_annotation (restarted now d)).body.template_annotations
      ≡ entries (clean_from_restart_annotation d).body.template_annotations
unfolding clean_from_restart_annotation restarted
clean_from_restart_annotation-restarted now d = cleaned d.body.template_annotations
  where
    cleaned :
        (a : Annotations)
        → entries
            (clean_from_restart_annotation (
              restarted now (record d {
                body = record d.body { template_annotations = a };
              }))).body.template_annotations
          ≡ entries
              (clean_from_restart_annotation (record d {
                body = record d.body { template_annotations = a };
              })).body.template_annotations
    cleaned none = remove_annotation-annotate restarted_at now [] (eq_refl restarted_at)
    cleaned (some m) = remove_annotation-annotate restarted_at now m (eq_refl restarted_at)
