-- ===== src/Controller/Delete/Order.antt =====
-- What a Delete that succeeds has done.
use mathlib.Core.Path.{subst}
use core_provider.Kube.{uninstall_of}
use core_provider.Base.{
  sym, ◌∙◌, none, List, [], ◌∷◌, Bool, true, false, ◌≡◌, ap, inl, inr, arith, ltb, length, ◌==◌,
}
use core_provider.Base.Result.{Error, Result, ok, err}
use core_provider.Base.Exec.{if-outcome, Exec, pure, raise, on_error-ok, >>=-ok, ◌>>=◌, beside}
use core_provider.Schema.{GroupVersionKind, GroupVersionResource, Object}
use core_provider.Types.{CompositionDefinition}
use core_provider.Composition.{get_compositions}
use core_provider.Chart.{Package, chart_info_from_spec, chart_group_version_kind}
use core_provider.Deploy.Uninstall.{undeploy}
use core_provider.Controller.{External, change_definition, with_condition, deploy_options}
use core_provider.Controller.Delete.Counts.{
  number, names_kind, names_version, definitions_with_version, definitions_of_kind,
}
use core_provider.Controller.Delete.{
  uninstall_each, waiting, delete_compositions, delete_versions, delete_deployment, delete_existing,
  delete_resolved, delete_world, delete,
}

module _ {W A L : Type 0} (x : External W A L) where
  -- The objects of a list are uninstalled one after the other, with options that are all unset.
  pub data UninstalledEach : List (Object L) → W → W → Type 0 where
    none_left : {w : W} → UninstalledEach [] w w
    uninstalled :
        {u : Object L} {us : List (Object L)} {w v w' : W}
        → uninstall_of x.composition_client x.compositions.api x.compositions.wait
            (record {
              grace_period_seconds = none;
              preconditions = none;
              propagation_policy = none;
              dry_run = [];
            })
            u
            w
          ≡ (ok tt, v)
        → UninstalledEach us v w'
        → UninstalledEach (u ∷ us) w w'

  uninstall_each-UninstalledEach :
      (us : List (Object L)) (w w' : W)
      → uninstall_each x us w ≡ (ok tt, w')
      → UninstalledEach us w w'
  unfolding uninstall_each
  uninstall_each-UninstalledEach [] w w' h =
      subst (UninstalledEach [] w) (ap (λ o. o.1) h) none_left
  uninstall_each-UninstalledEach (u ∷ us) w w' h =
      let (_, v, e, h1) = >>=-ok _ _ w tt w' h in
      uninstalled e (uninstall_each-UninstalledEach us v w' h1)

  -- Between the worlds `w` and `v`: the definitions are listed. If not exactly one names the kind and the
  -- version in its status, nothing else happens; if one does, the compositions are listed and
  -- uninstalled, and a listing after that is empty.
  pub data CompositionsGone (gvk : GroupVersionKind) (gvr : GroupVersionResource) (w v : W)
      : Type 0 where
    shared :
        (cds : List CompositionDefinition)
        → x.list_definitions w ≡ (ok cds, v)
        → (number (names_version x gvk) cds == 1) ≡ false
        → CompositionsGone gvk gvr w v
    emptied :
        (b c d : W) (cds : List CompositionDefinition) (ul : List (Object L))
        → x.list_definitions w ≡ (ok cds, b)
        → (number (names_version x gvk) cds == 1) ≡ true
        → get_compositions x.compositions gvr b ≡ (ok ul, c)
        → UninstalledEach ul c d
        → get_compositions x.compositions gvr d ≡ (ok [], v)
        → CompositionsGone gvk gvr w v

  delete_compositions-ok :
      (gvr : GroupVersionResource) (b v : W)
      → delete_compositions x gvr b ≡ (ok tt, v)
      → (ul : List (Object L)) × (c d : W) × (get_compositions x.compositions gvr b ≡ (ok ul, c))
        × UninstalledEach ul c d
        × (get_compositions x.compositions gvr d ≡ (ok [], v))
  unfolding delete_compositions
  delete_compositions-ok gvr b v h =
      let (ul, c, e1, h1) = >>=-ok _ _ b tt v h in
      let (_, d, e2, h2) = >>=-ok _ _ c tt v h1 in
      let (left, u, e3, h3) = >>=-ok _ _ d tt v h2 in
      (
        ul,
        c,
        d,
        on_error-ok _ _ b c ul e1,
        uninstall_each-UninstalledEach ul c d e2,
        empty d left u (on_error-ok _ _ d u left e3) h3,
      )
    where
      empty :
          (d : W) (left : List (Object L)) (u : W)
          → get_compositions x.compositions gvr d ≡ (ok left, u)
          → (elim left as (λ l. Exec W (Unit {0})) [ [] ↦ pure tt | u ∷ us ↦ raise (waiting x) ]) u
            ≡ (ok tt, v)
          → get_compositions x.compositions gvr d ≡ (ok [], v)
      empty d [] u e q = ground arith
      empty d (c ∷ cs) u e q = cc

  delete_versions-ok :
      (gvk : GroupVersionKind) (gvr : GroupVersionResource) (w v : W)
      → delete_versions x gvk gvr w ≡ (ok tt, v)
      → CompositionsGone gvk gvr w v
  unfolding delete_versions
  delete_versions-ok gvk gvr w v h =
      let (cds, b, e1, h1) = >>=-ok _ _ w tt v h in
      let listed = on_error-ok _ _ w b cds e1 in
      let (all, read, counted) = definitions_with_version x gvk w b cds listed in
      elim (if-outcome (length cds == 1) _ _ b (ok tt, v) h1) [
        | inl (one, run) ↦
            let (ul, c, d, e2, e3, e4) = delete_compositions-ok gvr b v run in
            emptied b c d all ul read (ap (λ n. n == 1) (sym counted) ∙ one) e2 e3 e4
        | inr (other, same) ↦
            shared all (read ∙ ap (λ o. (ok all, o.1)) same)
              (ap (λ n. n == 1) (sym counted) ∙ other)
      ]

  delete_deployment-ok :
      (cr : CompositionDefinition) (gvr : GroupVersionResource) (skip : Bool) (u w' : W)
      → delete_deployment x cr gvr skip u ≡ (ok tt, w')
      → undeploy x.deploys x.crds
          (record { options = deploy_options x cr gvr cr.chart "" false; skip_crd = skip })
          u
        ≡ (ok tt, w')
  unfolding delete_deployment
  delete_deployment-ok cr gvr skip u w' h = on_error-ok _ _ u w' tt h

  -- What a Delete of the definition `cr` that succeeds has done between the worlds `w` and `w'`: the chart
  -- of the definition is read, its kind is looked up, and each step begins in the world that the one
  -- before it has left.
  pub data Deleted (cr : CompositionDefinition) (w w' : W) : Type 0 where
    no_resource :
        (pkg : Package A) (gvk : GroupVersionKind) (a : W) (e : Error)
        → chart_info_from_spec x.charts cr.chart w ≡ (ok pkg, a)
        → chart_group_version_kind x.charts pkg ≡ ok gvk
        → x.gvk_to_gvr gvk a ≡ (err e, w')
        → x.crds.api.is_not_found e ≡ true
        → Deleted cr w w'
    undeployed :
        (pkg : Package A) (gvk : GroupVersionKind) (gvr : GroupVersionResource) (a c v u : W)
        (cds : List CompositionDefinition)
        → chart_info_from_spec x.charts cr.chart w ≡ (ok pkg, a)
        → chart_group_version_kind x.charts pkg ≡ ok gvk
        → x.gvk_to_gvr gvk a ≡ (ok gvr, c)
        → CompositionsGone gvk gvr c v
        → x.list_definitions v ≡ (ok cds, u)
        → undeploy x.deploys x.crds
            (record {
              options = deploy_options x cr gvr cr.chart "" false;
              skip_crd = ltb 1 (number (names_kind x gvk) cds);
            })
            u
          ≡ (ok tt, w')
        → Deleted cr w w'

  delete_resolved-ok :
      (cr : CompositionDefinition) (pkg : Package A) (gvk : GroupVersionKind)
      (r : Result GroupVersionResource) (w a c w' : W)
      → chart_info_from_spec x.charts cr.chart w ≡ (ok pkg, a)
      → chart_group_version_kind x.charts pkg ≡ ok gvk
      → x.gvk_to_gvr gvk a ≡ (r, c)
      → delete_resolved x cr gvk r c ≡ (ok tt, w')
      → Deleted cr w w'
  unfolding delete_resolved delete_existing
  delete_resolved-ok cr pkg gvk (ok gvr) w a c w' read kind e h =
      let (_, v, e1, h1) = >>=-ok _ _ c tt w' h in
      let (cds, u, e2, h2) = >>=-ok _ _ v tt w' h1 in
      let (all, listed, counted) = definitions_of_kind x gvk v u cds (on_error-ok _ _ v u cds e2) in
      let run = delete_deployment-ok cr gvr (ltb 1 (length cds)) u w' h2 in
      undeployed pkg gvk gvr a c v u all read kind e (delete_versions-ok gvk gvr c v e1) listed (
        subst
          (λ n.
            undeploy x.deploys x.crds
              (record { options = deploy_options x cr gvr cr.chart "" false; skip_crd = ltb 1 n }) u
            ≡ (ok tt, w'))
          counted run)
  delete_resolved-ok cr pkg gvk (err m) w a c w' read kind e h =
      no_resource pkg gvk a m read kind (ground arith) (ground arith)

  delete_world-ok :
      (cr : CompositionDefinition) (w w' : W) → delete_world x cr w ≡ (ok tt, w') → Deleted cr w w'
  unfolding delete_world
  delete_world-ok cr w w' h =
      let (pkg, a, e1, h1) = >>=-ok _ _ w tt w' h in
      let (gvk, b, e2, h2) = >>=-ok _ _ a tt w' h1 in
      let (r, c, e3, h3) = >>=-ok _ _ b tt w' h2 in
      let kind = on_error-ok _ _ a b gvk e2 in
      let same : a ≡ b = ap (λ o. o.1) kind in
      delete_resolved-ok cr pkg gvk r w a c w' (on_error-ok _ _ w a pkg e1) (ap (λ o. o.0) kind)
        (ground arith) h3

  -- A Delete that succeeds leaves the definition with the condition Deleting. It has read the kind of the
  -- definition's chart, and either that kind has no resource on the API server, or these steps follow,
  -- from one world to the next: the definitions are listed; if exactly one names the group, the kind and the
  -- version in its status, the compositions of the resource are listed and uninstalled, and a second listing
  -- of them is empty, and otherwise none is touched; then the definitions are listed again, and
  -- Undeploy succeeds, which is told to skip the CRD exactly where more than one of them names the group and
  -- the kind.
  pub delete-ok :
      (cr cr' : CompositionDefinition) (w w' : W)
      → delete x (cr, w) ≡ (ok tt, (cr', w'))
      → (cr' ≡ with_condition "Deleting" cr) × Deleted cr w w'
  unfolding delete change_definition beside ◌>>=◌
  delete-ok cr cr' w w' h = (ground arith, delete_world-ok cr w w' (ground arith))
