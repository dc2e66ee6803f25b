-- ===== src/Controller/Observe/Inputs.antt =====
-- What Observe reads of a chart, and the resource that it finds for the chart's kind.
use core_provider.Base.{String, some, true, false, ◌≡◌, ap, arith, inl, inr}
use core_provider.Base.Result.{Error, Result, ok, err, Result-split}
use core_provider.Base.Exec.{on_error-ok, >>=-ok, lift-ok}
use core_provider.Schema.{GroupVersionKind, GroupVersionResource}
use core_provider.Types.{ChartInfo, CompositionDefinition}
use core_provider.Crd.Generated.{get_gvr_from_generated_crd}
use core_provider.Chart.{
  Package, chart_info_from_spec, for_spec, chart_group_version_kind, chart_json_schema,
}
use core_provider.Controller.{External, chart_of}
use core_provider.Controller.Observe.{resource, resolve, read_chart}

module _ {W A L : Type 0} (x : External W A L) where
  -- How the resource of the kind is found: the pluralizer knows it, or it does not find the kind, the
  -- definition is not being deleted, and the resource is that of the CRD that the chart's schema makes.
  pub data ResolvedTo (cr : CompositionDefinition) (gvk : GroupVersionKind) (schema : String)
      (gvr : GroupVersionResource) (w w' : W) : Type 0 where
    known : x.gvk_to_gvr gvk w ≡ (ok gvr, w') → ResolvedTo cr gvk schema gvr w w'
    from_chart :
        (e : Error)
        → x.gvk_to_gvr gvk w ≡ (err e, w')
        → cr.deleted ≡ false
        → x.crds.api.is_not_found e ≡ true
        → get_gvr_from_generated_crd x.crdgen schema gvk ≡ ok gvr
        → ResolvedTo cr gvk schema gvr w w'

  -- What Observe reads of the chart: `info` and `pkg` are the packages that ChartInfoFromSpec and
  -- ForSpec give; the kind and the URL are those of the second, the schema is that of the first.
  pub record ReadByObserve (cr : CompositionDefinition) (gvk : GroupVersionKind)
      (url schema : String) (w w' : W) : Type 0 where
    pub info : Package A
    pub pkg : Package A
    pub between : W
    pub fetched : chart_info_from_spec x.charts cr.chart w ≡ (ok info, between)
    pub opened : for_spec x.charts cr.chart between ≡ (ok pkg, w')
    pub kind : chart_group_version_kind x.charts pkg ≡ ok gvk
    pub json_schema : chart_json_schema x.charts info ≡ ok schema
    pub package_url : pkg.package_url ≡ url

  pub read_chart-ReadByObserve :
      (cr : CompositionDefinition) (gvk : GroupVersionKind) (url schema : String) (w w' : W)
      → read_chart x cr w ≡ (ok (gvk, url, schema), w')
      → ReadByObserve cr gvk url schema w w'
  unfolding read_chart
  read_chart-ReadByObserve cr gvk url schema w w' h =
      let (info, a, e1, h1) = >>=-ok _ _ w (gvk, url, schema) w' h in
      let (pkg, b, e2, h2) = >>=-ok _ _ a (gvk, url, schema) w' h1 in
      let (gvk1, e3, h3) = lift-ok _ _ b (gvk, url, schema) w' h2 in
      let (schema1, d, e4, h4) = >>=-ok _ _ b (gvk, url, schema) w' h3 in
      let made = on_error-ok _ _ b d schema1 e4 in
      assembled info pkg a b d gvk1 schema1 (on_error-ok _ _ w a info e1) e2 e3 (ap (λ o. o.0) made)
        (ap (λ o. o.1) made) h4
    where
      assembled :
          (info pkg : Package A) (a b d : W) (gvk1 : GroupVersionKind) (schema1 : String)
          → chart_info_from_spec x.charts cr.chart w ≡ (ok info, a)
          → for_spec x.charts cr.chart a ≡ (ok pkg, b)
          → chart_group_version_kind x.charts pkg ≡ ok gvk1
          → chart_json_schema x.charts info ≡ ok schema1
          → b ≡ d
          → ◌≡◌ {A = Result (GroupVersionKind × String × String) × W}
              (ok (gvk1, pkg.package_url, schema1), d)
              (ok (gvk, url, schema), w')
          → ReadByObserve cr gvk url schema w w'
      assembled info pkg a b d gvk1 schema1 fetched opened kind made same q = record {
        info = info;
        pkg = pkg;
        between = a;
        fetched = fetched;
        opened = ground arith;
        kind = ground arith;
        json_schema = ground arith;
        package_url = ground arith;
      }

  pub resolve-ResolvedTo :
      (cr : CompositionDefinition) (gvk : GroupVersionKind) (schema : String)
      (answer : Result GroupVersionResource) (gvr : GroupVersionResource) (w w' : W)
      → x.gvk_to_gvr gvk w ≡ (answer, w')
      → resolve x cr.deleted gvk schema answer ≡ ok (resource gvr)
      → ResolvedTo cr gvk schema gvr w w'
  unfolding resolve
  resolve-ResolvedTo cr gvk schema (ok gvr1) gvr w w' e h = known (ground arith)
  resolve-ResolvedTo cr gvk schema (err m) gvr w w' e h =
      elim (Result-split (get_gvr_from_generated_crd x.crdgen schema gvk)) [
        | inr (m', g) ↦ ground arith
        | inl (gvr1, g) ↦ from_chart m e (ground arith) (ground arith) (ground arith)
      ]

  pub chart_of-some :
      (cr : CompositionDefinition) (chart : ChartInfo)
      → chart_of cr ≡ ok chart
      → cr.chart ≡ some chart
  unfolding chart_of
  chart_of-some cr chart h = ground arith
