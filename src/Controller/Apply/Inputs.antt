-- ===== src/Controller/Apply/Inputs.antt =====
-- What Update reads of a chart.
use core_provider.Base.{String, ◌≡◌, ap, arith}
use core_provider.Base.Result.{Result, ok}
use core_provider.Chart.{
  Package, chart_info_from_spec, for_spec, chart_group_version_kind, chart_json_schema,
}
use core_provider.Base.Exec.{on_error-ok, >>=-ok, lift-ok}
use core_provider.Schema.{GroupVersionKind}
use core_provider.Types.{CompositionDefinition}
use core_provider.Controller.{External}
use core_provider.Controller.Apply.{update_chart}

module _ {W A L : Type 0} (x : External W A L) where
  -- What Update reads of the chart: `pkg` and `pkg_fs` are the packages that ChartInfoFromSpec and
  -- ForSpec give; the kind and the schema are those of the first, the URL is that of the second.
  pub record ReadByUpdate (cr : CompositionDefinition) (gvk : GroupVersionKind)
      (schema url : String) (w w' : W) : Type 0 where
    pub pkg : Package A
    pub pkg_fs : Package A
    pub between : W
    pub fetched : chart_info_from_spec x.charts cr.chart w ≡ (ok pkg, between)
    pub opened : for_spec x.charts cr.chart between ≡ (ok pkg_fs, w')
    pub kind : chart_group_version_kind x.charts pkg ≡ ok gvk
    pub json_schema : chart_json_schema x.charts pkg ≡ ok schema
    pub package_url : pkg_fs.package_url ≡ url

  pub update_chart-ReadByUpdate :
      (cr : CompositionDefinition) (gvk : GroupVersionKind) (schema url : String) (w w' : W)
      → update_chart x cr w ≡ (ok (gvk, schema, url), w')
      → ReadByUpdate cr gvk schema url w w'
  unfolding update_chart
  update_chart-ReadByUpdate cr gvk schema url w w' h =
      let (pkg, a, e1, h1) = >>=-ok _ _ w (gvk, schema, url) w' h in
      let (pkg_fs, b, e2, h2) = >>=-ok _ _ a (gvk, schema, url) w' h1 in
      let (gvk1, e3, h3) = lift-ok _ _ b (gvk, schema, url) w' h2 in
      let (schema1, d, e4, h4) = >>=-ok _ _ b (gvk, schema, url) w' h3 in
      let made = on_error-ok _ _ b d schema1 e4 in
      assembled pkg pkg_fs a b d gvk1 schema1 (on_error-ok _ _ w a pkg e1) e2 e3
        (ap (λ o. o.0) made) (ap (λ o. o.1) made) h4
    where
      assembled :
          (pkg pkg_fs : Package A) (a b d : W) (gvk1 : GroupVersionKind) (schema1 : String)
          → chart_info_from_spec x.charts cr.chart w ≡ (ok pkg, a)
          → for_spec x.charts cr.chart a ≡ (ok pkg_fs, b)
          → chart_group_version_kind x.charts pkg ≡ ok gvk1
          → chart_json_schema x.charts pkg ≡ ok schema1
          → b ≡ d
          → ◌≡◌ {A = Result (GroupVersionKind × String × String) × W}
              (ok (gvk1, schema1, pkg_fs.package_url), d)
              (ok (gvk, schema, url), w')
          → ReadByUpdate cr gvk schema url w w'
      assembled pkg pkg_fs a b d gvk1 schema1 fetched opened kind made same q = record {
        pkg = pkg;
        pkg_fs = pkg_fs;
        between = a;
        fetched = fetched;
        opened = ground arith;
        kind = ground arith;
        json_schema = ground arith;
        package_url = ground arith;
      }
