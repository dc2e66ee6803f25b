-- ===== src/Crd/Cluster/Reads.antt =====
-- What Get and Lookup of crd.go keep.
use core_provider.Base.{arith}
use core_provider.Base.Result.{Result, ok, err}
use core_provider.Base.Exec.Keeps.{Keeps, Keeps-bind, Keeps-pure, keeps_rules}
use core_provider.Schema.{
  GroupVersionKind, GroupVersionResource, GroupResource, NamespacedName, Object,
}
use core_provider.Crd.{Crd}
use core_provider.Crd.Cluster.{CrdPlatform, found, read_crd, get, lookup}

module _ {W : Type 0} (p : CrdPlatform W) (P : W → Type 0) (registers : Keeps P p.register)
    (reads : (gvk : GroupVersionKind) (nn : NamespacedName) → Keeps P (p.client.get gvk nn)) where
  found-keeps : (o : Result (Object Crd) × W) → P o.1 → P (found p o).1
  unfolding found
  found-keeps (ok c, w) h = h
  found-keeps (err e, w) h = ground arith

  read_crd-Keeps : (gr : GroupResource) → Keeps P (read_crd p gr)
  unfolding read_crd
  read_crd-Keeps gr = record { holds = λ w h. found-keeps _ ((reads _ _).holds w h) }

  pub get-Keeps : (gr : GroupResource) → Keeps P (get p gr)
  unfolding get
  get-Keeps gr = search (keeps_rules, registers, read_crd-Keeps) depth 8

  pub lookup-Keeps : (gvr : GroupVersionResource) → Keeps P (lookup p gvr)
  unfolding lookup
  lookup-Keeps gvr =
      Keeps-bind _ _ registers (λ u. Keeps-bind _ _ (read_crd-Keeps _) (λ c. Keeps-pure _))
