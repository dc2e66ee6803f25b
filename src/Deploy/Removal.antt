-- ===== src/Deploy/Removal.antt =====
-- What Undeploy does to the CRD, and what it does without a chart.
use core_provider.Base.{ℕ, Option, none, false, ◌≡◌, sym, ap, ◌∙◌, arith, if_false}
use core_provider.Base.Result.{Result, ok}
use core_provider.Base.Exec.{Exec, >>=-ok}
use core_provider.Schema.{group_resource}
use core_provider.Types.{Credentials}
use core_provider.Crd.Cluster
use core_provider.Crd.Cluster.{CrdPlatform}
use core_provider.Deploy.Platform.{UndeployOptions, Platform, credentials_of, on_cluster}
use core_provider.Deploy.Uninstall.{undeploy_crd, undeploy_rest, undeploy_all, undeploy}

module _ {W : Type 0} (p : Platform W) (crds : CrdPlatform W) (opts : UndeployOptions) where
  open opts use {options}

  -- the last part of an Undeploy that succeeds
  undeploy_all-rest :
      (s t : ℕ × W)
      → undeploy_all p crds opts s ≡ (ok tt, t)
      → (u : ℕ × W) × (undeploy_rest p crds opts u ≡ (ok tt, t))
  unfolding undeploy_all
  undeploy_all-rest s t h =
      let (rbac, s1, _, h1) = >>=-ok _ _ s tt t h in
      let (_, s2, _, h2) = >>=-ok _ _ s1 tt t h1 in
      let (_, s3, _, h3) = >>=-ok _ _ s2 tt t h2 in (s3, h3)

  undeploy_rest-parts :
      (s t : ℕ × W)
      → undeploy_rest p crds opts s ≡ (ok tt, t)
      → (c : Option Credentials) × (u v : ℕ × W) × (credentials_of options.spec ≡ ok c)
        × (undeploy_crd p crds opts v ≡ (ok tt, t))
  unfolding undeploy_rest
  undeploy_rest-parts s t h =
      let (_, s1, _, h1) = >>=-ok _ _ s tt t h in
      let (c, s2, e, h2) = >>=-ok _ _ s1 tt t h1 in
      let (_, s3, _, h3) = >>=-ok _ _ s2 tt t h2 in (c, s2, s3, ap (λ o. o.0) e, h3)

  undeploy-all :
      (w w' : W)
      → undeploy p crds opts w ≡ (ok tt, w')
      → (n : ℕ) × (undeploy_all p crds opts (0, w) ≡ (ok tt, (n, w')))
  unfolding undeploy
  undeploy-all w w' h = beside (undeploy_all p crds opts (0, w)) h
    where
      beside :
          (o : Result (Unit {0}) × (ℕ × W))
          → ◌≡◌ {A = Result (Unit {0}) × W} (o.0, o.1.1) (ok tt, w')
          → (n : ℕ) × (o ≡ (ok tt, (n, w')))
      beside (r, (n, v)) q = (n, ground arith)

  -- Undeploy without a chart never succeeds, whatever the cluster answers: after the resources are
  -- uninstalled it reads the credentials of a nil chart.
  pub undeploy_nil : (w w' : W) → options.spec ≡ none → ¬ (undeploy p crds opts w ≡ (ok tt, w'))
  unfolding credentials_of
  undeploy_nil w w' nil h =
      let (n, all) = undeploy-all w w' h in
      let (u, rest) = undeploy_all-rest (0, w) (n, w') all in
      let (c, _, _, e, _) = undeploy_rest-parts u (n, w') rest in ground arith

  on_cluster-outcome :
      {A : Type 0} (m : Exec W A) (v : ℕ × W) {t : ℕ × W} {a : A}
      → on_cluster p m v ≡ (ok a, t)
      → m v.1 ≡ (ok a, t.1)
  on_cluster-outcome m (n, v) h = ground arith

  -- An Undeploy that succeeds and does not skip the CRD ends in an Uninstall of the CRD that has
  -- succeeded.
  pub undeploy-crd :
      (w w' : W)
      → opts.skip_crd ≡ false
      → undeploy p crds opts w ≡ (ok tt, w')
      → (u : W) × (Cluster.uninstall crds (group_resource options.gvr) u ≡ (ok tt, w'))
  unfolding undeploy_crd
  undeploy-crd w w' keep h =
      let (n, all) = undeploy-all w w' h in
      let (u, rest) = undeploy_all-rest (0, w) (n, w') all in
      let (c, _, v, _, last) = undeploy_rest-parts u (n, w') rest in
      (
        v.1,
        on_cluster-outcome (Cluster.uninstall crds (group_resource options.gvr)) v (kept v last),
      )
    where
      kept :
          (v : ℕ × W) {t : ℕ × W}
          → undeploy_crd p crds opts v ≡ (ok tt, t)
          → on_cluster p (Cluster.uninstall crds (group_resource options.gvr)) v ≡ (ok tt, t)
      kept v h = sym (ap (λ (m : Exec (ℕ × W) (Unit {0})). m v) (if_false _ _ keep)) ∙ h
