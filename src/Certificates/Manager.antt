-- ===== src/Certificates/Manager.antt =====
-- What the manager has done where its methods succeed.
use mathlib.Core.Path.{subst}
use core_provider.Base.{
  ℕ, String, List, [], ◌∷◌, Option, none, some, true, false, not, ◌≡◌, ◌⊎◌, inl, inr, sym, ap, ◌∙◌,
  arith, ltb, length,
}
use core_provider.Base.Result.{Error, wrap, Result, ok, err}
use core_provider.Base.Exec.{on_error-ok, >>=-ok, beside-ok, beside, if-outcome, on_error, ◌>>=◌}
use core_provider.Retry.Attempts.{retry_do-ok}
use core_provider.Schema.{GroupVersionResource, group_resource, Object}
use core_provider.Types.{CompositionDefinition}
use core_provider.Kube.{apply_to}
use core_provider.Crd.{Crd}
use core_provider.Crd.Cluster
use core_provider.Crd.Cluster.{crd_gvk}
use core_provider.Crd.Generation.{update_ca_bundle}
use core_provider.Certificates.{
  CertManager, Held, validate_ca_bundle_format, plainly, propagate_to_crd, mutating_webhook_config,
  propagate_to_webhook, propagate_found, propagate_ca_bundle, ca_bundle_config,
  propagate_ca_bundle_with_retry, bytes_of, get_ca_bundle, set_ca_bundle, renew, propagate_held,
  manage_certificates, update_found, has_kind, update_one, update_each, update_existing_resources,
}

module _ {W K C B : Type 0} (m : CertManager W K C B) where
  -- The CRD of a resource has one version at most and is left alone, or it is applied with the bundle.
  pub data CrdHas (cabundle : List ℕ) (crd : Object Crd) (v v' : W) : Type 0 where
    single : ltb 1 (length crd.body.versions) ≡ false → v ≡ v' → CrdHas cabundle crd v v'
    injected :
        (body : Crd) (answer : Object Crd)
        → ltb 1 (length crd.body.versions) ≡ true
        → update_ca_bundle crd.body cabundle ≡ ok body
        → apply_to m.crds.client m.crds.api m.crds.wait
            (plainly m)
            (record crd { gvk = crd_gvk; body = body })
            v
          ≡ (ok answer, v')
        → CrdHas cabundle crd v v'

  -- The last attempt to propagate a bundle, which ends in the world `w'`.
  pub record Propagated (cabundle : List ℕ) (gvr : GroupVersionResource) (w' : W) : Type 0 where
    pub accepted : validate_ca_bundle_format cabundle ≡ ok tt
    pub crd : Object Crd
    pub config : Object B
    pub answer : Object B
    pub a : W
    pub b : W
    pub c : W
    pub d : W
    pub read : Cluster.get m.crds (group_resource gvr) a ≡ (ok (some crd), b)
    pub crd_has : CrdHas cabundle crd b c
    pub made : mutating_webhook_config m cabundle c ≡ (ok config, d)
    pub applied : apply_to m.webhooks m.crds.api m.crds.wait (plainly m) config d ≡ (ok answer, w')

  propagate_to_crd-CrdHas :
      (cabundle : List ℕ) (crd : Object Crd) (v v' : W)
      → propagate_to_crd m cabundle crd v ≡ (ok tt, v')
      → CrdHas cabundle crd v v'
  unfolding propagate_to_crd
  propagate_to_crd-CrdHas cabundle crd v v' h =
      elim (if-outcome (ltb 1 (length crd.body.versions)) _ _ v (ok tt, v') h) [
        | inl (many, run) ↦
            let (body, a, e1, h1) = >>=-ok _ _ v tt v' run in
            let (answer, b, e2, h2) = >>=-ok _ _ a tt v' h1 in
            let updated = on_error-ok _ _ v a body e1 in
            let sent = on_error-ok _ _ a b answer e2 in
            injected body answer many (ap (λ o. o.0) updated) (ground arith)
        | inr (one, run) ↦ single one (ap (λ o. o.1) run)
      ]

  -- one attempt, with the bundle that has been accepted
  propagate_ca_bundle-Propagated :
      (cabundle : List ℕ) (gvr : GroupVersionResource) (w w' : W)
      → validate_ca_bundle_format cabundle ≡ ok tt
      → propagate_ca_bundle m cabundle gvr w ≡ (ok tt, w')
      → Propagated cabundle gvr w'
  unfolding propagate_ca_bundle propagate_found propagate_to_webhook
  propagate_ca_bundle-Propagated cabundle gvr w w' accepted h =
      let (found, b, e1, h1) = >>=-ok _ _ w tt w' h in go found b (on_error-ok _ _ w b found e1) h1
    where
      go :
          (found : Option (Object Crd)) (b : W)
          → Cluster.get m.crds (group_resource gvr) w ≡ (ok found, b)
          → propagate_found m cabundle gvr found b ≡ (ok tt, w')
          → Propagated cabundle gvr w'
      go none b read h = cc
      go (some crd) b read h =
          let (_, c, e1, h1) = >>=-ok _ _ b tt w' h in
          let (config, d, e2, h2) = >>=-ok _ _ c tt w' h1 in
          let (answer, e, e3, h3) = >>=-ok _ _ d tt w' h2 in
          let sent = on_error-ok _ _ d e answer e3 in
          record {
            accepted = accepted;
            crd = crd;
            config = config;
            answer = answer;
            a = w;
            b = b;
            c = c;
            d = d;
            read = read;
            crd_has = propagate_to_crd-CrdHas cabundle crd b c e1;
            made = on_error-ok _ _ c d config e2;
            applied = ground arith;
          }

  -- A propagation that succeeds had a bundle that is accepted, and the last attempt has found the CRD,
  -- has written the bundle into it where it has more than one version, and has applied the webhook
  -- configuration that is made from the bundle.
  propagate_ca_bundle_with_retry-ok :
      (cabundle : List ℕ) (gvr : GroupVersionResource) (w w' : W)
      → propagate_ca_bundle_with_retry m cabundle gvr w ≡ (ok tt, w')
      → Propagated cabundle gvr w'
  unfolding propagate_ca_bundle_with_retry
  propagate_ca_bundle_with_retry-ok cabundle gvr w w' h =
      let (_, a, e1, h1) = >>=-ok _ _ w tt w' h in
      let accepted = ap (λ o. o.0) (on_error-ok _ _ w a tt e1) in
      let (u, _, e) =
        retry_do-ok (ca_bundle_config m) (propagate_ca_bundle m cabundle gvr) (λ s. Unit {0})
          (λ s s' x q i. tt) (λ d. record { holds = λ s i. tt }) (λ n d x s i. tt) a w' tt
          (on_error-ok _ _ a w' tt h1) tt in
      propagate_ca_bundle-Propagated cabundle gvr u w' accepted e

  -- a last step beside the bundle
  propagate_beside-Propagated :
      (f : Error → Error) (cabundle : List ℕ) (gvr : GroupVersionResource) (held held' : Held)
      (w w' : W)
      → beside (on_error f (propagate_ca_bundle_with_retry m cabundle gvr)) (held, w)
        ≡ (ok tt, (held', w'))
      → (held ≡ held') × Propagated cabundle gvr w'
  unfolding beside
  propagate_beside-Propagated f cabundle gvr held held' w w' h = (
    ap (λ o. o.1.0) h,
    propagate_ca_bundle_with_retry-ok cabundle gvr w w'
        (on_error-ok f (propagate_ca_bundle_with_retry m cabundle gvr) w w' tt (ground arith)),
  )

  -- the bundle that is held is the one read back from the file
  pub data ReadBack (held' : Held) : Type 0 where
    read_back :
        (cabundle : List ℕ) (a b : W)
        → m.os.read_file m.cert_path "tls.crt" a ≡ (ok cabundle, b)
        → held' ≡ some cabundle
        → ReadBack held'

  renew-ok :
      (failed : Error → Error) (cert key : String) (held held' : Held) (w w' : W)
      → renew m failed cert key (held, w) ≡ (ok tt, (held', w'))
      → ReadBack held'
  unfolding renew set_ca_bundle
  renew-ok failed cert key held held' w w' h =
      let (_, a, e1, h1) = beside-ok _ _ held w tt (held', w') h in
      let (cabundle, b, e2, h2) = beside-ok _ _ held a tt (held', w') h1 in
      read_back cabundle a b (on_error-ok _ _ a b cabundle e2) (sym (ap (λ o. o.1.0) h2))

  propagate_held-ok :
      (gvr : GroupVersionResource) (held held' : Held) (w w' : W)
      → propagate_held m gvr (held, w) ≡ (ok tt, (held', w'))
      → (held ≡ held') × Propagated (bytes_of m held') gvr w'
  unfolding propagate_held get_ca_bundle
  propagate_held-ok gvr held held' w w' h =
      let (cabundle, s1, e1, h1) = >>=-ok _ _ (held, w) tt (held', w') h in
      let (_, s2, e2, h2) = >>=-ok _ _ s1 tt (held', w') h1 in
      end cabundle s1 s2 e1 (ap (λ o. o.1) (on_error-ok _ _ s1 s2 tt e2)) h2
    where
      end :
          (cabundle : List ℕ) (s1 s2 : Held × W)
          → ◌≡◌ {A = Result (List ℕ) × (Held × W)}
              (ok (bytes_of m held), (held, w))
              (ok cabundle, s1)
          → s1 ≡ s2
          → beside
              (on_error
                (wrap "error updating CA bundle after retries: %w")
                (propagate_ca_bundle_with_retry m cabundle gvr))
              s2
            ≡ (ok tt, (held', w'))
          → (held ≡ held') × Propagated (bytes_of m held') gvr w'
      end cabundle s1 s2 e same h =
          let step =
            on_error (wrap "error updating CA bundle after retries: %w")
              (propagate_ca_bundle_with_retry m cabundle gvr) in
          let here : s2 ≡ (held, w) = sym same ∙ sym (ap (λ o. o.1) e) in
          let (kept, all) =
            propagate_beside-Propagated (wrap "error updating CA bundle after retries: %w") cabundle
              gvr held held' w w' (subst (λ s. beside step s ≡ (ok tt, (held', w'))) here h) in
          let eq : cabundle ≡ bytes_of m held' = ground arith in
          (kept, subst (λ b. Propagated b gvr w') eq all)

  -- After a ManageCertificates that succeeds, the bundle that is held has been accepted and propagated,
  -- the CRD of the resource and the webhook configuration among it, and it is the bundle that was held
  -- before or one that was read back from tls.crt.
  pub manage_certificates-ok :
      (gvr : GroupVersionResource) (held held' : Held) (w w' : W)
      → manage_certificates m gvr (held, w) ≡ (ok tt, (held', w'))
      → Propagated (bytes_of m held') gvr w' × ((held ≡ held') ⊎ ReadBack held')
  unfolding manage_certificates
  manage_certificates-ok gvr held held' w w' h =
      let ((present, cert, key), w1, e1, h1) = beside-ok _ _ held w tt (held', w') h in
      let (_, (held2, w2), e2, h2) = >>=-ok _ _ (held, w1) tt (held', w') h1 in
      let (kept, all) = propagate_held-ok gvr held2 held' w2 w' h2 in
      (
        all,
        elim (if-outcome (not present) _ _ (held, w1) (ok tt, (held2, w2)) e2) [
          | inl (_, renewed) ↦
              inr (subst ReadBack kept (renew-ok (λ e. e) cert key held held2 w1 w2 renewed))
          | inr (_, same) ↦ inl (ap (λ o. o.1.0) same ∙ kept)
        ],
      )

  -- What became of a definition while `held` was the bundle: it has no kind, its kind is not found, or
  -- the bundle is propagated to its resource. `u` is the world after that.
  pub data Updated (held : Held) (cd : CompositionDefinition) (w u : W) : Type 0 where
    without_kind : has_kind m cd ≡ false → w ≡ u → Updated held cd w u
    unknown_kind :
        (e : Error)
        → m.gvk_to_gvr (m.parse_kind cd.status.api_version cd.status.kind) w ≡ (err e, u)
        → m.crds.api.is_not_found e ≡ true
        → Updated held cd w u
    propagated :
        (gvr : GroupVersionResource) (v : W)
        → m.gvk_to_gvr (m.parse_kind cd.status.api_version cd.status.kind) w ≡ (ok gvr, v)
        → Propagated (bytes_of m held) gvr u
        → Updated held cd w u

  pub data AllUpdated (held : Held) : List CompositionDefinition → W → W → Type 0 where
    all : {w : W} → AllUpdated held [] w w
    first :
        {cd : CompositionDefinition} {cds : List CompositionDefinition} {w u w' : W}
        → Updated held cd w u
        → AllUpdated held cds u w'
        → AllUpdated held (cd ∷ cds) w w'

  update_found-Updated :
      (cd : CompositionDefinition) (r : Result GroupVersionResource) (held held' : Held) (w v u : W)
      → m.gvk_to_gvr (m.parse_kind cd.status.api_version cd.status.kind) w ≡ (r, v)
      → update_found m r (held, v) ≡ (ok tt, (held', u))
      → (held ≡ held') × Updated held cd w u
  unfolding update_found get_ca_bundle ◌>>=◌
  update_found-Updated cd (ok gvr) held held' w v u e h =
      let (kept, done) =
        propagate_beside-Propagated (wrap "error updating CA bundle for GVR %s: %w")
          (bytes_of m held) gvr held held' v u h in
      (kept, propagated gvr v e done)
  update_found-Updated cd (err x) held held' w v u e h =
      elim (if-outcome (m.crds.api.is_not_found x) _ _ (held, v) (ok tt, (held', u)) h) [
        | inl (missing, same) ↦ (ap (λ o. o.1.0) same, unknown_kind x (ground arith) missing)
        | inr (other, never) ↦ cc
      ]

  update_one-Updated :
      (cd : CompositionDefinition) (held held' : Held) (w u : W)
      → update_one m cd (held, w) ≡ (ok tt, (held', u))
      → (held ≡ held') × Updated held cd w u
  unfolding update_one
  update_one-Updated cd held held' w u h =
      elim (if-outcome (has_kind m cd) _ _ (held, w) (ok tt, (held', u)) h) [
        | inr (no_kind, same) ↦ (ap (λ o. o.1.0) same, without_kind no_kind (ap (λ o. o.1.1) same))
        | inl (kind, run) ↦
            let (r, v, e, h1) = beside-ok _ _ held w tt (held', u) run in
            update_found-Updated cd r held held' w v u (ground arith) h1
      ]

  update_each-AllUpdated :
      (cds : List CompositionDefinition) (held held' : Held) (w w' : W)
      → update_each m cds (held, w) ≡ (ok tt, (held', w'))
      → (held ≡ held') × AllUpdated held cds w w'
  unfolding update_each
  update_each-AllUpdated [] held held' w w' h =
      (ap (λ o. o.1.0) h, subst (AllUpdated held [] w) (ap (λ o. o.1.1) h) all)
  update_each-AllUpdated (cd ∷ cds) held held' w w' h =
      let (_, (held1, u), e1, h1) = >>=-ok _ _ (held, w) tt (held', w') h in
      let (kept, one) = update_one-Updated cd held held1 w u e1 in
      let (kept', rest) = update_each-AllUpdated cds held1 held' u w' h1 in
      (kept ∙ kept', first one (subst (λ b. AllUpdated b cds u w') (sym kept) rest))

  -- An UpdateExistingResources that succeeds leaves the bundle as it is and has gone through all
  -- definitions in the order of the list: a definition has no kind, or its kind is not found, or the
  -- bundle that is held is propagated to its resource.
  pub update_existing_resources-ok :
      (held held' : Held) (w w' : W)
      → update_existing_resources m (held, w) ≡ (ok tt, (held', w'))
      → (held ≡ held')
        × (cds : List CompositionDefinition) × (u : W) × (m.list_definitions w ≡ (ok cds, u))
        × AllUpdated held cds u w'
  unfolding update_existing_resources
  update_existing_resources-ok held held' w w' h =
      let (cds, u, e, h1) = beside-ok _ _ held w tt (held', w') h in
      let (kept, done) = update_each-AllUpdated cds held held' u w' h1 in
      (kept, cds, u, on_error-ok _ _ w u cds e, done)
