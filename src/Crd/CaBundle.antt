-- ===== src/Crd/CaBundle.antt =====
-- The CA bundle of the conversion webhook, when it is rotated.
use core_provider.Base.{ℕ, List, Option, none, some, ◌≡◌, refl, arith, Option-cases, inl, inr}
use core_provider.Base.Result.{ok}
use core_provider.Crd.{Crd, CrdConversion}
use core_provider.Crd.Generation.{update_ca_bundle}
use core_provider.Crd.Cluster.{ApplyOpts, inject_conversion_conf_to_crd}

-- Replacing the CA bundle of a CRD for which ApplyOrUpdateCRD has set up the webhook always succeeds
-- and gives the CRD that a set-up with the new bundle would have given.
pub update_ca_bundle-inject_conversion_conf_to_crd :
    (opts : ApplyOpts) (crd : Crd) (bundle : List ℕ)
    → update_ca_bundle (inject_conversion_conf_to_crd opts crd) bundle
      ≡ ok (inject_conversion_conf_to_crd (record opts { ca_bundle = some bundle }) crd)
unfolding update_ca_bundle inject_conversion_conf_to_crd
update_ca_bundle-inject_conversion_conf_to_crd opts crd bundle = refl

-- A second replacement gives what it would have given at first, also where it fails: of the first
-- nothing is left.
pub update_ca_bundle-update_ca_bundle :
    (crd crd' : Crd) (old new : List ℕ)
    → update_ca_bundle crd old ≡ ok crd'
    → update_ca_bundle crd' new ≡ update_ca_bundle crd new
unfolding update_ca_bundle
update_ca_bundle-update_ca_bundle crd crd' old new h = twice crd.conversion refl
  where
    twice :
        (c : Option CrdConversion)
        → crd.conversion ≡ c
        → update_ca_bundle crd' new ≡ update_ca_bundle crd new
    twice none e = ground arith
    twice (some c) e = elim (Option-cases c.webhook) [
      | inl q ↦ ground arith
      | inr (w, q) ↦ elim (Option-cases w.client_config) [
        | inl r ↦ ground arith
        | inr (config, r) ↦ ground arith
      ]
    ]
