-- ===== src/Controller/Apply/Certified.antt =====
-- Create together with the certificate manager.
use mathlib.Core.Path.{subst}
use core_provider.Base.{ℕ, String, List, false, ◌≡◌}
use core_provider.Base.Result.{ok}
use core_provider.Schema.{GroupVersionResource}
use core_provider.Types.{CompositionDefinition}
use core_provider.Deploy.Install.{deploy}
use core_provider.Certificates.{CertManager, Held, bytes_of, cert_manager}
use core_provider.Certificates.Manager.{Propagated, manage_certificates-ok}
use core_provider.Controller.{External, deploy_options, with_digest}
use core_provider.Controller.Apply.{create}
use core_provider.Controller.Apply.Installed.{create-ok}

-- the controller whose certificate manager is `m`
module _ {W K C B A L : Type 0} (m : CertManager W K C B) (x : External (Held × W) A L)
    (managed : x.certificates ≡ cert_manager m) where
  -- Where a Create with this certificate manager succeeds, the CA bundle that is held has been propagated to
  -- a resource, its CRD and the webhook configuration included, before the deployment for this resource
  -- began, which is the last that Create does and whose digest it records.
  pub create-Propagated :
      (cr cr' : CompositionDefinition) (s s' : Held × W)
      → create x (cr, s) ≡ (ok tt, (cr', s'))
      → (gvr : GroupVersionResource) × (schema : String) × (digest : List ℕ) × (held : Held)
        × (u : W) × Propagated m (bytes_of m held) gvr u
        × (deploy x.deploys (deploy_options x cr gvr cr.chart schema false) (held, u)
            ≡ (ok digest, s'))
        × (cr' ≡ with_digest digest cr)
  create-Propagated cr cr' s s' h =
      let (_, schema, applied, digest, _, _, installed, result) = create-ok x cr cr' s s' h in
      let certified =
        subst (λ c. c.manage_certificates applied.0 installed.b ≡ (ok tt, installed.c)) managed
          installed.certified in
      let (done, _) =
        manage_certificates-ok m applied.0 installed.b.0 installed.c.0 installed.b.1 installed.c.1
          certified in
      (applied.0, schema, digest, installed.c.0, installed.c.1, done, installed.deployed, result)
