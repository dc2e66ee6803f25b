-- ===== src/Certificates/Reconciler.antt =====
-- internal/controllers/certificates/reconciler.go
use core_provider.Base.{ℕ, zero, suc, if◌then◌else◌}
use core_provider.Base.Result.{Result, ok, err}
use core_provider.Base.Exec.{Exec, pure, attempt, ◌>>=◌, ◌>>◌}
use core_provider.Retry.{int64_lt}
use core_provider.Certificates.{CertManager, Held, manage_certificates, update_existing_resources}

module _ {W K C B : Type 0} (m : CertManager W K C B) where
  -- manageCertificatesGlobally(ctx)
  unfoldable pub manage_certificates_globally : Exec (Held × W) (Unit {0})
  manage_certificates_globally = manage_certificates m (record {
    group = "core.krateo.io";
    version = "v1alpha1";
    resource = "compositiondefinitions";
  })

  unfoldable pub synced : Result (Unit {0}) → Exec (Held × W) (Unit {0})
  synced (ok u) = attempt (update_existing_resources m) >> pure tt
  synced (err e) = pure tt

  -- syncCertificates(ctx): its errors are logged
  unfoldable pub sync_certificates : Exec (Held × W) (Unit {0})
  sync_certificates = do answer ← attempt manage_certificates_globally; synced answer

  unfoldable pub ticks : ℕ → Exec (Held × W) (Unit {0})
  ticks zero = pure tt
  ticks (suc n) = do sync_certificates; ticks n

  -- Start(ctx), where the ticker fires `n` times before the context is done
  unfoldable pub start : ℕ → Exec (Held × W) (Unit {0})
  start n = do sync_certificates; ticks n

-- NewCertificateReconciler: the interval
unfoldable pub sync_interval : ℕ → ℕ
sync_interval d = if int64_lt 0 d then d else 300000000000
