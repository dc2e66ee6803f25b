-- ===== src/Certs.antt =====
-- internal/tools/certs/certs.go: the certificate of the webhook server.
pub mod Files
pub mod Failures
use core_provider.Base.{
  ℕ, ◌+◌, ◌-◌, ◌%◌, String, str_append, List, [], ◌∷◌, Bool, true, false, not, if◌then◌else◌,
}
use core_provider.Base.Result.{Error, text, wrap, Result, ok, err}
use core_provider.Base.Exec.{Exec, pure, raise, lift, attempt, on_error, ◌>>=◌, ◌>>◌}
use core_provider.Retry.{int64_mod, int64_lt}

-- GenerateClientCertAndKeyOpts; durations are the 64 bits of an int64
pub record CertOpts : Type 0 where
  pub duration : ℕ
  pub lease_expiration_margin : ℕ
  pub username : String
  pub approver : String

-- kube.CertificateRequestOptions: `san` is the value of the only extra extension.
pub record CertificateRequestOptions (K : Type 0) : Type 0 where
  pub key : K
  pub username : String
  pub groups : List String
  pub san : List ℕ

-- kube.CertificateSigningRequestOptions
pub record SigningRequestOptions : Type 0 where
  pub username : String
  pub duration : ℕ
  pub csr : List ℕ
  pub signer_name : String
  pub usages : List String

-- What the functions take from plumbing, from apierrors and from the libraries for ASN.1, PEM and
-- base64. `K` is a private key and `C` a CertificateSigningRequest; `since_creation` is time.Since of
-- its creation; `dns_name` is the encoding of a list of one DNS name.
pub record Plumbing (W K C : Type 0) : Type 0 where
  pub new_private_key : Exec W K
  pub new_certificate_request : CertificateRequestOptions K → Result (List ℕ)
  pub new_signing_request : SigningRequestOptions → C
  pub create_request : C → Exec W (Unit {0})
  pub get_request : String → Exec W C
  pub delete_request : String → Exec W (Unit {0})
  pub approve_request : C → String → Exec W (Unit {0})
  pub wait_certificate : String → Exec W (Unit {0})
  pub certificate : String → Exec W (List ℕ)
  pub request_name : C → String
  pub since_creation : C → W → ℕ
  pub pem_of_key : K → List ℕ
  pub dns_name : String → List ℕ
  pub to_base64 : List ℕ → String
  pub from_base64 : String → Result (List ℕ)
  pub is_already_exists : Error → Bool
  pub is_not_found : Error → Bool

-- The calls of package os, each on a file of a directory: `create` opens a file and empties it, `write`
-- is the one Write to the file that was created last.
pub record Os (W : Type 0) : Type 0 where
  pub mkdir_all : String → Exec W (Unit {0})
  pub create : String → String → Exec W (Unit {0})
  pub write : String → String → List ℕ → Exec W (Unit {0})
  pub rename : String → String → String → Exec W (Unit {0})
  pub remove : String → String → Exec W (Unit {0})
  pub read_file : String → String → Exec W (List ℕ)

-- Expired(csr, leaseExpirationMargin), of the time since the creation
unfoldable pub expired : ℕ → ℕ → Bool
expired since margin = int64_lt ((margin + (int64_mod - since)) % int64_mod) 0

module _ {W K C : Type 0} (p : Plumbing W K C) where
  -- the branches on the error of the first creation
  unfoldable pub created : C → Result (Unit {0}) → Exec W (Unit {0})
  created csr (ok u) = pure tt
  created csr (err e) =
      if not (p.is_already_exists e)
      then raise (wrap "creating CSR kubernetes object: %w" e)
      else do
        on_error (wrap "deleting CSR kubernetes object: %w") (p.delete_request (p.request_name csr))
        on_error (wrap "creating CSR kubernetes object: %w") (p.create_request csr)

  unfoldable pub request_options : CertOpts → K → CertificateRequestOptions K
  request_options o key = record {
    key = key;
    username = str_append "system:node:" o.username;
    groups = "system:nodes" ∷ [];
    san = p.dns_name o.username;
  }

  unfoldable pub signing_options : CertOpts → List ℕ → SigningRequestOptions
  signing_options o req = record {
    username = o.username;
    duration = o.duration;
    csr = req;
    signer_name = "kubernetes.io/kubelet-serving";
    usages = "server auth" ∷ "key encipherment" ∷ "digital signature" ∷ [];
  }

  -- GenerateClientCertAndKey(client, log, o): the certificate and the key in base64
  unfoldable pub generate_client_cert_and_key : CertOpts → Exec W (String × String)
  generate_client_cert_and_key o = do
    key ← p.new_private_key
    req ← lift (p.new_certificate_request (request_options o key))
    let csr = p.new_signing_request (signing_options o req)
    answer ← attempt (p.create_request csr)
    created csr answer
    p.approve_request csr o.approver
    p.wait_certificate (p.request_name csr)
    crt ← p.certificate (p.request_name csr)
    pure (p.to_base64 crt, p.to_base64 (p.pem_of_key key))

  -- regenerated: `return false, crtStr, keyStr, err`
  unfoldable pub regenerate : CertOpts → Exec W (Bool × String × String)
  regenerate o = do (crt, key) ← generate_client_cert_and_key o; pure (false, crt, key)

  -- the branches on what the signing request is
  unfoldable pub check_request : CertOpts → Result C → Exec W (Bool × String × String)
  check_request o (err e) w =
      (if p.is_not_found e
          then regenerate o
          else raise (wrap "getting CSR kubernetes object: %w" e))
        w
  check_request o (ok csr) w =
      (if expired (p.since_creation csr w) o.lease_expiration_margin
          then (do
            on_error (wrap "deleting CSR kubernetes object: %w")
                (p.delete_request (p.request_name csr))
            regenerate o)
          else pure (true, "", ""))
        w

  -- CheckOrRegenerateClientCertAndKey(client, log, o)
  unfoldable pub check_or_regenerate_client_cert_and_key :
      CertOpts → Exec W (Bool × String × String)
  check_or_regenerate_client_cert_and_key o = do
    answer ← attempt (p.get_request o.username)
    check_request o answer

  module _ (os : Os W) (dir : String) where
    -- os.Remove, whose error is dropped
    unfoldable pub remove_each : List String → Exec W (Unit {0})
    remove_each [] = pure tt
    remove_each (name ∷ names) = do _ ← attempt (os.remove dir name); remove_each names

    unfoldable pub cleaned : List String → String → Result (Unit {0}) → Exec W (Unit {0})
    cleaned names message (ok u) = pure tt
    cleaned names message (err e) = do remove_each names; raise (text message)

    -- if err != nil { os.Remove(…); return fmt.Errorf(message, err) }
    unfoldable pub or_remove : List String → String → Exec W (Unit {0}) → Exec W (Unit {0})
    or_remove names message m = do answer ← attempt m; cleaned names message answer

    -- the directory, and the temporary files with the certificate and the key
    unfoldable pub write_temporary : List ℕ → List ℕ → Exec W (Unit {0})
    write_temporary crt key = do
      on_error (λ e. text "cannot create directory for certificate and key: %v") (os.mkdir_all dir)
      on_error (λ e. text "cannot create temporary certificate file: %v")
          (os.create dir "tls.crt.tmp")
      or_remove ("tls.crt.tmp" ∷ []) "cannot write certificate file: %v"
          (os.write dir "tls.crt.tmp" crt)
      or_remove ("tls.crt.tmp" ∷ []) "cannot create temporary key file: %v"
          (os.create dir "tls.key.tmp")
      or_remove ("tls.crt.tmp" ∷ "tls.key.tmp" ∷ []) "cannot write key file: %v"
          (os.write dir "tls.key.tmp" key)

    -- the two renames
    unfoldable pub rename_both : Exec W (Unit {0})
    rename_both = do
      or_remove ("tls.crt.tmp" ∷ "tls.key.tmp" ∷ []) "cannot rename certificate file: %v"
          (os.rename dir "tls.crt.tmp" "tls.crt")
      or_remove ("tls.key.tmp" ∷ []) "cannot rename key file: %v"
          (os.rename dir "tls.key.tmp" "tls.key")

    -- UpdateCerts(crt, key, certsPath)
    unfoldable pub update_certs : String → String → Exec W (Unit {0})
    update_certs crt key = do
      dec_cert ← on_error (λ e. text "cannot decode certificate: %v") (lift (p.from_base64 crt))
      dec_key ← on_error (λ e. text "cannot decode key: %v") (lift (p.from_base64 key))
      write_temporary dec_cert dec_key
      rename_both
