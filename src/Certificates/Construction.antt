-- ===== src/Certificates/Construction.antt =====
-- internal/controllers/certificates/certificates.go: NewCertManager, and options.go.
use mathlib.Core.Path.{subst}
use core_provider.Base.{
  refl, ℕ, String, List, [], ◌∷◌, some, Bool, true, false, not, ◌≡◌, sym, ap, ◌∙◌, arith, inl, inr,
  str_eq, if◌then◌else◌,
}
use core_provider.Base.Result.{Error, text, wrap, Result, ok, err}
use core_provider.Base.Exec.{
  Exec, pure, raise, lift, attempt, on_error, beside, ◌>>=◌, ◌>>◌, on_error-ok, >>=-ok, beside-ok,
  if-outcome,
}
use core_provider.Schema.{GroupVersionKind}
use core_provider.Pluralizer.{Pluralizer, gvk_to_gvr}
use core_provider.Certs.{CertOpts}
use core_provider.Certificates.{CertManager, Held, set_ca_bundle, refresh_certificates}

-- Opts, of which RestConfig is only tested for nil
pub record Opts : Type 0 where
  pub has_rest_config : Bool
  pub webhook_service_name : String
  pub webhook_service_namespace : String
  pub mutating_webhook_template_path : String
  pub cert_opts : CertOpts

-- the tests at the beginning of NewCertManager
unfoldable pub check_opts : Opts → Result (Unit {0})
check_opts o =
    if not o.has_rest_config
    then err (text "rest config cannot be nil")
    else if str_eq o.mutating_webhook_template_path ""
    then err (text "mutating webhook template path cannot be empty")
    else if str_eq o.webhook_service_name ""
    then err (text "webhook service name cannot be empty")
    else if str_eq o.webhook_service_namespace ""
    then err (text "webhook service namespace cannot be empty")
    else ok tt

-- options, without the logger
pub record Options (W : Type 0) : Type 0 where
  pub path : String
  pub pluralizer : Pluralizer W

-- `join` is filepath.Join, `temp_dir` is os.TempDir(), `plural` is plurals.Get,
-- which pluralizer.New(false) uses.
unfoldable pub default_options :
    {W : Type 0} → (List String → String) → String → (GroupVersionKind → Exec W String) → Options W
default_options join temp_dir plural = record {
  path = join (temp_dir ∷ "k8s-webhook-server" ∷ "serving-certs" ∷ []);
  pluralizer = gvk_to_gvr plural;
}

unfoldable pub with_cert_path : {W : Type 0} → String → Options W → Options W
with_cert_path path o = record o { path = path }

unfoldable pub with_pluralizer : {W : Type 0} → Pluralizer W → Options W → Options W
with_pluralizer p o = record o { pluralizer = p }

-- `for _, fn := range optsFuncs { fn(&opts) }`
unfoldable pub apply_options : {W : Type 0} → List (Options W → Options W) → Options W → Options W
apply_options [] o = o
apply_options (f ∷ fs) o = apply_options fs (f o)

-- The functions of a list change the options one after the other, the first one first.
pub data OptionsSet {W : Type 0}
    : List (Options W → Options W) → Options W → Options W → Type 0 where
  all_set : {o : Options W} → OptionsSet [] o o
  set_by :
      {f : Options W → Options W} {fs : List (Options W → Options W)} {o o' : Options W}
      → OptionsSet fs (f o) o'
      → OptionsSet (f ∷ fs) o o'

apply_options-OptionsSet :
    {W : Type 0} (fs : List (Options W → Options W)) (o : Options W)
    → OptionsSet fs o (apply_options fs o)
unfolding apply_options
apply_options-OptionsSet [] o = all_set
apply_options-OptionsSet (f ∷ fs) o = set_by (apply_options-OptionsSet fs (f o))

module _ {W K C B : Type 0} where
  -- the struct, over the clients and the libraries of `libraries`
  unfoldable pub constructed : CertManager W K C B → Opts → Options W → CertManager W K C B
  constructed libraries o options = record libraries {
    cert_opts = o.cert_opts;
    gvk_to_gvr = options.pluralizer;
    mutating_webhook_template_path = o.mutating_webhook_template_path;
    cert_path = options.path;
    webhook_service_meta = record {
      namespace = o.webhook_service_namespace;
      name = o.webhook_service_name;
    };
  }

  -- the end of NewCertManager: the error of RefreshCertificates is dropped
  unfoldable pub loaded : CertManager W K C B → Result (List ℕ) → Exec (Held × W) (Unit {0})
  loaded m (ok cabundle) = set_ca_bundle m cabundle
  loaded m (err e) =
      if m.is_not_exist e
      then attempt (refresh_certificates m) >> pure tt
      else raise (wrap "error reading CA bundle: %w" e)

  unfoldable pub load_ca_bundle : CertManager W K C B → Exec (Held × W) (Unit {0})
  load_ca_bundle m = do
    answer ← beside (attempt (m.os.read_file m.cert_path "tls.crt"))
    loaded m answer

  -- NewCertManager(o, optsFuncs...), where client.New returns a client (it panics otherwise) and
  -- `connected` is the outcome of kubernetes.NewForConfig. The new manager holds no bundle before the
  -- first is loaded.
  unfoldable pub new_cert_manager :
      CertManager W K C B
      → Result (Unit {0})
      → Options W
      → Opts
      → List (Options W → Options W)
      → Exec (Held × W) (CertManager W K C B)
  new_cert_manager libraries connected defaults o opts_funcs = do
    lift (check_opts o)
    on_error (wrap "error creating kubernetes client: %w") (lift connected)
    let m = constructed libraries o (apply_options opts_funcs defaults)
    load_ca_bundle m
    pure m

  -- Where the bundle of a new manager comes from: from the file, or, where the file does not exist, from
  -- an attempt to make the certificates, whose outcome is not looked at.
  pub data Loaded (m : CertManager W K C B) (held : Held) (w : W) (held' : Held) (w' : W)
      : Type 0 where
    from_file :
        (cabundle : List ℕ)
        → m.os.read_file m.cert_path "tls.crt" w ≡ (ok cabundle, w')
        → held' ≡ some cabundle
        → Loaded m held w held' w'
    from_refresh :
        (e : Error) (v : W) (outcome : Result (Unit {0}))
        → m.os.read_file m.cert_path "tls.crt" w ≡ (err e, v)
        → m.is_not_exist e ≡ true
        → refresh_certificates m (held, v) ≡ (outcome, (held', w'))
        → Loaded m held w held' w'

  loaded-Loaded :
      (m : CertManager W K C B) (r : Result (List ℕ)) (held held' : Held) (w v w' : W)
      → m.os.read_file m.cert_path "tls.crt" w ≡ (r, v)
      → loaded m r (held, v) ≡ (ok tt, (held', w'))
      → Loaded m held w held' w'
  unfolding loaded set_ca_bundle ◌>>=◌
  loaded-Loaded m (ok cabundle) held held' w v w' read h =
      from_file cabundle (ground arith) (sym (ap (λ o. o.1.0) h))
  loaded-Loaded m (err e) held held' w v w' read h =
      elim (if-outcome (m.is_not_exist e) _ _ (held, v) (ok tt, (held', w')) h) [
        | inl (missing, run) ↦
            let outcome = (refresh_certificates m (held, v)).0 in
            from_refresh e v outcome read missing (ap (λ o. (outcome, o.1)) run)
        | inr (other, never) ↦ cc
      ]

  load_ca_bundle-Loaded :
      (m : CertManager W K C B) (held held' : Held) (w w' : W)
      → load_ca_bundle m (held, w) ≡ (ok tt, (held', w'))
      → Loaded m held w held' w'
  unfolding load_ca_bundle
  load_ca_bundle-Loaded m held held' w w' h =
      let (r, v, e, h1) = beside-ok _ _ held w tt (held', w') h in
      loaded-Loaded m r held held' w v w' (ground arith) h1

  -- what the manager is configured with, field by field
  pub record IsConfigured (libraries : CertManager W K C B) (o : Opts) (options : Options W)
      (m : CertManager W K C B) : Type 0 where
    pub connected_to : o.has_rest_config ≡ true
    pub template : m.mutating_webhook_template_path ≡ o.mutating_webhook_template_path
    pub has_template : str_eq o.mutating_webhook_template_path "" ≡ false
    pub service_name : m.webhook_service_meta.name ≡ o.webhook_service_name
    pub has_name : str_eq o.webhook_service_name "" ≡ false
    pub service_namespace : m.webhook_service_meta.namespace ≡ o.webhook_service_namespace
    pub has_namespace : str_eq o.webhook_service_namespace "" ≡ false
    pub certificate : m.cert_opts ≡ o.cert_opts
    pub path : m.cert_path ≡ options.path
    pub pluralizer : ◌≡◌ {A = Pluralizer W} m.gvk_to_gvr options.pluralizer
    pub crds : m.crds ≡ libraries.crds
    pub webhooks : m.webhooks ≡ libraries.webhooks
    pub plumbing : m.plumbing ≡ libraries.plumbing

  check_opts-IsConfigured :
      (libraries : CertManager W K C B) (o : Opts) (options : Options W)
      → check_opts o ≡ ok tt
      → IsConfigured libraries o options (constructed libraries o options)
  unfolding check_opts constructed
  check_opts-IsConfigured libraries o options h = record {
    connected_to = ground arith;
    template = refl;
    has_template = ground arith;
    service_name = refl;
    has_name = ground arith;
    service_namespace = refl;
    has_namespace = ground arith;
    certificate = refl;
    path = refl;
    pluralizer = refl;
    crds = refl;
    webhooks = refl;
    plumbing = refl;
  }

  -- A manager that NewCertManager returns has the template, the service name and the namespace of its
  -- arguments, none of them empty, the options for the certificate, and the path and the pluralizer that
  -- the given options leave, set in their order; it uses the clients that were made. Its bundle is the
  -- content of tls.crt under that path or, where there is no such file, what an attempt to make the
  -- certificates has left.
  pub new_cert_manager-ok :
      (libraries m : CertManager W K C B) (connected : Result (Unit {0})) (defaults : Options W)
      (o : Opts) (opts_funcs : List (Options W → Options W)) (held held' : Held) (w w' : W)
      → new_cert_manager libraries connected defaults o opts_funcs (held, w) ≡ (ok m, (held', w'))
      → (options : Options W) × OptionsSet opts_funcs defaults options
        × IsConfigured libraries o options m
        × Loaded m held w held' w'
  unfolding new_cert_manager
  new_cert_manager-ok libraries m connected defaults o opts_funcs held held' w w' h =
      let options = apply_options opts_funcs defaults in
      let new = constructed libraries o options in
      let (_, s1, e1, h1) = >>=-ok _ _ (held, w) m (held', w') h in
      let (_, s2, e2, h2) = >>=-ok _ _ s1 m (held', w') h1 in
      let (_, s3, e3, h3) = >>=-ok _ _ s2 m (held', w') h2 in
      let same : s2 ≡ (held, w) =
        sym (ap (λ r. r.1) e1 ∙ ap (λ r. r.1) (on_error-ok _ _ s1 s2 tt e2)) in
      let run : load_ca_bundle new (held, w) ≡ (ok tt, (held', w')) =
        sym (ap (load_ca_bundle new) same) ∙ e3 ∙ ap (λ s. (ok tt, s)) (ap (λ r. r.1) h3) in
      let here : new ≡ m = ap (λ r. elim r.0 [ ok x ↦ x | err e ↦ new ]) h3 in
      (
        options,
        apply_options-OptionsSet opts_funcs defaults,
        subst (IsConfigured libraries o options) here
            (check_opts-IsConfigured libraries o options (ap (λ r. r.0) e1)),
        subst (λ m. Loaded m held w held' w') here (load_ca_bundle-Loaded new held held' w w' run),
      )
