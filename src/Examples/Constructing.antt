-- ===== src/Examples/Constructing.antt =====
-- A certificate manager that is made where there is no certificate yet.
use core_provider.Base.{String, List, [], ◌∷◌, Option, none, true, ◌≡◌, refl}
use core_provider.Base.Result.{ok}
use core_provider.Base.Exec.{◌>>=◌}
use core_provider.Certificates.{CertManager, Held}
use core_provider.Certificates.Construction.{
  Opts, Options, with_cert_path, apply_options, constructed, new_cert_manager, IsConfigured,
  OptionsSet, Loaded, new_cert_manager-ok,
}
use core_provider.Examples.Fixtures.{a_gvr}
use core_provider.Examples.Certifying.{Store, no_files, manager}

abbrev some_opts : Opts
some_opts = record {
  has_rest_config = true;
  webhook_service_name = "core-provider";
  webhook_service_namespace = "krateo-system";
  mutating_webhook_template_path = "webhook.yaml";
  cert_opts = manager.cert_opts;
}

abbrev defaults : Options Store
defaults = record { path = "tmp"; pluralizer = λ gvk w. (ok a_gvr, w) }

abbrev at_certs : List (Options Store → Options Store)
at_certs = with_cert_path "certs" ∷ []

abbrev new_manager : CertManager Store (Unit {0}) (Unit {0}) (Unit {0})
new_manager = constructed manager some_opts (apply_options at_certs defaults)

started : Held × Store
started = (new_cert_manager manager (ok tt) defaults some_opts at_certs (none, no_files)).1

started_eq :
    new_cert_manager manager (ok tt) defaults some_opts at_certs (none, no_files)
    ≡ (ok new_manager, started)
unfolding core_provider.Base.Exec.beside core_provider.Base.Exec.on_error ◌>>=◌
    core_provider.Certificates.refresh_certificates core_provider.Certificates.renew
    core_provider.Certificates.set_ca_bundle core_provider.Certificates.Construction.check_opts
    core_provider.Certificates.Construction.loaded
    core_provider.Certificates.Construction.load_ca_bundle
    core_provider.Certificates.Construction.new_cert_manager
    core_provider.Certificates.Construction.constructed
    core_provider.Certificates.Construction.apply_options
    core_provider.Certificates.Construction.with_cert_path core_provider.Certs.cleaned
    core_provider.Certs.created core_provider.Certs.generate_client_cert_and_key
    core_provider.Certs.or_remove core_provider.Certs.remove_each core_provider.Certs.rename_both
    core_provider.Certs.request_options core_provider.Certs.signing_options
    core_provider.Certs.update_certs core_provider.Certs.write_temporary started
started_eq = refl

new_cert_manager-ok_example :
    (options : Options Store) × OptionsSet at_certs defaults options
    × IsConfigured manager some_opts options new_manager
    × Loaded new_manager none no_files started.0 started.1
new_cert_manager-ok_example =
    new_cert_manager-ok manager new_manager (ok tt) defaults some_opts at_certs none started.0
      no_files started.1 started_eq
