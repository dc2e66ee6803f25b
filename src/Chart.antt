-- ===== src/Chart.antt =====
-- internal/tools/chart/chart.go, chartfs/chartfs.go and chartfs/gvr.go, and resolvers/secrets.go: the
-- chart of a definition, fetched, unpacked and read.
pub mod Archive
pub mod Archived
pub mod Retries
use core_provider.Base.{
  ℕ, String, List, [], ◌∷◌, Option, none, some, Bool, str_eq, str_append, if◌then◌else◌,
}
use core_provider.Base.Result.{text, panic, wrap, Result, ok, err, ApiErrors}
use core_provider.Base.Exec.{Exec, pure, raise, lift, on_error, ◌>>=◌}
use core_provider.Retry.{retry_do}
use core_provider.Schema.{GroupVersionKind, NamespacedName}
use core_provider.Types.{SecretKeySelector, ChartInfo}
use core_provider.Chart.Retries.{chart_config}

-- The options of the chart getter: repository, version, TLS and, where they are given, credentials.
pub record GetterOptions : Type 0 where
  pub repo : String
  pub version : String
  pub insecure_skip_verify_tls : Bool
  pub credentials : Option (String × String)

-- What the getter gives: a reader, which may be nil and whose reading may fail, and the URL.
pub record Download : Type 0 where
  pub reader : Option (Result (List ℕ))
  pub url : String

-- a value of a YAML map
pub data Yaml : Type 0 where
  yaml_string : String → Yaml
  yaml_other : Yaml

-- What the functions take from libraries and from the archive. `A` is an opened archive; `read_root` lists
-- its root with whether an entry is a directory, `read_file` opens a file and reads it to the end;
-- `secret` reads the data of a secret; `download` is the getter of plumbing; `unmarshal` is
-- yaml.Unmarshal into a map; `replace_all` is strings.ReplaceAll; `go_name` is flect.Pascalize after
-- ToGolangName.
pub record Charts (W A : Type 0) : Type 0 where
  pub api : ApiErrors
  pub wait : ℕ → Exec W (Unit {0})
  pub secret : NamespacedName → Exec W (List (String × String))
  pub download : String → GetterOptions → Exec W Download
  pub new_archive : List ℕ → Result A
  pub read_root : A → List (String × Bool)
  pub read_file : A → String → Result String
  pub unmarshal : String → Result (List (String × Yaml))
  pub replace_all : String → String → String → String
  pub go_name : String → String

unfoldable pub secret_value : String → List (String × String) → String
secret_value k [] = ""
secret_value k ((j, v) ∷ m) = if str_eq j k then v else secret_value k m

-- res[key].(string), a panic where it is no string
unfoldable pub yaml_text : String → List (String × Yaml) → Result String
yaml_text k [] = err (panic "interface conversion: interface {} is nil, not string")
yaml_text k ((j, yaml_string v) ∷ m) = if str_eq j k then ok v else yaml_text k m
yaml_text k ((j, yaml_other) ∷ m) =
    if str_eq j k
    then err (panic "interface conversion: interface {} is not string")
    else yaml_text k m

-- an archive with its root directory, and for a ChartFS the URL of the package
pub record Package (A : Type 0) : Type 0 where
  pub archive : A
  pub root_dir : String
  pub package_url : String

unfoldable pub directories : List (String × Bool) → List String
directories [] = []
directories ((n, is_dir) ∷ es) = let rest = directories es in if is_dir then n ∷ rest else rest

module _ {W A : Type 0} (p : Charts W A) where
  -- GetSecret(ctx, kube, secretKeySelector)
  unfoldable pub get_secret : SecretKeySelector → Exec W String
  get_secret s = do
    m ← p.secret (record { namespace = s.namespace; name = s.name })
    pure (secret_value s.key m)

  -- the options for the getter, after the secret has been read
  unfoldable pub getter_options : ChartInfo → Exec W GetterOptions
  getter_options nfo = elim nfo.credentials [
    | none ↦ pure (record {
      repo = nfo.repo;
      version = nfo.version;
      insecure_skip_verify_tls = nfo.insecure_skip_verify_tls;
      credentials = none;
    })
    | some c ↦ do
      secret ← on_error (wrap "failed to get secret: %w") (get_secret c.password_ref)
      pure (record {
        repo = nfo.repo;
        version = nfo.version;
        insecure_skip_verify_tls = nfo.insecure_skip_verify_tls;
        credentials = some (c.username, secret);
      })
  ]

  read_all : Option (Result (List ℕ)) → Result (List ℕ)
  read_all none = err (text "failed to get chart: empty response reader")
  read_all (some (ok bytes)) = ok bytes
  read_all (some (err e)) = err (wrap "failed to read chart: %w" e)

  -- the operation that is repeated
  unfoldable pub chart_bytes : String → GetterOptions → Exec W (List ℕ)
  unfolding read_all
  chart_bytes url opts = do
    d ← on_error (wrap "failed to get chart: %w") (p.download url opts)
    lift (read_all d.reader)

  -- chartBytesFromSpecWithRetry(ctx, uri, opts, log)
  unfoldable pub chart_bytes_with_retry : String → GetterOptions → Exec W (List ℕ)
  chart_bytes_with_retry url opts =
      on_error (wrap "failed to get chart after %d attempts: %w")
        (retry_do (chart_config p.api p.wait) (chart_bytes url opts))

  only_root : A → List (String × Bool) → Result (Package A)
  only_root a ((name, is_dir) ∷ []) = ok (record { archive = a; root_dir = name; package_url = "" })
  only_root a _ = err (text "tgz archive should contain only one root dir")

  -- ChartInfoFromBytes(ctx, bin)
  unfoldable pub chart_info_from_bytes : List ℕ → Result (Package A)
  unfolding only_root
  chart_info_from_bytes bytes = elim (p.new_archive bytes) [
    | err e ↦ err e
    | ok a ↦ only_root a (p.read_root a)
  ]

  -- ChartInfoFromSpec(ctx, kube, nfo)
  unfoldable pub chart_info_from_spec : Option ChartInfo → Exec W (Package A)
  chart_info_from_spec none = raise (text "chart infos cannot be nil")
  chart_info_from_spec (some nfo) = do
    opts ← getter_options nfo
    bytes ← chart_bytes_with_retry nfo.url opts
    lift (chart_info_from_bytes bytes)

  -- tgzfs.New reads from the reader; a nil one is a panic there
  read_from : Option (Result (List ℕ)) → Result A
  read_from none = err (panic "nil pointer dereference")
  read_from (some (err e)) = err e
  read_from (some (ok bytes)) = p.new_archive bytes

  only_directory : A → String → List String → Result (Package A)
  only_directory a url (name ∷ []) = ok (record { archive = a; root_dir = name; package_url = url })
  only_directory a url _ = err (text "archive should contain only one root dir")

  -- FromReader(in, pkgurl)
  unfoldable pub from_reader : Download → Result (Package A)
  unfolding read_from only_directory
  from_reader d = elim (read_from d.reader) [
    | err e ↦ err e
    | ok a ↦ only_directory a d.url (directories (p.read_root a))
  ]

  -- ForSpec(ctx, kube, nfo), which does not retry
  unfoldable pub for_spec : Option ChartInfo → Exec W (Package A)
  for_spec none = raise (text "chart infos cannot be nil")
  for_spec (some nfo) = do
    opts ← getter_options nfo
    d ← p.download nfo.url opts
    lift (from_reader d)

  gvk_of_yaml : List (String × Yaml) → Result GroupVersionKind
  gvk_of_yaml m = elim (yaml_text "version" m) [
    | err e ↦ err e
    | ok version ↦ elim (yaml_text "name" m) [
      | err e ↦ err e
      | ok name ↦ ok (record {
        group = "composition.krateo.io";
        version = str_append "v" (p.replace_all version "." "-");
        kind = p.go_name name;
      })
    ]
  ]

  -- ChartGroupVersionKind(tgzFS, rootDir) and chartfs.GroupVersionKind(fs), two times the same text
  unfoldable pub chart_group_version_kind : Package A → Result GroupVersionKind
  unfolding gvk_of_yaml
  chart_group_version_kind pkg =
      elim (p.read_file pkg.archive (str_append pkg.root_dir "/Chart.yaml")) [
        | err e ↦ err e
        | ok din ↦ elim (p.unmarshal din) [ err e ↦ err e | ok m ↦ gvk_of_yaml m ]
      ]

  -- ChartJsonSchema(tgzFS, rootDir)
  unfoldable pub chart_json_schema : Package A → Result String
  chart_json_schema pkg = p.read_file pkg.archive (str_append pkg.root_dir "/values.schema.json")
