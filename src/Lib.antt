-- ===== src/Lib.antt =====
-- Core provider: the controller that turns a Helm chart into a Kubernetes API.
--
-- A CompositionDefinition names a chart. From the chart's schema the controller makes a CRD, installs
-- it beside the versions that are already there, and deploys a composition controller for it with its
-- RBAC resources, config maps and service. To find out whether anything has to be done, it compares
-- the digest of what a server dry run of the deployment answers with the digest of what the cluster
-- holds.
--
-- The files and the code that they model, paths from the root of the repository:
--   Base        values, tests, errors and the state-and-error monad `Exec`, with its invariants
--   Schema      the structs of apimachinery that the program fills in
--   Types       apis/compositiondefinitions/v1alpha1/types.go
--   Retry       internal/tools/retry/retry.go: Do, Delay
--   Hash        internal/tools/hash/hasher.go: SumHash, GetHash, Reset
--   Kube        internal/tools/kube/client.go and options.go: Apply, Uninstall, Get
--   Watcher     internal/tools/kube/watcher/watch.go: WatchResource
--   Objects     internal/tools/objects/object.go and templates/templates.go: CreateK8sObject, Values
--   Deployment  internal/tools/deployment/deployment.go
--   Crd         internal/tools/crd/generation/generation.go (Crd/Generation) and crd.go (Crd/Cluster)
--   Status      internal/controllers/compositiondefinitions/helpers/status/status.go
--   Deploy      internal/tools/deploy/deploy.go: Deploy (Install), Lookup (Find), Undeploy (Uninstall),
--               the RBAC functions (Rbac), the blocks for the secret of a chart (Secret), the names
--   Composition internal/controllers/compositiondefinitions/helpers/getters/getters.go
--   Definition  internal/controllers/compositiondefinitions/retry.go
--   Defaults    internal/controllers/compositiondefinitions/webhooks/utils/defaults/defaults.go:
--               applyDefaultsToMap, PopulateDefaultsFromCRD (Populate)
--   Mutation    internal/controllers/compositiondefinitions/webhooks/mutation/mutation.go
--   Conversion  internal/controllers/compositiondefinitions/webhooks/conversion/conversion.go:
--               handleConvertRequest, ServeHTTP
--   Convertible internal/controllers/compositiondefinitions/webhooks/utils/convertible: convertible.go
--   Pluralizer  internal/tools/pluralizer/pluralizer.go
--   Tgzfs       internal/tools/tgzfs: fs.go and errors.go, file.go (Files), the names of package path
--               (Paths) and the entries (Nodes)
--   Strutil     internal/tools/strutil/strutil.go
--   Chart       internal/tools/chart: chart.go, chartfs/chartfs.go and chartfs/gvr.go, and
--               internal/tools/resolvers/secrets.go
--   Controller  internal/controllers/compositiondefinitions/compositiondefinitions.go: Observe, Create
--               and Update (Apply), Delete, cleanupObsoleteFinalizerLabels (Cleanup)
--   Certs       internal/tools/certs/certs.go
--   Certificates  internal/controllers/certificates: certificates.go, of it NewCertManager, with
--               options.go, in Construction, and reconciler.go (Reconciler)
--   Examples    the theorems at concrete inputs
--
-- How state and calls are modelled. An action of the program is a function from a world to a result
-- and a world. The world is a parameter: it is whatever the API server, the file system and the clock
-- depend on. The client, the watches, the files, the template and YAML libraries and json.Marshal are
-- fields of records such as Client, CrdPlatform, Files and Platform, which every theorem quantifies over.
-- The controller's methods act on the definition that they are given beside the world, the certificate
-- manager's on its CA bundle beside the world; the manager fills the interface that the controller
-- uses. An object that a Go function changes through a pointer is part of the state (Apply, Uninstall, the
-- hash) or is returned. Errors are values that keep what the program asks of them: cancellation,
-- deadlines, status codes and wrapping; the values in an error's text are left out.
--
-- Numbers. A time.Duration is the 64 bits of an int64, and the comparison and the shift of Delay wrap
-- around as Go's do. The sum of the hash is 64 bits.
--
-- Loops. The loop of retry.Do runs on the number of attempts that are left, which starts at the number
-- of attempts, so that the last round always returns; the sixteen rounds of GetHash are the digits of
-- 64 bits. Reading a file of a package and listing a directory to the end are repeated calls on fuel
-- (Tgzfs/Loops); a call for each byte or entry, and one more, is enough. All other loops go through a
-- list.
--
-- Not modelled. Logging and metrics have no effect on what is returned. Goroutines occur in the
-- watcher, where the sequence of signals that the `select` sees is arbitrary, and in the reconciler of
-- the certificates, of which one run with any number of ticks is modelled; the manager's mutexes have
-- no part in that. Generated code, flags, and the wiring of main.go, of Setup and of Connect are left
-- out.
pub mod Base
pub mod Schema
pub mod Types
pub mod Retry
pub mod Hash
pub mod Kube
pub mod Watcher
pub mod Objects
pub mod Deployment
pub mod Crd
pub mod Status
pub mod Deploy
pub mod Composition
pub mod Definition
pub mod Defaults
pub mod Mutation
pub mod Convertible
pub mod Conversion
pub mod Pluralizer
pub mod Tgzfs
pub mod Strutil
pub mod Chart
pub mod Controller
pub mod Certs
pub mod Certificates
pub mod Examples
