-- ===== src/Lib.antt =====
-- Models of the core of operator-sdk, and the theorems that make it correct.
--
-- The program has two halves that share no state. The Helm operator (internal/helm) runs in the
-- cluster: its reconciler is called for a custom resource, asks a manager of the resource's Helm
-- release to install, upgrade, reconcile or uninstall it, and writes the outcome into the status
-- of the resource. The command-line tool generates the manifests of an operator's bundle and
-- talks to the Operator Lifecycle Manager (OLM) to install and to remove operators, and OLM itself;
-- and it runs the tests of a bundle, the scorecard.
--
-- Which file models which part:
--   Base, Base/Tests, Base/Lists    Boolean tests, lists, case splits.
--   Base/Text, Base/Split           the parts of Go's strings and sort that are used; a text is its
--                                   list of code points where its characters matter.
--   Errors                          Go errors as values: the kinds that the code tells apart, with
--                                   wrapping, and the result of a call.
--   Helm/Status                     internal/helm/internal/types/types.go: SetCondition is
--                                   set_condition with the clock's reading, RemoveCondition is
--                                   remove_condition, StatusFor is status_for.
--   Helm/Release                    the interface Manager of internal/helm/release/manager.go, as
--                                   the answers that it gives in one reconciliation.
--   Helm/Reconcile                  internal/helm/controller/reconcile.go: Reconcile is reconcile in
--                                   Run; its blocks are reconcile_deletion (Deletion), install_pass,
--                                   upgrade_pass and reconcile_pass (Passes); the readers of
--                                   annotations are in Annotations, and what the reconciler is
--                                   connected to is the record Env. A block returns an Outcome: the
--                                   calls that it made, in order, and the pair that is returned.
--   Helm/Manager                    internal/helm/release/manager.go: Sync; InstallRelease,
--                                   UpgradeRelease, RollBack and UninstallRelease in Actions;
--                                   ReconcileRelease and the patches in Patch; CleanupRelease, with
--                                   internal/helm/manifestutil/resource_policy.go, in Cleanup.
--   Helm/Connected                  the manager of Helm/Manager as the record of answers that
--                                   Helm/Reconcile takes: one state of Helm and of the cluster runs
--                                   through the methods in the order in which they are called.
--   Helm/Factory                    internal/helm/release/manager_factory.go: NewManager,
--                                   getReleaseName and mergeMaps.
--   Helm/Watches                    internal/helm/watches/watches.go: Load and LoadReader.
--   Olm/Client                      internal/olm/client/client.go: DoCreate, DoDelete, DoRolloutWait;
--                                   DoCSVWait in Wait; GetInstalledVersion in Version. Once is a poller
--                                   for concrete inputs.
--   Olm/Status                      internal/olm/client/status.go.
--   Olm/OlmInstaller                internal/olm/installer/client.go and the choice of a version of
--                                   manager.go.
--   Olm/Registry/ConfigMaps         internal/olm/operator/registry/fbcindex: configMapWriter.go, and
--                                   getConfigMaps and partitionedConfigMaps of fbc_registry_pod.go.
--                                   A gzip writer is the list of what it was asked.
--   Olm/Registry/FbcPod             the rest of fbc_registry_pod.go: the upload of the config maps, the
--                                   pod, and Create.
--   Olm/Registry/Installer          internal/olm/operator/registry/operator_installer.go, with the
--                                   objects of olm_resources.go.
--   Olm/InstallMode                 internal/olm/operator/install_mode.go.
--   Olm/Uninstall                   internal/olm/operator/uninstall.go: the deletions; what Run finds
--                                   and in which order it deletes is in Plan.
--   Scorecard                       internal/scorecard/scorecard.go: Run, and List of formatting.go; the
--                                   runner that runs tests in pods, with testpod.go, testconfigmap.go
--                                   and storage.go, is in Pods. The deletion of pods is only started:
--                                   it marks them as terminating. A log that is the JSON null is left
--                                   out.
--   Util/K8sutil                    internal/util/k8sutil/k8sutil.go: names and owner references.
--   Collector/NameMap               Go maps with text keys.
--   Collector/Permissions           internal/generate/collector/clusterserviceversion.go.
--   Collector/RelatedImages         internal/cmd/operator-sdk/generate/internal/relatedimages.go, whose
--                                   formatName is in Collector/FormatName.
--   Csv                             internal/generate/clusterserviceversion/clusterserviceversion_updaters.go:
--                                   the permissions of the install strategy, and the owned CRDs, whose
--                                   keys are from internal/util/k8sutil/api.go.
--   Csv/Webhooks                    the same file: the admission webhooks. Conversion groups the CRDs by
--                                   their webhooks, and Applied has applyWebhooks. A pointer to a port is
--                                   an address and a number; the orders of Go's maps are parameters.
-- The files Laws, Remaining, Overrides, Missing, Collected, Once of Run, Success, Failure, Steady,
-- Loaded, Installed, Packing, Names, Upload, Wiring, Ready, Groups, Steps, Order, Runs, Cleanup of
-- Pods, Finished, Labels, Granted, Roles, Listed, Definitions, Matching and Grouped prove what holds
-- of their parent, and the files in and named Tests have concrete inputs.
--
-- What is a parameter. The API server, Helm's storage and actions, the pollers, the converters, and
-- the libraries for patches, labels and versions are fields of records, or arguments, and what is
-- relied on stands in records of laws, or in predicates: IsControllerutil, IsStorage, IsApiServer,
-- IsLabelCheck, IsPoller, IsPolled, IsGzip, IsUnzip, HasSuffix, IsArrival, IsSort,
-- KeepsElements, IsMapOrder. Each law has an instance among the tests.
--
-- Bounds. Only the decimal digits of a number have fuel, the number itself, which has fewer digits;
-- every loop of the code that is modelled runs over a list, and a poll or a retry is the library's,
-- of which only the documented behaviour is used. Counts, sizes and generations are natural numbers
-- that stay far below the width of an int; durations are only passed on.
--
-- What is not modelled: logging; the texts of errors where they name a kind or quote a name; the
-- retry loops of the reconciler's writes; the scaffolding plugins, the archive of a scorecard's
-- bundle and the copy of a test's output, the registries of index images, the examples of a CSV,
-- and the commands, which pass flags on to the parts above.
pub mod Base
pub mod Errors
pub mod Helm
pub mod Olm
pub mod Util
pub mod Scorecard
pub mod Collector
pub mod Csv
