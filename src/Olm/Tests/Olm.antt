-- ===== src/Olm/Tests/Olm.antt =====
-- The theorems on the installation of OLM itself at a cluster that has nothing of it.
use mathlib.Core.List.Permᴰ
use operator_sdk.Base.{
  All, true, false, ◌↔◌, Option, none, some, List, [], ◌∷◌, ◌++◌, any, ◌≡◌, refl,
}
use operator_sdk.Errors.{Error, ok, err, api_not_found}
use operator_sdk.Olm.Client.{
  rollout_complete, rollout_attempt, create_attempt, safe_create_one_resource,
}
use operator_sdk.Olm.Status.{
  Object, ResourceStatus, get_objects_status, get_crd_kind_set, has_installed_resources,
}
use operator_sdk.Olm.Status.Laws.{IsSort, IsClean, has_installed_resources_iff}
use operator_sdk.Olm.OlmInstaller.{creates, Env, get_resources, install_version}
use operator_sdk.Olm.OlmInstaller.Installed.{IsInstalled, install_version-IsInstalled}
use operator_sdk.Olm.Client.Once.{once, once-IsPoller}
use operator_sdk.Olm.Tests.Client.{deployment, waited, workloads}

abbrev crd : Object
crd = record {
  gvk = record {
    group = "apiextensions.k8s.io";
    version = "v1";
    kind = "CustomResourceDefinition";
  };
  namespace = "";
  name = "subscriptions";
  crd_kind = ok "Subscription";
}

abbrev subscription : Object
subscription = record {
  gvk = record { group = "operators.coreos.com"; version = "v1alpha1"; kind = "Subscription" };
  namespace = "olm";
  name = "packageserver";
  crd_kind = ok "";
}

abbrev sorted : List ResourceStatus → List ResourceStatus
sorted rs = rs

sorted-IsSort : IsSort sorted
sorted-IsSort rs = Permᴰ.refl rs

abbrev absent : Object → Option Error
absent o = some (api_not_found o.name)

abbrev env : Env
env = record {
  has_bindata = λ v. true;
  bindata = λ p. ok (crd ∷ []);
  download = λ u. ok [];
  parse_semver = λ v. none;
  sorted = sorted;
  poller = once;
  last_attempt = λ c. 0;
  before = absent;
  get = λ k o. none;
  after = λ o. none;
  create = λ o k. none;
  delete = λ o. none;
  deployment = λ n k. ok deployment;
  installed_csv = λ s k. ok "packageserver";
  workloads = workloads;
  csv = λ n k. ok (waited "Succeeded");
  last_csv = λ n. waited "Succeeded";
}

kinds_read :
    get_crd_kind_set (get_objects_status absent (crd ∷ subscription ∷ []))
    ≡ ok ("Subscription" ∷ [])
unfolding get_crd_kind_set get_objects_status
kinds_read = refl

has_installed_resources_iff_example :
    ((has_installed_resources sorted (get_objects_status absent (crd ∷ subscription ∷ []))
        ≡ ok true)
      ↔ (any (λ r. r.found) (get_objects_status absent (crd ∷ subscription ∷ [])) ≡ true))
    × ((has_installed_resources sorted (get_objects_status absent (crd ∷ subscription ∷ []))
          ≡ ok false)
        ↔ ((any (λ r. r.found) (get_objects_status absent (crd ∷ subscription ∷ [])) ≡ false)
            × All
                (IsClean (get_objects_status absent (crd ∷ subscription ∷ [])))
                (get_objects_status absent (crd ∷ subscription ∷ []))))
has_installed_resources_iff_example =
    has_installed_resources_iff sorted sorted-IsSort
      (get_objects_status absent (crd ∷ subscription ∷ [])) ("Subscription" ∷ []) kinds_read

abbrev installed : List ResourceStatus
installed = elim (install_version env "" "0.28.0").1 [ ok s ↦ s | err e ↦ [] ]

installs : (install_version env "" "0.28.0").1 ≡ ok installed
unfolding install_version safe_create_one_resource create_attempt rollout_complete rollout_attempt
installs = refl

install_version-IsInstalled_example :
    (crds resources : List Object) × (get_resources env "" "0.28.0" ≡ ok (crds, resources))
    × IsInstalled env once-IsPoller crds resources
    × ((install_version env "" "0.28.0").0 ≡ creates crds ∷ creates resources ∷ [])
    × (installed ≡ get_objects_status (λ o. none) (crds ++ resources))
install_version-IsInstalled_example =
    install_version-IsInstalled env once-IsPoller sorted-IsSort "" "0.28.0" installed installs
