-- ===== src/Olm/OlmInstaller.antt =====
-- internal/olm/installer: client.go, which installs and uninstalls OLM itself, and the choice of the
-- version in manager.go. The batches of objects that DoCreate and DoDelete get are recorded.
pub mod Missing
pub mod Installed
use operator_sdk.Base.{
  ℕ, String, Bool, true, false, not, ◌&&◌, ◌<>◌, Option, none, some, List, [], ◌∷◌, ◌++◌, ltb,
  nat_beq, ◌==◌, filter, if◌then◌else◌,
}
use operator_sdk.Errors.{Error, failure, message, Result, ok, err}
use operator_sdk.Olm.Client.{
  Attempt, done, again, stop, Poller, do_create, do_delete, Deployment, do_rollout_wait,
}
use operator_sdk.Olm.Client.Wait.{WaitedCsv, WaitError, Workloads, do_csv_wait}
use operator_sdk.Olm.Status.{
  Gvk, Object, ResourceStatus, get_objects_status, has_installed_resources,
}

pub data Call : Type 0 where
  creates deletes : List Object → Call

abbrev pub Outcome : Type 0 → Type 0
Outcome A = List Call × Result A

-- A semantic version as `semver.ParseTolerant` reads it, with its text.
pub record Semver : Type 0 where
  pub major : ℕ
  pub minor : ℕ
  pub text : String

-- What the code calls. `before` are the answers to `Get` before the installation, `get` those at the
-- attempts of a poll, and `after` those when it is done.
pub record Env : Type 0 where
  pub has_bindata : String → Bool
  pub bindata : String → Result (List Object)
  pub download : String → Result (List Object)
  pub parse_semver : String → Option Semver
  pub sorted : List ResourceStatus → List ResourceStatus
  pub poller : Poller
  pub last_attempt : (ℕ → Attempt) → ℕ
  pub before : Object → Option Error
  pub get : ℕ → Object → Option Error
  pub after : Object → Option Error
  pub create : Object → ℕ → Option Error
  pub delete : Object → Option Error
  pub deployment : String → ℕ → Result Deployment
  pub installed_csv : Object → ℕ → Result String
  pub workloads : Workloads
  pub csv : String → ℕ → Result WaitedCsv
  pub last_csv : String → WaitedCsv

abbrev pub olm_not_installed : Error
olm_not_installed = failure "no existing installation found"

abbrev pub olm_group : String
olm_group = "operators.coreos.com"

-- `formatVersion`
unfoldable pub format_version : (String → Option Semver) → String → String
format_version parse version = elim (parse version) [
  | none ↦ version
  | some sv ↦ if nat_beq sv.major 0 && ltb sv.minor 17 then sv.text else "v" <> sv.text
]

-- `getBaseDownloadURL`, `crdsURL` and `olmURL`, for the base of the client.
unfoldable pub get_base_download_url : String → String → String
get_base_download_url base version =
    if version == "latest"
    then base <> "/" <> version <> "/download"
    else base <> "/download/" <> version

unfoldable pub crds_url : String → String → String
unfolding get_base_download_url
crds_url base version = get_base_download_url base version <> "/crds.yaml"

unfoldable pub olm_url : String → String → String
unfolding get_base_download_url
olm_url base version = get_base_download_url base version <> "/olm.yaml"

-- The filters of InstallVersion.
unfoldable pub is_not_olm : Object → Bool
is_not_olm o =
    not ((o.gvk.group == olm_group) && (o.gvk.version == "v1"))
    && not ((o.gvk.group == olm_group) && (o.gvk.version == "v1alpha1"))

unfoldable pub is_subscription : Object → Bool
is_subscription o =
    (o.gvk.group == olm_group) && ((o.gvk.version == "v1alpha1") && (o.gvk.kind == "Subscription"))

unfoldable pub filter_resources : List Object → (Object → Bool) → List Object
filter_resources rs p = filter p rs

module _ (E : Env) where
  -- Two lists of manifests, the second with the error of the first.
  unfoldable pub both :
      Result (List Object) → Result (List Object) → Result (List Object × List Object)
  both (err e) r = err e
  both (ok crds) (err e) = err e
  both (ok crds) (ok olm) = ok (crds, olm)

  unfoldable pub fetched : String → Result (List Object) → Result (List Object)
  fetched text (ok rs) = ok rs
  fetched text (err e) = err (failure (text <> message e))

  unfoldable pub get_resources : String → String → Result (List Object × List Object)
  unfolding both fetched format_version crds_url olm_url
  get_resources base version =
      let resolved = format_version E.parse_semver version in
      if E.has_bindata version
      then both (E.bindata ("olm-manifests/" <> version <> "-crds.yaml"))
          (E.bindata ("olm-manifests/" <> version <> "-olm.yaml"))
      else both (fetched "failed to fetch CRDs: " (E.download (crds_url base resolved)))
          (fetched "failed to fetch resources: " (E.download (olm_url base resolved)))

  -- The first two checks of InstallVersion.
  unfoldable pub check_absent : List Object → Option Error
  unfolding get_objects_status has_installed_resources
  check_absent objs = elim (has_installed_resources E.sorted (get_objects_status E.before objs)) [
    | err e ↦ some (failure ("detected errored OLM resources: " <> message e))
    | ok true ↦ some (failure "detected existing OLM resources")
    | ok false ↦ none
  ]

  -- The condition of the wait for the CRDs.
  unfoldable pub crds_attempt : List Object → ℕ → Attempt
  unfolding get_objects_status has_installed_resources
  crds_attempt crds k =
      elim (has_installed_resources E.sorted (get_objects_status (E.get k) crds)) [
        | err e ↦ stop e
        | ok true ↦ done
        | ok false ↦ again
      ]

  unfoldable pub wait_rollout : String → Option Error
  unfolding do_rollout_wait
  wait_rollout name = elim (do_rollout_wait E.poller (E.deployment name)) [
    | none ↦ none
    | some e ↦ some (failure ("deployment/" <> name <> " failed to rollout: " <> message e))
  ]

  -- `subscriptionInstalledCSV`
  unfoldable pub installed_csv_attempt : Object → ℕ → Attempt
  installed_csv_attempt sub k = elim (E.installed_csv sub k) [
    | err e ↦ stop e
    | ok name ↦ if name == "" then again else done
  ]

  -- `getSubscriptionCSV`, with the name that was read last.
  unfoldable pub get_subscription_csv : Object → Result String
  unfolding installed_csv_attempt
  get_subscription_csv sub = elim (E.poller.poll (installed_csv_attempt sub)) [
    | some e ↦ err e
    | none ↦ E.installed_csv sub (E.last_attempt (installed_csv_attempt sub))
  ]

  -- The body of the loop over the subscriptions.
  unfoldable pub wait_subscription : Object → Option Error
  unfolding get_subscription_csv do_csv_wait
  wait_subscription sub = elim (get_subscription_csv sub) [
    | err e ↦ some (failure ("subscription failed to install CSV: " <> message e))
    | ok csv ↦ elim (do_csv_wait E.workloads E.poller sub.namespace (E.csv csv) (E.last_csv csv)) [
      | none ↦ none
      | some e ↦ some (failure "clusterserviceversion failed to reach 'Succeeded' phase")
    ]
  ]

  unfoldable pub wait_subscriptions : List Object → Option Error
  unfolding wait_subscription
  wait_subscriptions [] = none
  wait_subscriptions (s ∷ ss) =
      let rest = wait_subscriptions ss in
      elim (wait_subscription s) [ some e ↦ some e | none ↦ rest ]

  -- InstallVersion from the rollouts on.
  unfoldable pub wait_installed : List Object → Option Error
  unfolding wait_rollout wait_subscriptions filter_resources is_subscription
  wait_installed resources = elim (wait_rollout "olm-operator") [
    | some e ↦ some e
    | none ↦ elim (wait_rollout "catalog-operator") [
      | some e ↦ some e
      | none ↦ elim (wait_subscriptions (filter_resources resources is_subscription)) [
        | some e ↦ some e
        | none ↦ wait_rollout "packageserver"
      ]
    ]
  ]

  -- From the wait for the CRDs on.
  unfoldable pub create_resources : List Object → List Object → Outcome (List ResourceStatus)
  unfolding crds_attempt do_create wait_installed get_objects_status
  create_resources crds resources = elim (E.poller.poll (crds_attempt crds)) [
    | some e ↦ ([], err (failure ("waiting for CRDs to be installed: " <> message e)))
    | none ↦ elim (do_create E.poller E.create resources) [
      | some e ↦ (
        creates resources ∷ [],
        err (failure ("failed to create CRDs and resources: " <> message e)),
      )
      | none ↦ elim (wait_installed resources) [
        | some e ↦ (creates resources ∷ [], err e)
        | none ↦ (creates resources ∷ [], ok (get_objects_status E.after (crds ++ resources)))
      ]
    ]
  ]

  unfoldable pub install_resources : List Object → List Object → Outcome (List ResourceStatus)
  unfolding check_absent filter_resources is_not_olm do_create create_resources
  install_resources crds resources = elim (check_absent crds) [
    | some e ↦ ([], err e)
    | none ↦ elim (check_absent (filter_resources resources is_not_olm)) [
      | some e ↦ ([], err e)
      | none ↦ elim (do_create E.poller E.create crds) [
        | some e ↦ (creates crds ∷ [], err (failure ("failed to create CRDs: " <> message e)))
        | none ↦ let (calls, r) = create_resources crds resources in (creates crds ∷ calls, r)
      ]
    ]
  ]

  unfoldable pub install_version : String → String → Outcome (List ResourceStatus)
  unfolding get_resources install_resources
  install_version base version = elim (get_resources base version) [
    | err e ↦ ([], err (failure ("failed to get resources: " <> message e)))
    | ok (crds, resources) ↦ install_resources crds resources
  ]

  -- UninstallVersion goes on where the resources have errors.
  unfoldable pub uninstall_version : String → String → List Call × Option Error
  unfolding get_resources get_objects_status has_installed_resources do_delete
  uninstall_version base version = elim (get_resources base version) [
    | err e ↦ ([], some (failure ("failed to get resources: " <> message e)))
    | ok (crds, resources) ↦
        let objs = crds ++ resources in
        elim (has_installed_resources E.sorted (get_objects_status E.before objs)) [
          | ok false ↦ ([], some olm_not_installed)
          | _ ↦ (deletes objs ∷ [], do_delete E.poller E.delete (λ o k. E.get k o) objs)
        ]
  ]

  unfoldable pub get_status : String → String → Result (List ResourceStatus)
  unfolding get_resources get_objects_status has_installed_resources
  get_status base version = elim (get_resources base version) [
    | err e ↦ err (failure ("failed to get resources: " <> message e))
    | ok (crds, resources) ↦
        let status = get_objects_status E.before (crds ++ resources) in
        elim (has_installed_resources E.sorted status) [
          | err e ↦ err (failure ("the OLM installation has resource errors: " <> message e))
          | ok false ↦ err olm_not_installed
          | ok true ↦ ok status
        ]
  ]

-- The version that Uninstall and Status of the manager work on, for the installed version and the
-- one that was given.
unfoldable pub resolve_version : Result String → String → Result String
resolve_version (err e) given =
    if given == ""
    then err (failure ("error getting installed OLM version: " <> message e))
    else ok given
resolve_version (ok installed) given =
    if given == ""
    then ok installed
    else if installed == given
    then ok given
    else err (failure ("mismatched installed version " <> installed <> " vs. supplied " <> given))

-- `Uninstall` of the manager, for a client that is initialized.
unfoldable pub uninstall : Env → String → Result String → String → List Call × Option Error
unfolding resolve_version uninstall_version
uninstall E base installed given = elim (resolve_version installed given) [
  | err e ↦ ([], some e)
  | ok version ↦ uninstall_version E base version
]
