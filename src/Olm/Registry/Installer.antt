-- ===== src/Olm/Registry/Installer.antt =====
-- internal/olm/operator/registry: operator_installer.go, with the objects of olm_resources.go. The
-- cluster is its answers, and an outcome is the calls that change it, in order, and what is
-- returned.
pub mod Groups
pub mod Steps
pub mod Success
pub mod Order
use operator_sdk.Base.{
  ℕ, zero, suc, String, Bool, true, false, not, ◌&&◌, ◌<>◌, Option, none, some, List, [], ◌∷◌, ◌++◌,
  all, any, if◌then◌else◌,
}
use operator_sdk.Base.Text.{codes, same}
use operator_sdk.Base.Split.{Text}
use operator_sdk.Errors.{Error, failure, wrap, message, Result, ok, err}
use operator_sdk.Util.K8sutil.{format_operator_name_dns1123}
use operator_sdk.Olm.Client.{Attempt, done, again, stop, Poller}
use operator_sdk.Olm.Client.Wait.{WaitedCsv, WaitError, wait_error_text, Workloads, do_csv_wait}
use operator_sdk.Olm.InstallMode.{
  InstallMode, ModeType, single_mode, mode_type, all_namespaces, own_namespace, single_namespace,
  multi_namespace,
}

-- An operator group; without target namespaces it has a global scope.
pub record OperatorGroup : Type 0 where
  pub name : Text
  pub namespace : Text
  pub target_namespaces : List Text

pub record PlanRef : Type 0 where
  pub name : Text
  pub namespace : Text

-- A subscription: its spec, and the install plan of its status.
pub record Subscription : Type 0 where
  pub name : Text
  pub namespace : Text
  pub package_name : Text
  pub channel : Text
  pub starting_csv : Text
  pub catalog_source : Text
  pub catalog_source_namespace : Text
  pub approval : Text
  pub install_plan_ref : Option PlanRef

pub record InstallPlan : Type 0 where
  pub name : Text
  pub namespace : Text
  pub approved : Bool

pub data Call : Type 0 where
  create_catalog : Text → Call
  update_catalog : Text → Subscription → Call
  create_group : OperatorGroup → Call
  create_sub : Subscription → Call
  update_plan : InstallPlan → Call

abbrev pub Outcome : Type 0 → Type 0
Outcome A = List Call × Result A

-- `OperatorInstaller` with the namespace of its configuration.
pub record OperatorInstaller : Type 0 where
  pub catalog_source_name : Text
  pub package_name : Text
  pub starting_csv : Text
  pub channel : Text
  pub install_mode : InstallMode
  pub supported_install_modes : List Text
  pub namespace : Text

-- What the installer calls. `csvs` is what `DoCSVWait` reads, and `last_csv` what it read last.
pub record Env : Type 0 where
  pub is_dns1123_label : Text → List String
  pub catalog_created : Text → Result Text
  pub catalog_updated : Text → Subscription → Option Error
  pub catalog : Text → Text → Result Text
  pub groups : Result (List OperatorGroup)
  pub group_created : OperatorGroup → Option Error
  pub subscriptions : Result (List Subscription)
  pub sub_created : Subscription → Option Error
  pub sub : Subscription → ℕ → Result Subscription
  pub plan : PlanRef → ℕ → Result InstallPlan
  pub plan_updated : InstallPlan → ℕ → Option Error
  -- `retry.RetryOnConflict`: the attempt whose answer it returns.
  pub last_try : (ℕ → Option Error) → ℕ
  pub poller : Poller
  -- The last attempt that the poller makes.
  pub last_attempt : (ℕ → Attempt) → ℕ
  pub workloads : Workloads
  pub csvs : ℕ → Result WaitedCsv
  pub last_csv : WaitedCsv
  pub installed : Result WaitedCsv
  pub namespace_text : String

-- `InstallMode.IsEmpty`
unfoldable pub is_empty : InstallMode → Bool
is_empty i = same i.install_mode_type []

-- `set.Has`, and the intersection with a set of one element.
abbrev pub supports : List Text → Text → Bool
supports modes m = any (λ s. same s m) modes

unfoldable pub only : Text → List Text → List Text
only m modes = if supports modes m then m ∷ [] else []

-- `set.Equal`
unfoldable pub same_set : List Text → List Text → Bool
same_set xs ys = all (supports ys) xs && all (supports xs) ys

abbrev pub sdk_operator_group_name : Text
sdk_operator_group_name = codes "operator-sdk-og"

-- `newSDKOperatorGroup` with `withTargetNamespaces`, whose guard reads the first namespace.
unfoldable pub new_sdk_operator_group : Text → List Text → OperatorGroup
new_sdk_operator_group ns targets = record {
  name = sdk_operator_group_name;
  namespace = ns;
  target_namespaces = elim targets [ [] ↦ [] | t ∷ ts ↦ if same t [] then [] else t ∷ ts ];
}

module _ (o : OperatorInstaller) where
  unfoldable pub get_target_namespaces : List Text → Result (List Text)
  get_target_namespaces supported =
      if supports supported all_namespaces
      then ok []
      else if supports supported own_namespace
      then ok (o.namespace ∷ [])
      else if supports supported single_namespace
      then ok o.install_mode.target_namespaces
      else if supports supported multi_namespace
      then ok o.install_mode.target_namespaces
      else err (failure "no supported install modes")

  -- The modes that are left by --install-mode. The guard reads the first target of a mode
  -- SingleNamespace, also where there is none.
  unfoldable pub chosen_modes : Result (List Text)
  unfolding is_empty mode_type only
  chosen_modes =
      if is_empty o.install_mode
      then ok o.supported_install_modes
      else let left = only o.install_mode.install_mode_type o.supported_install_modes in
        let chosen : Result (List Text) = elim left [
          | [] ↦ err (failure "operator does not support install mode")
          | m ∷ ms ↦ ok (m ∷ ms)
        ] in
        elim (mode_type o.install_mode.install_mode_type) [
          | single_mode ↦ elim o.install_mode.target_namespaces [
            | [] ↦ err (failure "index out of range")
            | t ∷ ts ↦
                if same t o.namespace then err (failure "use install mode OwnNamespace") else chosen
          ]
          | _ ↦ chosen
        ]

  unfoldable pub is_operator_group_compatible : OperatorGroup → List Text → Option Error
  unfolding is_empty same_set
  is_operator_group_compatible og targets =
      if is_empty o.install_mode
      then none
      else if same_set og.target_namespaces targets
      then none
      else some (failure "existing operatorgroup is not compatible with install mode")

-- `getOperatorGroup`, on the answer of the list.
unfoldable pub get_operator_group : Result (List OperatorGroup) → Result (Option OperatorGroup)
get_operator_group (err e) = err e
get_operator_group (ok []) = ok none
get_operator_group (ok (og ∷ [])) = ok (some og)
get_operator_group (ok (og ∷ og' ∷ ogs)) = err (failure "more than one operator group in namespace")

-- The name of the plan of `InstallPlanRef`; that of an empty reference is empty.
unfoldable pub ref_name : Option PlanRef → Text
ref_name none = []
ref_name (some r) = r.name

-- `ipCheck`, on the answer to `Get`.
unfoldable pub plan_check : Subscription → Result Subscription → Attempt
unfolding ref_name
plan_check before (err e) = stop e
plan_check before (ok s) = elim s.install_plan_ref [
  | none ↦ again
  | some r ↦ if same r.name (ref_name before.install_plan_ref) then again else done
]

module _ (E : Env) (o : OperatorInstaller) where
  -- The end of `ensureOperatorGroup`.
  unfoldable pub use_group : Option OperatorGroup → List Text → List Call × Option Error
  unfolding new_sdk_operator_group is_operator_group_compatible
  use_group (some og) targets = ([], is_operator_group_compatible o og targets)
  use_group none targets =
      let og = new_sdk_operator_group o.namespace targets in
      elim (E.group_created og) [
        | some e ↦ (create_group og ∷ [], some (failure ("create operator group: " <> message e)))
        | none ↦ (create_group og ∷ [], none)
      ]

  unfoldable pub ensure_operator_group : List Call × Option Error
  unfolding get_operator_group chosen_modes get_target_namespaces use_group
  ensure_operator_group = elim (get_operator_group E.groups) [
    | err e ↦ ([], some e)
    | ok found ↦ elim (chosen_modes o) [
      | err e ↦ ([], some e)
      | ok supported ↦ elim (get_target_namespaces o supported) [
        | err e ↦ ([], some e)
        | ok targets ↦ use_group found targets
      ]
    ]
  ]

  -- `newSubscription` with the options of `createSubscription`.
  unfoldable pub new_subscription : Text → Subscription
  unfolding format_operator_name_dns1123
  new_subscription cs = record {
    name = format_operator_name_dns1123 E.is_dns1123_label o.starting_csv ++ codes "-sub";
    namespace = o.namespace;
    package_name = o.package_name;
    channel = o.channel;
    starting_csv = o.starting_csv;
    catalog_source = cs;
    catalog_source_namespace = o.namespace;
    approval = codes "Manual";
    install_plan_ref = none;
  }

  unfoldable pub create_subscription : Text → Outcome Subscription
  unfolding new_subscription
  create_subscription cs =
      let s = new_subscription cs in
      elim (E.sub_created s) [
        | some e ↦ (create_sub s ∷ [], err (wrap "error creating subscription" e))
        | none ↦ (create_sub s ∷ [], ok s)
      ]

  -- `waitForInstallPlan`, with the subscription that was read last.
  unfoldable pub wait_for_install_plan : Subscription → Result Subscription
  unfolding plan_check
  wait_for_install_plan before =
      let c : ℕ → Attempt = λ k. plan_check before (E.sub before k) in
      elim (E.poller.poll c) [
        | some e ↦
            err (failure ("install plan is not available for the subscription: " <> message e))
        | none ↦ E.sub before (E.last_attempt c)
      ]

  -- `approveInstallPlan` on the plan of the reference: one attempt is its calls and its answer.
  unfoldable pub approve_attempt : PlanRef → ℕ → List Call × Option Error
  approve_attempt ref k = elim (E.plan ref k) [
    | err e ↦ ([], some (failure ("error getting install plan: " <> message e)))
    | ok ip ↦
        let approved = record ip { approved = true } in
        (update_plan approved ∷ [], E.plan_updated approved k)
  ]

  unfoldable pub approve_calls : PlanRef → ℕ → List Call
  unfolding approve_attempt
  approve_calls ref zero = (approve_attempt ref 0).0
  approve_calls ref (suc k) = approve_calls ref k ++ (approve_attempt ref (suc k)).0

  unfoldable pub approve_install_plan : PlanRef → List Call × Option Error
  unfolding approve_calls
  approve_install_plan ref =
      let n = E.last_try (λ k. (approve_attempt ref k).1) in
      (approve_calls ref n, (approve_attempt ref n).1)

  unfoldable pub get_installed_csv : Result WaitedCsv
  unfolding do_csv_wait
  get_installed_csv = elim (do_csv_wait E.workloads E.poller E.namespace_text E.csvs E.last_csv) [
    | some e ↦ err (wrap "error waiting for CSV to install" (failure (wait_error_text e)))
    | none ↦ elim E.installed [ err e ↦ err (wrap "error getting installed CSV" e) | ok c ↦ ok c ]
  ]

  -- What InstallOperator and UpgradeOperator end with, for the subscription as it is known. A
  -- subscription with no install plan ends in a nil pointer.
  unfoldable pub approve_and_wait : Subscription → Outcome WaitedCsv
  unfolding approve_install_plan get_installed_csv
  approve_and_wait s = elim s.install_plan_ref [
    | none ↦ ([], err (failure "invalid memory address or nil pointer dereference"))
    | some ref ↦
        let (calls, answer) = approve_install_plan ref in
        elim answer [ some e ↦ (calls, err e) | none ↦ (calls, get_installed_csv) ]
  ]

  unfoldable pub finish : Subscription → Outcome WaitedCsv
  unfolding wait_for_install_plan approve_and_wait
  finish before = elim (wait_for_install_plan before) [
    | err e ↦ ([], err e)
    | ok s ↦ approve_and_wait s
  ]

  -- From the subscription on.
  unfoldable pub subscribe : Text → Outcome WaitedCsv
  unfolding create_subscription finish
  subscribe cs =
      let (calls, answer) = create_subscription cs in
      elim answer [
        | err e ↦ (calls, err e)
        | ok s ↦ let (more, csv) = finish s in (calls ++ more, csv)
      ]

  unfoldable pub install_operator : Outcome WaitedCsv
  unfolding ensure_operator_group subscribe
  install_operator =
      let first = create_catalog o.catalog_source_name in
      elim (E.catalog_created o.catalog_source_name) [
        | err e ↦ (first ∷ [], err (failure ("create catalog: " <> message e)))
        | ok cs ↦
            let (calls, answer) = ensure_operator_group in
            elim answer [
              | some e ↦ (first ∷ calls, err e)
              | none ↦ let (more, csv) = subscribe cs in (first ∷ (calls ++ more), csv)
            ]
      ]

  -- The first subscription of the package.
  unfoldable pub find_subscription : List Subscription → Option Subscription
  find_subscription [] = none
  find_subscription (s ∷ ss) =
      let rest = find_subscription ss in if same o.package_name s.package_name then some s else rest

  -- `UpgradeOperator`, from the subscription on; the catalog source that is read gives its name.
  unfoldable pub upgrade_subscription : Subscription → Outcome WaitedCsv
  unfolding finish
  upgrade_subscription s = elim (E.catalog s.catalog_source_namespace s.catalog_source) [
    | err e ↦ ([], err (wrap "error getting catalog source matching the existing subscription" e))
    | ok cs ↦
        let first = update_catalog cs s in
        elim (E.catalog_updated cs s) [
          | some e ↦ (first ∷ [], err (failure ("update catalog error: " <> message e)))
          | none ↦ let (more, csv) = finish s in (first ∷ more, csv)
        ]
  ]

  unfoldable pub upgrade_operator : Outcome WaitedCsv
  unfolding find_subscription upgrade_subscription
  upgrade_operator = elim E.subscriptions [
    | err e ↦ ([], err (failure ("error getting list of subscriptions: " <> message e)))
    | ok [] ↦ ([], err (failure "no existing operator found in the cluster to upgrade"))
    | ok (s ∷ ss) ↦ elim (find_subscription (s ∷ ss)) [
      | none ↦ ([], err (failure "subscription for package not found"))
      | some found ↦ upgrade_subscription found
    ]
  ]
