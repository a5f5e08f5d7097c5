-- ===== src/Olm/Tests/Installer.antt =====
-- The theorems on the installation of an operator at a cluster that does what it is asked.
use operator_sdk.Base.{true, false, Option, none, some, List, [], ◌∷◌, ◌++◌, ◌≡◌, refl}
use operator_sdk.Base.Text.{codes}
use operator_sdk.Base.Split.{Text}
use operator_sdk.Errors.{Error, Result, ok}
use operator_sdk.Olm.Client.Wait.{csv_phase_succeeded}
use operator_sdk.Olm.InstallMode.{single_namespace, own_namespace, mode_type}
use operator_sdk.Olm.Registry.Installer.{
  PlanRef, Subscription, Call, create_catalog, update_catalog, create_group, create_sub,
  OperatorInstaller, Env, supports, is_empty, ensure_operator_group, new_subscription,
  install_operator, sdk_operator_group_name, upgrade_operator,
}
use operator_sdk.Olm.Registry.Installer.Groups.{meant, HasGroup, ensure_operator_group-HasGroup}
use operator_sdk.Olm.Registry.Installer.Steps.{IsPolled, IsFinished}
use operator_sdk.Olm.Registry.Installer.Success.{
  IsFirst, IsNew, install_operator-IsFinished, upgrade_operator-IsFinished,
}
use operator_sdk.Olm.Registry.Installer.Order.{in_order, install_operator-in_order}
use operator_sdk.Olm.Client.Once.{once, once-IsPoller, once_done}
use operator_sdk.Olm.Tests.Client.{waited, workloads}

abbrev plan_ref : PlanRef
plan_ref = record { name = codes "install-2"; namespace = codes "ns" }

abbrev old_subscription : Subscription
old_subscription = record {
  name = codes "etcd-sub";
  namespace = codes "ns";
  package_name = codes "etcd";
  channel = codes "alpha";
  starting_csv = codes "etcd.v1";
  catalog_source = codes "etcd-catalog";
  catalog_source_namespace = codes "ns";
  approval = codes "Manual";
  install_plan_ref = some (record { name = codes "install-1"; namespace = codes "ns" });
}

abbrev installer : OperatorInstaller
installer = record {
  catalog_source_name = codes "etcd-catalog";
  package_name = codes "etcd";
  starting_csv = codes "etcd.v2";
  channel = codes "alpha";
  install_mode = record { install_mode_type = own_namespace; target_namespaces = [] };
  supported_install_modes = own_namespace ∷ single_namespace ∷ [];
  namespace = codes "ns";
}

abbrev env : Env
env = record {
  is_dns1123_label = λ t. [];
  catalog_created = λ n. ok n;
  catalog_updated = λ n s. none;
  catalog = λ ns n. ok n;
  groups = ok [];
  group_created = λ g. none;
  subscriptions = ok (old_subscription ∷ []);
  sub_created = λ s. none;
  sub = λ s k. ok (record s { install_plan_ref = some plan_ref });
  plan = λ r k. ok (record { name = r.name; namespace = r.namespace; approved = false });
  plan_updated = λ p k. none;
  last_try = λ c. 0;
  poller = once;
  last_attempt = λ c. 0;
  workloads = workloads;
  csvs = λ k. ok (waited "Succeeded");
  last_csv = waited "Succeeded";
  installed = ok (waited "Succeeded");
  namespace_text = "ns";
}

env-IsPolled : IsPolled env
env-IsPolled = record { poller = once-IsPoller; ends = λ c h. once_done (c 0) h }

ensured : (ensure_operator_group env installer).1 ≡ none
unfolding ensure_operator_group
ensured = refl

given : is_empty installer.install_mode ≡ false
unfolding is_empty
given = refl

ensure_operator_group-HasGroup_example :
    (supports installer.supported_install_modes own_namespace ≡ true)
    × HasGroup env installer (meant (mode_type own_namespace) [] (codes "ns"))
ensure_operator_group-HasGroup_example = ensure_operator_group-HasGroup env installer ensured given

-- No install mode, and an operator that supports SingleNamespace alone.
abbrev without_mode : OperatorInstaller
without_mode = record installer {
  install_mode = record { install_mode_type = []; target_namespaces = [] };
  supported_install_modes = single_namespace ∷ [];
}

-- The operator group of such an installation is for all namespaces.
global_group :
    (ensure_operator_group env without_mode).0
    ≡ create_group
        (record { name = sdk_operator_group_name; namespace = codes "ns"; target_namespaces = [] })
      ∷ []
unfolding ensure_operator_group is_empty
global_group = refl

installs : (install_operator env installer).1 ≡ ok (waited "Succeeded")
unfolding install_operator csv_phase_succeeded
installs = refl

install_operator-IsFinished_example :
    (cs : Text) × (s : Subscription) × (calls : List Call) × (◌≡◌ {A = Result Text}
      (ok (codes "etcd-catalog"))
      (ok cs))
    × ((ensure_operator_group env installer).1 ≡ none)
    × (s ≡ new_subscription env installer cs)
    × IsNew env env-IsPolled installer cs s
    × (◌≡◌ {A = Option Error} none none)
    × ((install_operator env installer).0
        ≡ create_catalog (codes "etcd-catalog")
          ∷ ((ensure_operator_group env installer).0 ++ (create_sub s ∷ calls)))
    × IsFinished env env-IsPolled installer s calls (waited "Succeeded")
install_operator-IsFinished_example =
    install_operator-IsFinished env env-IsPolled installer (waited "Succeeded") installs

upgrades : (upgrade_operator env installer).1 ≡ ok (waited "Succeeded")
unfolding upgrade_operator csv_phase_succeeded
upgrades = refl

upgrade_operator-IsFinished_example :
    (ss : List Subscription) × (s : Subscription) × (cs : Text) × (calls : List Call) × (◌≡◌
      {A = Result (List Subscription)}
      (ok (old_subscription ∷ []))
      (ok ss))
    × IsFirst env env-IsPolled installer ss s
    × (env.catalog s.catalog_source_namespace s.catalog_source ≡ ok cs)
    × (◌≡◌ {A = Option Error} none none)
    × ((upgrade_operator env installer).0 ≡ update_catalog cs s ∷ calls)
    × IsFinished env env-IsPolled installer s calls (waited "Succeeded")
upgrade_operator-IsFinished_example =
    upgrade_operator-IsFinished env env-IsPolled installer (waited "Succeeded") upgrades

install_operator-in_order_example : in_order 0 (install_operator env installer).0 ≡ true
install_operator-in_order_example = install_operator-in_order env installer
