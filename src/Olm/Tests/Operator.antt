-- ===== src/Olm/Tests/Operator.antt =====
-- The theorems on install_mode.go and uninstall.go at concrete inputs.
use operator_sdk.Base.{
  any, String, true, false, none, some, List, [], ◌∷◌, ◌≡◌, refl, all, if◌then◌else◌, arith,
}
use operator_sdk.Base.Text.{codes}
use operator_sdk.Base.Split.{Text, is_sorted}
use operator_sdk.Errors.{ok, err, api_not_found, is_not_found}
use operator_sdk.Olm.InstallMode.{InstallMode, single_namespace, mode_type, validate, set, to_text}
use operator_sdk.Olm.InstallMode.Laws.{IsLabelCheck, is_label_char, set-to_text}
use operator_sdk.Olm.Uninstall.{
  and_then, delete_objects, wait_error, delete_operator_group, delete_groups, is_chosen,
  Subscription, Uninstall,
}
use operator_sdk.Olm.Uninstall.Plan.{
  delete_found, owners, check_found, Found, no_csv, catalog_key, find_subscription, find,
  find_csv_of, catalog_name_for_package, run,
}
use operator_sdk.Olm.Uninstall.Laws.{Follows, plan, run-plan}
use operator_sdk.Olm.Uninstall.Missing.{missing_csv_deleted, is_nameless_csv}

-- The check of the characters alone.
abbrev check_characters : Text → List String
check_characters s = if all is_label_char s then [] else "invalid" ∷ []

check_characters-IsLabelCheck : IsLabelCheck check_characters
check_characters-IsLabelCheck s h = ground (arith, h)

abbrev single : InstallMode
single = record { install_mode_type = single_namespace; target_namespaces = codes "team-a" ∷ [] }

single_valid : validate check_characters single ≡ none
unfolding validate mode_type
single_valid = refl

set-to_text_example :
    set check_characters
      (record { install_mode_type = []; target_namespaces = [] })
      (to_text single)
    ≡ (single, none)
unfolding is_sorted
set-to_text_example =
    set-to_text check_characters check_characters-IsLabelCheck single single_valid refl

abbrev etcd : Subscription
etcd = record {
  name = "etcd-sub";
  package_name = "etcd";
  catalog_source_namespace = "";
  catalog_source = "";
  installed_csv = "etcd.v1";
  current_csv = "etcd.v1";
}

-- A cluster with the subscription, but without its CSV.
abbrev uninstall : Uninstall
uninstall = record {
  package_name = "etcd";
  namespace = "default";
  delete_all = true;
  delete_crds = false;
  delete_operator_groups = false;
  delete_operator_group_names = [];
  list_subscriptions = ok (etcd ∷ []);
  list_subscriptions_again = ok [];
  list_operator_groups = ok ("og" ∷ []);
  get_csv = λ k. err (api_not_found k.name);
  get_catalog_source = λ k. none;
  object_kinds = λ o. none;
  delete = λ o. none;
  wait_deleted = λ o. none;
}

abbrev found : Found
found = record {
  sub_obj = some etcd;
  csv_obj = some no_csv;
  catalog_obj = some (record { namespace = ""; name = "" });
  crds = [];
}

uninstall_finds : find uninstall (find_subscription uninstall (etcd ∷ [])) ≡ ok found
unfolding find find_csv_of find_subscription catalog_key is_not_found catalog_name_for_package
uninstall_finds = refl

run-plan_example : Follows (run uninstall) (plan uninstall found)
run-plan_example = run-plan uninstall (etcd ∷ []) found refl uninstall_finds

uninstall_finds_subscription : find_subscription uninstall (etcd ∷ []) ≡ some etcd
unfolding find_subscription
uninstall_finds_subscription = refl

uninstalls : (run uninstall).error ≡ none
unfolding run find_subscription find find_csv_of is_not_found delete_found and_then delete_objects
    owners wait_error delete_operator_group delete_groups is_chosen check_found
uninstalls = refl

missing_csv_deleted_example : any is_nameless_csv (run uninstall).deleted ≡ true
unfolding is_not_found
missing_csv_deleted_example =
    missing_csv_deleted uninstall (etcd ∷ []) etcd (api_not_found "etcd.v1") refl
      uninstall_finds_subscription refl refl refl uninstalls
