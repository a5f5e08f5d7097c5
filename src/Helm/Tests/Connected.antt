-- ===== src/Helm/Tests/Connected.antt =====
-- The reconciler over a manager, at one concrete backend.
use operator_sdk.Base.{
  String, Bool, true, false, none, some, List, [], ◌∷◌, ◌≡◌, refl, all, is_some, if◌then◌else◌, any,
  ◌==◌, ==_self, arith,
}
use operator_sdk.Errors.{ok, err, failure, api_not_found, is_not_found, is_upgrade_failed}
use operator_sdk.Helm.Status.{
  empty_status, set_condition, set_in, remove_condition, remove_in, status_eq,
}
use operator_sdk.Helm.Release.{Release}
use operator_sdk.Helm.Manager.Sync.{
  sync, load_history, delete_stale, delete_if_stale, is_stale, fatal, load_deployed,
  get_deployed_release,
}
use operator_sdk.Helm.Manager.Patch.{reconcile_release, reconcile_resource, create_missing}
use operator_sdk.Helm.Manager.Patch.Laws.{IsApiServer}
use operator_sdk.Helm.Connected.{Backend, manager_of, synced, state_after_sync, reconcile_deployed}
use operator_sdk.Helm.Connected.Laws.{
  is_roll_back, upgrade_result, rolls_back_recorded, reconciled_resources,
}
use operator_sdk.Helm.Reconcile.Annotations.{pos, has_annotation, helm_upgrade_force_annotation}
use operator_sdk.Helm.Reconcile.Passes.{reconcile_pass}
use operator_sdk.Helm.Reconcile.Run.{reconcile_present}
use operator_sdk.Helm.Reconcile.Run.Once.{count}
use operator_sdk.Helm.Tests.World.{nginx, resource, world}

abbrev newer : Release
newer = record nginx { manifest = "kind: Service" }

-- The state is the list of the resources in the cluster; `candidate` is the release of a dry run,
-- and the upgrade fails after it has recorded its release.
abbrev backend : Release → Backend (List String) String String String
backend candidate = record {
  storage = record {
    history = λ name s. ok (nginx ∷ []);
    delete = λ name v s. (none, s);
    deployed = λ name s. ok nginx;
    candidate = λ name s. ok candidate;
  };
  actions = record {
    run_install = λ s. (some nginx, none, s);
    run_upgrade = λ force s. (some candidate, some (failure "timed out"), s);
    run_rollback = λ force s. (none, s);
    run_uninstall = λ s. (some nginx, none, s);
  };
  patching = record {
    marshal = λ o. ok o;
    expected_object = λ i. i;
    is_unstructured = λ i. false;
    is_crd = λ i. false;
    create_json_patch = λ e x. ok [];
    marshal_operations = λ ops. ok "[]";
    patch_meta = λ i. none;
    three_way_patch = λ a b c. ok "{}";
  };
  helper = record {
    get = λ i s. if any (λ x. x == i) s then ok i else err (api_not_found i);
    create = λ i s. (none, i ∷ s);
    patch = λ i t p s. (none, s);
  };
  build = λ manifest. ok (manifest ∷ []);
  cluster = λ s. record {
    api_versions = none;
    sort_manifests = λ m. ok [];
    build = λ text. ok [];
    get = λ r. none;
    delete_all = λ rs. [];
  };
}

backend-IsApiServer : IsApiServer (backend nginx).patching (backend nginx).helper
backend-IsApiServer = record {
  has = λ i s. any (λ x. x == i) s;
  get_has = λ i s x h. ground (arith, h);
  create_has = λ i s h. ground (arith, ==_self i);
  create_keeps = λ i j s h. ground (arith, h);
  patch_keeps = λ i j t p s h. h;
}

abbrev force : Bool
force = has_annotation helm_upgrade_force_annotation resource.annotations

upgrade_syncs : (manager_of (backend newer) "nginx" force []).sync ≡ none
unfolding manager_of sync load_history delete_stale delete_if_stale is_stale fatal load_deployed
    get_deployed_release
upgrade_syncs = refl

upgrade_installed : (manager_of (backend newer) "nginx" force []).is_installed ≡ true
unfolding manager_of sync load_history delete_stale delete_if_stale is_stale fatal load_deployed
    get_deployed_release
upgrade_installed = refl

upgrade_required : (manager_of (backend newer) "nginx" force []).is_upgrade_required ≡ true
unfolding manager_of sync load_history delete_stale delete_if_stale is_stale fatal load_deployed
    get_deployed_release
upgrade_required = refl

failure-no_rollback : is_upgrade_failed (failure "timed out") ≡ false
unfolding is_upgrade_failed
failure-no_rollback = refl

rolls_back_recorded_example :
    count is_roll_back
      (reconcile_present world
        (manager_of (backend newer) "nginx" force [])
        resource
        empty_status
        (pos 60)).calls
    ≡ (if is_some (upgrade_result (backend newer) "nginx" force []).0 then 1 else 0)
rolls_back_recorded_example =
    rolls_back_recorded (backend newer) world resource (pos 60) empty_status "nginx" []
      (failure "timed out") upgrade_syncs upgrade_installed refl upgrade_required refl
      failure-no_rollback

steady_installed : (manager_of (backend nginx) "nginx" false []).is_installed ≡ true
unfolding manager_of sync load_history delete_stale delete_if_stale is_stale fatal load_deployed
    get_deployed_release
steady_installed = refl

steady_required : (manager_of (backend nginx) "nginx" false []).is_upgrade_required ≡ false
unfolding manager_of sync load_history delete_stale delete_if_stale is_stale fatal load_deployed
    get_deployed_release
steady_required = refl

steady_deployed : (synced (backend nginx) "nginx" []).deployed_release ≡ some nginx
unfolding sync load_history delete_stale delete_if_stale is_stale fatal load_deployed
    get_deployed_release
steady_deployed = refl

steady_ends :
    (reconcile_present world
      (manager_of (backend nginx) "nginx" false [])
      resource
      empty_status
      (pos 60)).error
    ≡ none
unfolding reconcile_present reconcile_pass manager_of sync load_history delete_stale fatal
    delete_if_stale is_stale load_deployed get_deployed_release reconcile_deployed reconcile_release
    reconcile_resource is_not_found create_missing status_eq set_condition set_in remove_condition
    remove_in
steady_ends = refl

reconciled_resources_example :
    all
      (λ i.
        backend-IsApiServer.has i
          (reconcile_release
            (backend nginx).patching
            (backend nginx).helper
            (ok ("kind: Pod" ∷ []))
            (state_after_sync (backend nginx) "nginx" [])).1)
      ("kind: Pod" ∷ [])
    ≡ true
reconciled_resources_example =
    reconciled_resources (backend nginx) world resource (pos 60) empty_status "nginx" false [] nginx
      ("kind: Pod" ∷ []) backend-IsApiServer steady_installed steady_required steady_deployed refl
      steady_ends
