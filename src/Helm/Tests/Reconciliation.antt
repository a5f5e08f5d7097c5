-- ===== src/Helm/Tests/Reconciliation.antt =====
-- The theorems on reconcile.go and types.go at concrete resources.
use operator_sdk.Base.{◌≤◌, true, false, ◌||◌, none, [], ◌∷◌, ◌≡◌, refl, any}
use operator_sdk.Errors.{upgrade_failed}
use operator_sdk.Helm.Status.{
  Condition, condition, condition_deployed, condition_release_failed, status_false, set_condition,
  remove_condition, empty_status,
}
use operator_sdk.Helm.Status.Laws.{HasUniqueTypes}
use operator_sdk.Helm.Release.{Manager}
use operator_sdk.Helm.Reconcile.Annotations.{
  CustomResource, pos, has_annotation, helm_uninstall_wait_annotation,
}
use operator_sdk.Helm.Reconcile.Env.{sync, reconcile_release}
use operator_sdk.Helm.Reconcile.Deletion.{has_finalizer, reconcile_deletion}
use operator_sdk.Helm.Reconcile.Deletion.Laws.{
  writes_resource, IsGone, AreResourcesGone, update_needs_uninstall,
}
use operator_sdk.Helm.Reconcile.Passes.{notes, install_pass, run_install}
use operator_sdk.Helm.Reconcile.Run.{reconcile_present, reconcile}
use operator_sdk.Helm.Reconcile.Run.Once.{count, is_release_operation, one_release_operation}
use operator_sdk.Helm.Reconcile.Run.Success.{protects, present_success}
use operator_sdk.Helm.Reconcile.Run.Failure.{Reports, upgrade_fails, failure_reported}
use operator_sdk.Helm.Reconcile.Run.Steady.{IsSettled, settled_writes_nothing}
use operator_sdk.Helm.Tests.World.{nginx, manager, resource, settled, world, world-IsControllerutil}

deletion_writes :
    writes_resource (reconcile_deletion world manager resource settled (pos 60)) ≡ true
unfolding reconcile_deletion has_annotation set_condition remove_condition
deletion_writes = refl

update_needs_uninstall_example :
    (has_finalizer world resource ≡ true)
    × IsGone manager
    × AreResourcesGone manager settled
        (has_annotation helm_uninstall_wait_annotation resource.annotations)
update_needs_uninstall_example =
    update_needs_uninstall world manager resource settled (pos 60) deletion_writes

one_release_operation_example : count is_release_operation (reconcile world).calls ≤ 1
one_release_operation_example = one_release_operation world

-- A new resource, which is installed.
abbrev installing : Manager
installing = record manager { is_installed = false }

abbrev bare : CustomResource Unit
bare = record resource { finalizers = [] }

present_ends : (reconcile_present world installing bare empty_status (pos 60)).error ≡ none
unfolding reconcile_present install_pass run_install
present_ends = refl

present_success_example :
    ((reconcile_present world installing bare empty_status (pos 60)).requeue_after ≡ pos 60)
    × ((has_finalizer world bare
          || any
              (protects world)
              (reconcile_present world installing bare empty_status (pos 60)).calls)
        ≡ true)
present_success_example =
    present_success world installing bare empty_status (pos 60) world-IsControllerutil present_ends

abbrev upgrading : Manager
upgrading = record manager { is_upgrade_required = true }

failure_reported_example :
    Reports condition_release_failed "UpgradeError" upgrade_failed
      (reconcile_present world upgrading resource settled (pos 60))
failure_reported_example =
    failure_reported world upgrading resource settled (pos 60) upgrade_failed
      (upgrade_fails refl refl refl refl refl)

settled-IsSettled : IsSettled nginx settled
unfolding notes
settled-IsSettled = record {
  initialized = (3, refl);
  deployed_now = (4, refl);
  no_failure = refl;
  reconcilable = refl;
  released = refl;
}

settled_writes_nothing_example :
    reconcile_present world manager resource settled (pos 60)
    ≡ record { calls = sync ∷ reconcile_release ∷ []; requeue_after = pos 60; error = none }
settled_writes_nothing_example =
    settled_writes_nothing world manager resource settled (pos 60) nginx refl refl refl refl refl
      refl settled-IsSettled

abbrev failed : Condition
failed = condition condition_deployed status_false "UninstallSuccessful" ""

settled-HasUniqueTypes : HasUniqueTypes settled
settled-HasUniqueTypes = (refl, (refl, tt))
