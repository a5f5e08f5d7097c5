-- ===== src/Helm/Reconcile/Deletion.antt =====
-- reconcile.go: the branch of `Reconcile` for a resource with a deletion timestamp.
pub mod Laws
use operator_sdk.Base.{
  ℕ, String, Bool, true, false, not, ◌||◌, Option, none, some, ◌==◌, if◌then◌else◌,
}
use operator_sdk.Errors.{Error, message, is_release_not_found, ok, err}
use operator_sdk.Helm.Status.{
  HelmAppStatus, condition, condition_deployed, condition_release_failed, status_true, status_false,
  set_condition, remove_condition,
}
use operator_sdk.Helm.Release.{Manager}
use operator_sdk.Helm.Reconcile.Annotations.{
  CustomResource, Duration, pos, uninstall_finalizer, uninstall_finalizer_legacy,
  helm_uninstall_wait_annotation, has_annotation,
}
use operator_sdk.Helm.Reconcile.Env.{
  Env, Outcome, return, fail, after, update, update_status, uninstall, cleanup, wait_for_deletion,
}

-- How `UninstallRelease` ended, as the code tells the cases apart.
pub data Uninstalled : Type 0 where
  removed : Uninstalled
  not_there : Uninstalled
  failed : Error → Uninstalled

unfoldable pub uninstalled : Option Error → Uninstalled
uninstalled none = removed
uninstalled (some e) = if is_release_not_found e then not_there else failed e

module _ {Raw : Type 0} (E : Env Raw) where
  -- `ContainsFinalizer` of either finalizer.
  abbrev pub has_finalizer : CustomResource Raw → Bool
  has_finalizer o =
      E.contains_finalizer o uninstall_finalizer
      || E.contains_finalizer o uninstall_finalizer_legacy

  abbrev pub without_finalizers : CustomResource Raw → CustomResource Raw
  without_finalizers o =
      E.remove_finalizer (E.remove_finalizer o uninstall_finalizer) uninstall_finalizer_legacy

  -- From "Removing finalizer" to the end of the branch.
  unfoldable pub remove_finalizers : CustomResource Raw → Outcome Raw
  remove_finalizers o =
      let o' = without_finalizers o in
      after (update o') (elim (E.update o') [
        | some e ↦ fail e
        | none ↦ after wait_for_deletion (return (pos 0) E.wait_for_deletion)
      ])

  -- The `if wait && status.DeployedRelease != nil && …` block.
  unfoldable pub wait_for_resources :
      Manager → CustomResource Raw → HelmAppStatus → Bool → Duration → Outcome Raw
  unfolding remove_finalizers
  wait_for_resources m o s wait period = elim s.deployed_release [
    | none ↦ remove_finalizers o
    | some rel ↦
        if wait
        then if rel.manifest == ""
          then remove_finalizers o
          else after (cleanup rel.manifest) (elim (m.cleanup_release rel.manifest) [
            | err e ↦
                after
                  (update_status (
                    set_condition (E.now 2)
                      (condition condition_release_failed status_true "UninstallError" (message e))
                      s))
                  (fail e)
            | ok all_deleted ↦ if all_deleted then remove_finalizers o else return period none
          ])
        else remove_finalizers o
  ]

  -- The status after a successful call of `UninstallRelease`, or one that found no release.
  unfoldable pub uninstalled_status : HelmAppStatus → Bool → Bool → HelmAppStatus
  uninstalled_status s found wait =
      let s' = remove_condition condition_release_failed s in
      if wait
      then set_condition (E.now 1)
          (condition condition_deployed status_false "UninstallSuccessful"
            "Waiting until all resources are deleted.")
          s'
      else if found
      then record (set_condition (E.now 1)
          (condition condition_deployed status_false "UninstallSuccessful" "") s') {
            deployed_release = none;
          }
      else s'

  abbrev report_uninstalled :
      Manager → CustomResource Raw → HelmAppStatus → Bool → Duration → Bool → Outcome Raw
  report_uninstalled m o s wait period found =
      let s' = uninstalled_status s found wait in
      after (update_status s') (elim (E.update_status s') [
        | some e ↦ fail e
        | none ↦ wait_for_resources m o s' wait period
      ])

  -- The whole `if o.GetDeletionTimestamp() != nil` block.
  unfoldable pub reconcile_deletion :
      Manager → CustomResource Raw → HelmAppStatus → Duration → Outcome Raw
  unfolding wait_for_resources uninstalled_status uninstalled
  reconcile_deletion m o s period =
      if has_finalizer o
      then after uninstall (elim (uninstalled m.uninstall_release) [
        | failed e ↦
            after
              (update_status (
                set_condition (E.now 0)
                  (condition condition_release_failed status_true "UninstallError" (message e)) s))
              (fail e)
        | removed ↦
            report_uninstalled m o s (has_annotation helm_uninstall_wait_annotation o.annotations)
              period true
        | not_there ↦
            report_uninstalled m o s (has_annotation helm_uninstall_wait_annotation o.annotations)
              period false
      ])
      else return (pos 0) none
