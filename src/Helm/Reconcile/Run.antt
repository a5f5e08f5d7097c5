-- ===== src/Helm/Reconcile/Run.antt =====
-- reconcile.go: `Reconcile` as a whole.
pub mod Once
pub mod Success
pub mod Failure
pub mod Steady
use operator_sdk.Base.{Bool, true, false, Option, none, some, if◌then◌else◌}
use operator_sdk.Errors.{Error, message, is_not_found, ok, err}
use operator_sdk.Helm.Status.{
  HelmAppStatus, condition, condition_initialized, condition_irreconcilable, status_true,
  set_condition, remove_condition, status_for,
}
use operator_sdk.Helm.Release.{Manager}
use operator_sdk.Helm.Reconcile.Annotations.{
  CustomResource, Duration, pos, uninstall_finalizer, determine_reconcile_period,
}
use operator_sdk.Helm.Reconcile.Env.{Env, Outcome, return, fail, after, sync, update}
use operator_sdk.Helm.Reconcile.Deletion.{has_finalizer, reconcile_deletion}
use operator_sdk.Helm.Reconcile.Passes.{install_pass, upgrade_pass, reconcile_pass, report_failure}

module _ {Raw : Type 0} (E : Env Raw) where
  -- From `manager.IsUpgradeRequired()` to the end.
  unfoldable pub installed_passes :
      Manager → CustomResource Raw → HelmAppStatus → HelmAppStatus → Duration → Outcome Raw
  installed_passes m o original s period =
      if m.is_upgrade_required
      then upgrade_pass E m o s period
      else reconcile_pass E m original s period

  -- The release exists: the finalizer is added if it is missing.
  unfoldable pub ensure_finalizer :
      Manager → CustomResource Raw → HelmAppStatus → HelmAppStatus → Duration → Outcome Raw
  unfolding installed_passes
  ensure_finalizer m o original s period =
      if has_finalizer E o
      then installed_passes m o original s period
      else let o' = E.add_finalizer o uninstall_finalizer in
        after (update o')
          (elim (E.update o') [ some e ↦ fail e | none ↦ installed_passes m o' original s period ])

  -- From the setting of the condition `Initialized` on.
  unfoldable pub reconcile_present :
      Manager → CustomResource Raw → HelmAppStatus → Duration → Outcome Raw
  unfolding ensure_finalizer
  reconcile_present m o original period =
      let s =
        set_condition (E.now 0) (condition condition_initialized status_true "" "") original in
      after sync (elim m.sync [
        | some e ↦ report_failure E condition_irreconcilable "ReconcileError" e s
        | none ↦
            let s' = remove_condition condition_irreconcilable s in
            if m.is_installed
            then ensure_finalizer m o original s' period
            else install_pass E m o s' period
      ])

  -- From the reading of the status to the end.
  unfoldable pub reconcile_with : Manager → CustomResource Raw → Outcome Raw
  unfolding reconcile_present reconcile_deletion
  reconcile_with m o =
      elim (determine_reconcile_period E.parse_duration E.reconcile_period o.annotations) [
        | err e ↦ fail e
        | ok period ↦
            let s = status_for E.convert o.status in
            elim o.deletion_timestamp [
              | some t ↦ reconcile_deletion E m o s period
              | none ↦ reconcile_present m o s period
            ]
      ]

  -- `Reconcile`
  unfoldable pub reconcile : Outcome Raw
  unfolding reconcile_with
  reconcile = elim E.get [
    | err e ↦ if is_not_found e then return (pos 0) none else fail e
    | ok o ↦ elim (E.new_manager o) [ err e ↦ fail e | ok m ↦ reconcile_with m o ]
  ]
