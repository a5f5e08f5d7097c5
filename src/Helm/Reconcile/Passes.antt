-- ===== src/Helm/Reconcile/Passes.antt =====
-- reconcile.go: the passes of `Reconcile` for a resource that stays: install, upgrade, and
-- reconciliation of an unchanged release.
use operator_sdk.Base.{ℕ, String, true, none, some, List, [], ◌∷◌, nat_beq, if◌then◌else◌}
use operator_sdk.Errors.{Error, message, is_upgrade_failed, ok, err}
use operator_sdk.Helm.Status.{
  HelmAppStatus, condition, condition_deployed, condition_release_failed, condition_irreconcilable,
  status_true, set_condition, remove_condition, status_eq,
}
use operator_sdk.Helm.Release.{Release, Manager}
use operator_sdk.Helm.Reconcile.Annotations.{
  CustomResource, Duration, uninstall_finalizer, helm_upgrade_force_annotation,
  helm_rollback_force_annotation, has_annotation, read_bool_annotation_with_default,
}
use operator_sdk.Helm.Reconcile.Env.{
  Env, Call, Outcome, return, fail, after, after_all, event, install, upgrade, roll_back,
  reconcile_release, run_hook, update, update_status,
}

-- `Info.Notes` if there is an `Info`.
unfoldable pub notes : Release → String
notes rel = elim rel.info [ none ↦ "" | some i ↦ i.notes ]

-- The two settings of a deployed release: its condition and `status.DeployedRelease`.
unfoldable pub deployed : ℕ → String → Release → HelmAppStatus → HelmAppStatus
unfolding notes
deployed now reason rel s =
    record (set_condition now (condition condition_deployed status_true reason (notes rel)) s) {
      deployed_release = some (record { name = rel.name; manifest = rel.manifest });
    }

module _ {Raw : Type 0} (E : Env Raw) where
  -- The events for overridden chart values, with the values masked if so configured.
  unfoldable pub events_for : List (String × String) → List (Call Raw)
  events_for [] = []
  events_for ((k, v) ∷ vs) =
      event k (if E.suppress_override_values then "****" else v) ∷ events_for vs

  unfoldable pub override_events : List (Call Raw)
  unfolding events_for
  override_events = events_for E.override_values

  -- `if r.releaseHook != nil { … }`
  unfoldable pub with_hook : Release → Outcome Raw → Outcome Raw
  with_hook rel rest = elim E.release_hook [
    | none ↦ rest
    | some hook ↦ after (run_hook rel) (elim (hook rel) [ some e ↦ fail e | none ↦ rest ])
  ]

  -- A failure of the release: it is reported in the status, and returned whether or not the
  -- status could be written.
  unfoldable pub report_failure : String → String → Error → HelmAppStatus → Outcome Raw
  report_failure type reason e s =
      after
        (update_status (set_condition (E.now 1) (condition type status_true reason (message e)) s))
        (fail e)

  -- The end of an install or an upgrade.
  unfoldable pub report_deployed : String → Release → HelmAppStatus → Duration → Outcome Raw
  unfolding deployed
  report_deployed reason rel s period =
      let s' = deployed (E.now 1) reason rel s in
      after (update_status s') (return period (E.update_status s'))

  -- From `manager.InstallRelease()` to the end of the block.
  unfoldable pub run_install : Manager → CustomResource Raw → HelmAppStatus → Duration → Outcome Raw
  unfolding with_hook report_failure report_deployed
  run_install m o s period = after install (elim m.install_release [
    | err e ↦ report_failure condition_release_failed "InstallError" e s
    | ok rel ↦
        let o' = E.add_finalizer o uninstall_finalizer in
        after (update o') (elim (E.update o') [
          | some e ↦ fail e
          | none ↦ with_hook rel (
              report_deployed "InstallSuccessful" rel (remove_condition condition_release_failed s)
                period)
        ])
  ])

  -- `if !manager.IsInstalled() { … }`
  unfoldable pub install_pass :
      Manager → CustomResource Raw → HelmAppStatus → Duration → Outcome Raw
  install_pass m o s period = after_all override_events (run_install m o s period)

  -- The calls after a failed upgrade: a rollback if the release was recorded.
  unfoldable pub roll_back_calls : CustomResource Raw → Error → List (Call Raw)
  roll_back_calls o e =
      if is_upgrade_failed e
      then roll_back
          (read_bool_annotation_with_default o.annotations helm_rollback_force_annotation true)
        ∷ []
      else []

  -- From `manager.UpgradeRelease(…)` to the end of the block.
  unfoldable pub run_upgrade : Manager → CustomResource Raw → HelmAppStatus → Duration → Outcome Raw
  unfolding with_hook report_failure report_deployed roll_back_calls
  run_upgrade m o s period =
      let force = has_annotation helm_upgrade_force_annotation o.annotations in
      after (upgrade force) (elim (m.upgrade_release force) [
        | err e ↦
            after_all (roll_back_calls o e)
              (report_failure condition_release_failed "UpgradeError" e s)
        | ok rel ↦ with_hook rel (
            report_deployed "UpgradeSuccessful" rel (remove_condition condition_release_failed s)
              period)
      ])

  -- `if manager.IsUpgradeRequired() { … }`
  unfoldable pub upgrade_pass :
      Manager → CustomResource Raw → HelmAppStatus → Duration → Outcome Raw
  upgrade_pass m o s period = after_all override_events (run_upgrade m o s period)

  -- The last part of `Reconcile`; the status is written only if it differs from `original`.
  unfoldable pub reconcile_pass : Manager → HelmAppStatus → HelmAppStatus → Duration → Outcome Raw
  unfolding with_hook report_failure deployed
  reconcile_pass m original s period =
      let s' = remove_condition condition_release_failed s in
      after reconcile_release (elim m.reconcile_release [
        | err e ↦ report_failure condition_irreconcilable "ReconcileError" e s'
        | ok rel ↦
            let final =
              deployed (E.now 1)
                (if nat_beq rel.version 1 then "InstallSuccessful" else "UpgradeSuccessful") rel
                (remove_condition condition_irreconcilable s') in
            with_hook rel (
              if status_eq final original
              then return period none
              else after (update_status final) (return period (E.update_status final)))
      ])
