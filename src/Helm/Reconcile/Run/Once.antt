-- ===== src/Helm/Reconcile/Run/Once.antt =====
-- reconcile.go: the calls that change the release, counted.
use operator_sdk.Base.{
  ℕ, suc, ◌≤◌, String, Bool, true, false, List, [], ◌∷◌, ◌++◌, ◌≡◌, refl, if◌then◌else◌, arith,
}
use operator_sdk.Helm.Status.{HelmAppStatus}
use operator_sdk.Helm.Release.{Manager}
use operator_sdk.Helm.Reconcile.Annotations.{CustomResource, Duration}
use operator_sdk.Helm.Reconcile.Env.{
  Env, Call, Outcome, event, install, upgrade, reconcile_release, uninstall, cleanup,
}
use operator_sdk.Helm.Reconcile.Deletion.{reconcile_deletion}
use operator_sdk.Helm.Reconcile.Passes.{
  events_for, override_events, run_install, run_upgrade, install_pass, upgrade_pass, reconcile_pass,
  report_failure,
}
use operator_sdk.Helm.Reconcile.Run.{
  installed_passes, ensure_finalizer, reconcile_present, reconcile,
}

module _ {Raw : Type 0} where
  -- A call that changes the release: installing, upgrading, reconciling or uninstalling it.
  abbrev pub is_release_operation : Call Raw → Bool
  is_release_operation install = true
  is_release_operation (upgrade _) = true
  is_release_operation reconcile_release = true
  is_release_operation uninstall = true
  is_release_operation _ = false

  abbrev pub is_uninstall : Call Raw → Bool
  is_uninstall uninstall = true
  is_uninstall (cleanup _) = true
  is_uninstall _ = false

  -- How many calls pass the test.
  abbrev pub count : (Call Raw → Bool) → List (Call Raw) → ℕ
  count p [] = 0
  count p (c ∷ cs) = let rest = count p cs in if p c then suc rest else rest

  abbrev pub is_event : Call Raw → Bool
  is_event (event _ _) = true
  is_event _ = false

module _ {Raw : Type 0} (E : Env Raw) where
  count-events_for :
      (p : Call Raw → Bool) (vs : List (String × String)) (rest : List (Call Raw))
      → ((k v : String) → p (event k v) ≡ false)
      → count p (events_for E vs ++ rest) ≡ count p rest
  unfolding events_for
  count-events_for p [] rest h = refl
  count-events_for p ((k, v) ∷ vs) rest h =
      ground (arith, h k v, h k "****", count-events_for p vs rest h)

  -- The events for overridden values do not count as calls of another kind.
  pub count-override_events :
      (p : Call Raw → Bool) (rest : List (Call Raw))
      → ((k v : String) → p (event k v) ≡ false)
      → count p (override_events E ++ rest) ≡ count p rest
  unfolding override_events
  count-override_events p rest h = count-events_for p E.override_values rest h

  abbrev AtMostOne : Outcome Raw → Type 0
  AtMostOne r = count is_release_operation r.calls ≤ 1

  module _ (m : Manager) (o : CustomResource Raw) (s : HelmAppStatus) (period : Duration) where
    run_install_once : AtMostOne (run_install E m o s period)
    unfolding run_install
    run_install_once = ground arith

    run_upgrade_once : AtMostOne (run_upgrade E m o s period)
    unfolding run_upgrade
    run_upgrade_once = ground arith

    reconcile_pass_once :
        (original : HelmAppStatus) → AtMostOne (reconcile_pass E m original s period)
    unfolding reconcile_pass
    reconcile_pass_once original = ground arith

    deletion_once : AtMostOne (reconcile_deletion E m o s period)
    unfolding reconcile_deletion
    deletion_once = ground arith

    install_pass_once : AtMostOne (install_pass E m o s period)
    unfolding install_pass
    install_pass_once = omega (
      arith,
      run_install_once,
      count-override_events is_release_operation (run_install E m o s period).calls (λ k v. refl),
    )

    upgrade_pass_once : AtMostOne (upgrade_pass E m o s period)
    unfolding upgrade_pass
    upgrade_pass_once = omega (
      arith,
      run_upgrade_once,
      count-override_events is_release_operation (run_upgrade E m o s period).calls (λ k v. refl),
    )

  installed_passes_once :
      (m : Manager) (o : CustomResource Raw) (original s : HelmAppStatus) (period : Duration)
      → AtMostOne (installed_passes E m o original s period)
  unfolding installed_passes
  installed_passes_once m o original s period =
      ground (arith, upgrade_pass_once m o s period, reconcile_pass_once m o s period original)

  ensure_finalizer_once :
      (m : Manager) (o : CustomResource Raw) (original s : HelmAppStatus) (period : Duration)
      → AtMostOne (ensure_finalizer E m o original s period)
  unfolding ensure_finalizer
  ensure_finalizer_once m o original s period = grind (arith, installed_passes_once)

  reconcile_present_once :
      (m : Manager) (o : CustomResource Raw) (s : HelmAppStatus) (period : Duration)
      → AtMostOne (reconcile_present E m o s period)
  unfolding reconcile_present report_failure
  reconcile_present_once m o s period = grind (arith, ensure_finalizer_once, install_pass_once)

  -- A reconciliation makes at most one of the calls that install, upgrade, reconcile or uninstall
  -- the release, whatever the cluster answers.
  pub one_release_operation : count is_release_operation (reconcile E).calls ≤ 1
  unfolding reconcile
  one_release_operation = grind (arith, reconcile_present_once, deletion_once)
