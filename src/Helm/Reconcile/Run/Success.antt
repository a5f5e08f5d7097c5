-- ===== src/Helm/Reconcile/Run/Success.antt =====
-- reconcile.go: a reconciliation of a resource that stays, and that ends with no error.
use operator_sdk.Base.{Bool, true, false, ◌||◌, none, List, [], ◌∷◌, ◌++◌, ◌≡◌, arith, any}
use operator_sdk.Helm.Status.{HelmAppStatus}
use operator_sdk.Helm.Release.{Manager}
use operator_sdk.Helm.Reconcile.Annotations.{CustomResource, Duration, uninstall_finalizer}
use operator_sdk.Helm.Reconcile.Env.{Env, IsControllerutil, Call, Outcome, update}
use operator_sdk.Helm.Reconcile.Deletion.{has_finalizer}
use operator_sdk.Helm.Reconcile.Passes.{
  override_events, run_install, run_upgrade, install_pass, upgrade_pass, reconcile_pass,
  report_failure,
}
use operator_sdk.Helm.Reconcile.Run.{installed_passes, reconcile_present}

module _ {Raw : Type 0} (E : Env Raw) where
  -- The call writes the resource with a finalizer.
  abbrev pub protects : Call Raw → Bool
  protects (update o) = has_finalizer E o
  protects _ = false

  -- The outcome has an error, or the period as its result and the resource protected.
  abbrev Succeeds : CustomResource Raw → Duration → Outcome Raw → Type 0
  Succeeds o period r =
      r.error ≡ none
      → (r.requeue_after ≡ period) × ((has_finalizer E o || any protects r.calls) ≡ true)

  any-append_right :
      (cs ds : List (Call Raw)) → any protects ds ≡ true → any protects (cs ++ ds) ≡ true
  any-append_right [] ds h = h
  any-append_right (c ∷ cs) ds h = ground (arith, any-append_right cs ds h)

  module _ (L : IsControllerutil E) (m : Manager) (o : CustomResource Raw) (period : Duration) where
    run_install-Succeeds :
        (s : HelmAppStatus)
        → (run_install E m o s period).error ≡ none
        → ((run_install E m o s period).requeue_after ≡ period)
          × (any protects (run_install E m o s period).calls ≡ true)
    unfolding run_install
    run_install-Succeeds s =
        ground (arith, L.contains-add o uninstall_finalizer uninstall_finalizer)

    install_pass-Succeeds : (s : HelmAppStatus) → Succeeds o period (install_pass E m o s period)
    unfolding install_pass
    install_pass-Succeeds s h = ground (
      arith,
      run_install-Succeeds s h,
      any-append_right (override_events E) (run_install E m o s period).calls,
    )

  module _ (m : Manager) (o : CustomResource Raw) (period : Duration) where
    run_upgrade-period :
        (s : HelmAppStatus)
        → (run_upgrade E m o s period).error ≡ none
        → (run_upgrade E m o s period).requeue_after ≡ period
    unfolding run_upgrade
    run_upgrade-period s = ground arith

    installed_passes-period :
        (original s : HelmAppStatus)
        → (installed_passes E m o original s period).error ≡ none
        → (installed_passes E m o original s period).requeue_after ≡ period
    unfolding installed_passes upgrade_pass reconcile_pass
    installed_passes-period original s = ground (arith, run_upgrade-period s)

  -- Where the finalizer functions behave as documented: a reconciliation of a resource that is not
  -- being deleted and that ends without an error asks to be run again after the period that was
  -- determined, and leaves the resource with a finalizer: it had one, or it was written with one.
  pub present_success :
      (m : Manager) (o : CustomResource Raw) (s : HelmAppStatus) (period : Duration)
      → IsControllerutil E
      → (reconcile_present E m o s period).error ≡ none
      → ((reconcile_present E m o s period).requeue_after ≡ period)
        × ((has_finalizer E o || any protects (reconcile_present E m o s period).calls) ≡ true)
  unfolding reconcile_present report_failure
  present_success m o s period L = grind (
    arith,
    install_pass-Succeeds L m o period,
    installed_passes-period m,
    L.contains-add o uninstall_finalizer uninstall_finalizer,
  )
