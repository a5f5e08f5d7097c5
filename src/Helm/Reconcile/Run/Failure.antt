-- ===== src/Helm/Reconcile/Run/Failure.antt =====
-- reconcile.go: failures of the release.
use operator_sdk.Base.{
  ℕ, String, true, false, Option, none, some, List, [], ◌∷◌, ◌++◌, ◌≡◌, refl, ==_self, arith,
}
use operator_sdk.Errors.{Error, message, err}
use operator_sdk.Helm.Status.{
  HelmAppStatus, Condition, condition, condition_release_failed, condition_irreconcilable,
  status_true, set_condition,
}
use operator_sdk.Helm.Status.Laws.{find, find-set_condition, stamped}
use operator_sdk.Helm.Release.{Manager}
use operator_sdk.Helm.Reconcile.Annotations.{
  CustomResource, Duration, pos, has_annotation, helm_upgrade_force_annotation,
}
use operator_sdk.Helm.Reconcile.Env.{Env, Call, Outcome, after, update_status}
use operator_sdk.Helm.Reconcile.Deletion.{has_finalizer}
use operator_sdk.Helm.Reconcile.Passes.{
  run_install, run_upgrade, install_pass, upgrade_pass, reconcile_pass, report_failure,
}
use operator_sdk.Helm.Reconcile.Run.{reconcile_present}

abbrev pub last {ℓ} : {A : Type ℓ} → List A → Option A
last [] = none
last (x ∷ []) = some x
last (x ∷ y ∷ xs) = last (y ∷ xs)

last-cons {ℓ} : {A : Type ℓ} (x a : A) (xs : List A) → last xs ≡ some a → last (x ∷ xs) ≡ some a
last-cons x a [] h = cc
last-cons x a (y ∷ xs) h = h

last-append {ℓ} :
    {A : Type ℓ} (a : A) (xs ys : List A) → last ys ≡ some a → last (xs ++ ys) ≡ some a
last-append a [] ys h = h
last-append a (x ∷ xs) ys h = last-cons x a (xs ++ ys) (last-append a xs ys h)

-- The status has the condition with the value `True`, the reason and the text of the error.
abbrev pub Shows : String → String → Error → HelmAppStatus → Type 0
Shows type reason e t =
    (c : Condition) × (find type t ≡ some c)
    × (c.status ≡ status_true)
    × (c.reason ≡ reason)
    × (c.message ≡ message e)

stamped-fields :
    (now : ℕ) (c : Condition) (old : Option Condition)
    → ((stamped now c old).status ≡ c.status)
      × ((stamped now c old).reason ≡ c.reason)
      × ((stamped now c old).message ≡ c.message)
stamped-fields now c none = (refl, refl, refl)
stamped-fields now c (some old) = ground arith

-- A condition that has just been set shows.
set_condition-Shows :
    (now : ℕ) (type reason : String) (e : Error) (s : HelmAppStatus)
    → Shows type reason e (set_condition now (condition type status_true reason (message e)) s)
set_condition-Shows now type reason e s =
    let c : Condition = condition type status_true reason (message e) in
    (
      stamped now c (find type s),
      rw (find-set_condition now c type s, ==_self type),
      (stamped-fields now c (find type s)).0,
      (stamped-fields now c (find type s)).1,
      (stamped-fields now c (find type s)).2,
    )

module _ {Raw : Type 0} where
  -- The error is returned with no result, and the last call writes a status that shows it.
  pub record Reports (type reason : String) (e : Error) (r : Outcome Raw) : Type 0 where
    pub returned : r.error ≡ some e
    pub at_once : r.requeue_after ≡ pos 0
    pub written : HelmAppStatus
    pub last_call : last r.calls ≡ some (update_status written)
    pub shown : Shows type reason e written

  Reports-after :
      (c : Call Raw) {type reason : String} {e : Error} {r : Outcome Raw}
      → Reports type reason e r
      → Reports type reason e (after c r)
  Reports-after c {r} h = record {
    returned = h.returned;
    at_once = h.at_once;
    written = h.written;
    last_call = last-cons c _ r.calls h.last_call;
    shown = h.shown;
  }

  Reports-after_all :
      (cs : List (Call Raw)) {type reason : String} {e : Error} {r : Outcome Raw}
      → Reports type reason e r
      → Reports type reason e (record r { calls = cs ++ r.calls })
  Reports-after_all cs {r} h = record {
    returned = h.returned;
    at_once = h.at_once;
    written = h.written;
    last_call = last-append _ cs r.calls h.last_call;
    shown = h.shown;
  }

module _ {Raw : Type 0} (E : Env Raw) where
  report_failure-Reports :
      (type reason : String) (e : Error) (s : HelmAppStatus)
      → Reports type reason e (report_failure E type reason e s)
  unfolding report_failure
  report_failure-Reports type reason e s = record {
    returned = refl;
    at_once = refl;
    written = set_condition (E.now 1) (condition type status_true reason (message e)) s;
    last_call = refl;
    shown = set_condition-Shows (E.now 1) type reason e s;
  }

  -- The ways in which the release of a resource that stays can fail, with the type and the reason
  -- of the condition that the code gives them.
  pub data FailsWith (m : Manager) (o : CustomResource Raw) (e : Error)
      : String → String → Type 0 where
    sync_fails : m.sync ≡ some e → FailsWith m o e condition_irreconcilable "ReconcileError"
    install_fails :
        m.sync ≡ none
        → m.is_installed ≡ false
        → m.install_release ≡ err e
        → FailsWith m o e condition_release_failed "InstallError"
    upgrade_fails :
        m.sync ≡ none
        → m.is_installed ≡ true
        → has_finalizer E o ≡ true
        → m.is_upgrade_required ≡ true
        → m.upgrade_release (has_annotation helm_upgrade_force_annotation o.annotations) ≡ err e
        → FailsWith m o e condition_release_failed "UpgradeError"
    reconcile_fails :
        m.sync ≡ none
        → m.is_installed ≡ true
        → has_finalizer E o ≡ true
        → m.is_upgrade_required ≡ false
        → m.reconcile_release ≡ err e
        → FailsWith m o e condition_irreconcilable "ReconcileError"

  -- Where the release of a resource that stays fails in one of the ways of `FailsWith` (the
  -- synchronisation fails, or after it the install of a release that is not installed, or, for a
  -- resource with a finalizer, the upgrade that is required or else the reconciliation of the
  -- release), the reconciliation returns that very error at once, also if the status cannot be
  -- written, and its last call writes a status in which the condition of that failure is true,
  -- with the reason and the text of the error.
  pub failure_reported :
      (m : Manager) (o : CustomResource Raw) (s : HelmAppStatus) (period : Duration) (e : Error)
      {type reason : String}
      → FailsWith m o e type reason
      → Reports type reason e (reconcile_present E m o s period)
  unfolding reconcile_present
  failure_reported m o s period e (sync_fails h) =
      rw h (Reports-after _ (report_failure-Reports _ _ e _))
  failure_reported m o s period e (install_fails h i f) =
      unfold install_pass run_install in
      rw (h, i, f)
        (Reports-after _ (Reports-after_all _ (Reports-after _ (report_failure-Reports _ _ e _))))
  failure_reported m o s period e (upgrade_fails h i g u f) =
      unfold upgrade_pass run_upgrade in
      rw (h, i, g, u, f)
        (Reports-after _ (
          Reports-after_all _
            (Reports-after _ (Reports-after_all _ (report_failure-Reports _ _ e _)))))
  failure_reported m o s period e (reconcile_fails h i g u f) =
      unfold reconcile_pass in
      rw (h, i, g, u, f) (Reports-after _ (Reports-after _ (report_failure-Reports _ _ e _)))
