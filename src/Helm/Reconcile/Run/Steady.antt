-- ===== src/Helm/Reconcile/Run/Steady.antt =====
-- reconcile.go: a reconciliation of a release whose status is up to date.
use operator_sdk.Base.{
  ℕ, String, true, false, Option, none, some, List, [], ◌∷◌, ◌≡◌, ◌∙◌, refl, sym, ap, ==_iff,
  ==_self, nat_beq, if◌then◌else◌, arith,
}
use operator_sdk.Errors.{ok}
use operator_sdk.Helm.Status.{
  HelmAppStatus, DeployedRelease, Condition, condition, condition_initialized, condition_deployed,
  condition_release_failed, condition_irreconcilable, status_true, restamp, set_in, set_condition,
  remove_in, remove_condition, condition_eq, conditions_eq, release_eq, status_eq,
}
use operator_sdk.Helm.Status.Laws.{find, find_in}
use operator_sdk.Helm.Release.{Release, Manager}
use operator_sdk.Helm.Reconcile.Annotations.{CustomResource, Duration}
use operator_sdk.Helm.Reconcile.Env.{Env, sync, reconcile_release}
use operator_sdk.Helm.Reconcile.Deletion.{has_finalizer}
use operator_sdk.Helm.Reconcile.Passes.{notes, deployed, reconcile_pass}
use operator_sdk.Helm.Reconcile.Run.{reconcile_present}

-- The condition is there already, but for its time.
abbrev pub Has : Condition → HelmAppStatus → Type 0
Has c s = (time : ℕ) × (find c.type s ≡ some (record c { last_transition_time = time }))

set_in-Has :
    (now time : ℕ) (c : Condition) (ds : List Condition)
    → find_in c.type ds ≡ some (record c { last_transition_time = time })
    → set_in now c ds ≡ ds
unfolding set_in restamp
set_in-Has now time c [] h = cc
set_in-Has now time c (d ∷ ds) h =
    ground (arith, set_in-Has now time c ds, ==_iff c.status c.status)

-- Setting a condition that is there already changes nothing.
set_condition-Has :
    (now : ℕ) (c : Condition) (s : HelmAppStatus) → Has c s → set_condition now c s ≡ s
unfolding set_condition
set_condition-Has now c s (time, h) =
    ap (λ (l : List Condition). record s { conditions = l }) (set_in-Has now time c s.conditions h)

remove_in-absent : (t : String) (ds : List Condition) → find_in t ds ≡ none → remove_in t ds ≡ ds
unfolding remove_in
remove_in-absent t [] h = refl
remove_in-absent t (d ∷ ds) h = ground (arith, remove_in-absent t ds)

remove_condition-absent :
    (t : String) (s : HelmAppStatus) → find t s ≡ none → remove_condition t s ≡ s
unfolding remove_condition
remove_condition-absent t s h =
    ap (λ (l : List Condition). record s { conditions = l }) (remove_in-absent t s.conditions h)

condition_eq_self : (c : Condition) → condition_eq c c ≡ true
unfolding condition_eq
condition_eq_self c =
    ground (arith, ==_self c.type, ==_self c.status, ==_self c.reason, ==_self c.message)

conditions_eq_self : (cs : List Condition) → conditions_eq cs cs ≡ true
unfolding conditions_eq
conditions_eq_self [] = refl
conditions_eq_self (c ∷ cs) = ground (arith, condition_eq_self c, conditions_eq_self cs)

release_eq_self : (r : Option DeployedRelease) → release_eq r r ≡ true
unfolding release_eq
release_eq_self none = refl
release_eq_self (some r) = ground (arith, ==_self r.name, ==_self r.manifest)

status_eq_self : (s : HelmAppStatus) → status_eq s s ≡ true
unfolding status_eq
status_eq_self s =
    ground (arith, conditions_eq_self s.conditions, release_eq_self s.deployed_release)

-- The reason that the last pass gives for a deployed release.
abbrev pub reason_for : Release → String
reason_for rel = if nat_beq rel.version 1 then "InstallSuccessful" else "UpgradeSuccessful"

-- The status says all that a successful pass over the release would say, and no failure.
pub record IsSettled (rel : Release) (s : HelmAppStatus) : Type 0 where
  pub initialized : Has (condition condition_initialized status_true "" "") s
  pub deployed_now : Has (condition condition_deployed status_true (reason_for rel) (notes rel)) s
  pub no_failure : find condition_release_failed s ≡ none
  pub reconcilable : find condition_irreconcilable s ≡ none
  pub released : s.deployed_release ≡ some (record { name = rel.name; manifest = rel.manifest })

deployed-IsSettled :
    (now : ℕ) (rel : Release) (s : HelmAppStatus)
    → IsSettled rel s
    → deployed now (reason_for rel) rel s ≡ s
unfolding deployed
deployed-IsSettled now rel s h =
    ap
      (λ (t : HelmAppStatus). record t {
        deployed_release = some (record { name = rel.name; manifest = rel.manifest });
      })
      (set_condition-Has now (condition condition_deployed status_true (reason_for rel) (notes rel))
        s h.deployed_now)
    ∙ ap (λ (r : Option DeployedRelease). record s { deployed_release = r }) (sym h.released)

module _ {Raw : Type 0} (E : Env Raw) where
  reconcile_pass-IsSettled :
      (m : Manager) (s : HelmAppStatus) (period : Duration) (rel : Release)
      → m.reconcile_release ≡ ok rel
      → E.release_hook ≡ none
      → IsSettled rel s
      → reconcile_pass E m s s period
        ≡ record { calls = reconcile_release ∷ []; requeue_after = period; error = none }
  unfolding reconcile_pass
  reconcile_pass-IsSettled m s period rel r k h = ground (
    arith,
    remove_condition-absent condition_irreconcilable s h.reconcilable,
    remove_condition-absent condition_release_failed s h.no_failure,
    deployed-IsSettled (E.now 1) rel s h,
    status_eq_self s,
  )

  -- An installed resource that has a finalizer, needs no upgrade, and whose status is settled for
  -- the release that is reconciled: with no hook configured, the reconciliation synchronises and
  -- reconciles the release, writes neither the resource nor its status, and asks to be run again
  -- after the period.
  pub settled_writes_nothing :
      (m : Manager) (o : CustomResource Raw) (s : HelmAppStatus) (period : Duration) (rel : Release)
      → m.sync ≡ none
      → m.is_installed ≡ true
      → m.is_upgrade_required ≡ false
      → m.reconcile_release ≡ ok rel
      → has_finalizer E o ≡ true
      → E.release_hook ≡ none
      → IsSettled rel s
      → reconcile_present E m o s period
        ≡ record { calls = sync ∷ reconcile_release ∷ []; requeue_after = period; error = none }
  unfolding reconcile_present
  settled_writes_nothing m o s period rel y i u r f k h = ground (
    arith,
    set_condition-Has (E.now 0) (condition condition_initialized status_true "" "") s h.initialized,
    remove_condition-absent condition_irreconcilable s h.reconcilable,
    reconcile_pass-IsSettled m s period rel r k h,
  )
