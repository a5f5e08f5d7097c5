-- ===== src/Helm/Connected/Laws.antt =====
-- reconcile.go with manager.go: the reconciler over the manager that the code connects it to.
use operator_sdk.Base.{
  String, Bool, true, false, Option, none, some, List, ◌≡◌, ◌∙◌, sym, refl, ap, is_some, all,
  if◌then◌else◌, arith, inl, inr, Option-cases,
}
use operator_sdk.Errors.{Error, is_upgrade_failed, ok, err, Result-cases}
use operator_sdk.Helm.Status.{
  HelmAppStatus, condition, condition_initialized, condition_irreconcilable, status_true,
  set_condition, remove_condition,
}
use operator_sdk.Helm.Release.{Release, Manager}
use operator_sdk.Helm.Manager.Actions.{upgrade_release_reports}
use operator_sdk.Helm.Manager.Patch.{reconcile_release}
use operator_sdk.Helm.Manager.Patch.Laws.{IsApiServer, reconcile_release-has}
use operator_sdk.Helm.Connected.{
  Backend, answer, state_after_sync, synced, reconcile_deployed, manager_of,
}
use operator_sdk.Helm.Reconcile.Annotations.{
  CustomResource, Duration, has_annotation, helm_upgrade_force_annotation,
}
use operator_sdk.Helm.Reconcile.Env.{Env, Call, roll_back}
use operator_sdk.Helm.Reconcile.Deletion.{has_finalizer}
use operator_sdk.Helm.Reconcile.Passes.{
  upgrade_pass, run_upgrade, roll_back_calls, reconcile_pass, report_failure,
}
use operator_sdk.Helm.Reconcile.Run.{installed_passes, ensure_finalizer, reconcile_present}
use operator_sdk.Helm.Reconcile.Run.Once.{count, count-override_events}

abbrev pub is_roll_back : {Raw : Type 0} → Call Raw → Bool
is_roll_back (roll_back _) = true
is_roll_back _ = false

module _ {Raw : Type 0} (E : Env Raw) (m : Manager) (o : CustomResource Raw)
    (period : Duration) where
  reconcile_pass-reconciled :
      (original s : HelmAppStatus)
      → (reconcile_pass E m original s period).error ≡ none
      → (rel : Release) × (m.reconcile_release ≡ ok rel)
  unfolding reconcile_pass report_failure
  reconcile_pass-reconciled original s h = elim (Result-cases m.reconcile_release) [
    | inl (rel, r) ↦ (rel, r)
    | inr (e, r) ↦ absurd (ground (arith, h, r))
  ]

  -- With no upgrade required, a reconciliation that ends without an error reconciled the release.
  present-reconciled :
      (s : HelmAppStatus)
      → m.is_installed ≡ true
      → m.is_upgrade_required ≡ false
      → (reconcile_present E m o s period).error ≡ none
      → (rel : Release) × (m.reconcile_release ≡ ok rel)
  unfolding reconcile_present ensure_finalizer installed_passes reconcile_pass report_failure
  present-reconciled s i u h = elim (Result-cases m.reconcile_release) [
    | inl (rel, r) ↦ (rel, r)
    | inr (e, r) ↦ absurd (ground (arith, h, r, i, u))
  ]

  run_upgrade-roll_backs :
      (s : HelmAppStatus) (e : Error)
      → m.upgrade_release (has_annotation helm_upgrade_force_annotation o.annotations) ≡ err e
      → count is_roll_back (run_upgrade E m o s period).calls
        ≡ (if is_upgrade_failed e then 1 else 0)
  unfolding run_upgrade roll_back_calls report_failure
  run_upgrade-roll_backs s e x = ground (arith, x)

  upgrade_pass-roll_backs :
      (s : HelmAppStatus) (e : Error)
      → m.upgrade_release (has_annotation helm_upgrade_force_annotation o.annotations) ≡ err e
      → count is_roll_back (upgrade_pass E m o s period).calls
        ≡ (if is_upgrade_failed e then 1 else 0)
  unfolding upgrade_pass
  upgrade_pass-roll_backs s e x =
      count-override_events E is_roll_back (run_upgrade E m o s period).calls (λ k v. refl)
      ∙ run_upgrade-roll_backs s e x

  -- The calls of a rollback in a reconciliation whose upgrade fails: one where the error says that
  -- the release was recorded, and none otherwise.
  present-roll_backs :
      (s : HelmAppStatus) (e : Error)
      → m.sync ≡ none
      → m.is_installed ≡ true
      → has_finalizer E o ≡ true
      → m.is_upgrade_required ≡ true
      → m.upgrade_release (has_annotation helm_upgrade_force_annotation o.annotations) ≡ err e
      → count is_roll_back (reconcile_present E m o s period).calls
        ≡ (if is_upgrade_failed e then 1 else 0)
  unfolding reconcile_present ensure_finalizer installed_passes
  present-roll_backs s e y i f u x =
      let s' : HelmAppStatus =
        remove_condition condition_irreconcilable
          (set_condition (E.now 0) (condition condition_initialized status_true "" "") s) in
      ground (arith, y, i, f, u, upgrade_pass-roll_backs s' e x)

module _ {State Object Info Resource : Type 0} (B : Backend State Object Info Resource) where
  -- How Helm's upgrade action ends in the reconciliation of the release `name`.
  abbrev pub upgrade_result : String → Bool → State → Option Release × Option Error × State
  upgrade_result name force s = B.actions.run_upgrade force (state_after_sync B name s)

  manager_of-upgrade :
      (name : String) (force : Bool) (s : State) (e : Error)
      → (upgrade_result name force s).1 ≡ some e
      → is_upgrade_failed e ≡ false
      → (y : Error) × ((manager_of B name force s).upgrade_release force ≡ err y)
        × (is_upgrade_failed y ≡ is_some (upgrade_result name force s).0)
  unfolding manager_of answer
  manager_of-upgrade name force s e h n =
      let (_, fails, _) =
        upgrade_release_reports B.actions (synced B name s).deployed_release force
          (state_after_sync B name s) (λ x r. ground (arith, h, r, n)) in
      let (y, g, q, old, new) = fails e h in (y, rw g refl, q)

  -- The reconciler over its manager: where the synchronisation succeeds for an installed release
  -- that requires an upgrade, the resource has a finalizer, and Helm's upgrade action fails by an
  -- error that is not `ErrUpgradeFailed` itself, the reconciliation rolls back once if the action
  -- returned a release with its error, and not at all if it returned none.
  pub rolls_back_recorded :
      {Raw : Type 0} (E : Env Raw) (o : CustomResource Raw) (period : Duration) (t : HelmAppStatus)
      (name : String) (s : State) (e : Error)
      → let force = has_annotation helm_upgrade_force_annotation o.annotations in
        let m = manager_of B name force s in
        m.sync ≡ none
        → m.is_installed ≡ true
        → has_finalizer E o ≡ true
        → m.is_upgrade_required ≡ true
        → (upgrade_result name force s).1 ≡ some e
        → is_upgrade_failed e ≡ false
        → count is_roll_back (reconcile_present E m o t period).calls
          ≡ (if is_some (upgrade_result name force s).0 then 1 else 0)
  rolls_back_recorded E o period t name s e y i f u h n =
      let force = has_annotation helm_upgrade_force_annotation o.annotations in
      let (x, g, q) = manager_of-upgrade name force s e h n in
      present-roll_backs E (manager_of B name force s) o period t x y i f u g
      ∙ ap (λ (b : Bool). if b then 1 else 0) q

  reconcile_deployed-ok :
      (rel rel' : Release) (infos : List Info) (s : State)
      → B.build rel.manifest ≡ ok infos
      → reconcile_deployed B (some rel) s ≡ ok rel'
      → (reconcile_release B.patching B.helper (ok infos) s).0 ≡ none
  unfolding reconcile_deployed
  reconcile_deployed-ok rel rel' infos s b h =
      elim (Option-cases (reconcile_release B.patching B.helper (ok infos) s).0) [
        | inl n ↦ n
        | inr (x, n) ↦ absurd (ground (arith, b, n, h))
      ]

  -- The reconciler over its manager, and an API server that behaves as documented: a
  -- reconciliation of an installed release that requires no upgrade, and that ends without an
  -- error, leaves in the cluster every resource that is built from the manifest of the deployed
  -- release.
  pub reconciled_resources :
      {Raw : Type 0} (E : Env Raw) (o : CustomResource Raw) (period : Duration) (t : HelmAppStatus)
      (name : String) (force : Bool) (s : State) (rel : Release) (infos : List Info)
      (L : IsApiServer B.patching B.helper)
      → let m = manager_of B name force s in
        let s' = state_after_sync B name s in
        m.is_installed ≡ true
        → m.is_upgrade_required ≡ false
        → (synced B name s).deployed_release ≡ some rel
        → B.build rel.manifest ≡ ok infos
        → (reconcile_present E m o t period).error ≡ none
        → all (λ i. L.has i (reconcile_release B.patching B.helper (ok infos) s').1) infos ≡ true
  unfolding manager_of
  reconciled_resources E o period t name force s rel infos L i u d b h =
      let m = manager_of B name force s in
      let s' = state_after_sync B name s in
      let (rel', r) = present-reconciled E m o period t i u h in
      reconcile_release-has B.patching B.helper L infos s' (
        reconcile_deployed-ok rel rel' infos s' b
          (ap (λ (x : Option Release). reconcile_deployed B x s') (sym d) ∙ r))
