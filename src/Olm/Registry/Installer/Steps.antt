-- ===== src/Olm/Registry/Installer/Steps.antt =====
-- The end of an installation and of an upgrade: the wait for an install plan, its approval, and
-- the wait for the CSV.
use mathlib.Core.Path.{subst}
use operator_sdk.Base.{
  ℕ, zero, suc, ◌<◌, true, false, none, some, List, [], ◌∷◌, ◌≡◌, refl, sym, ◌∙◌, arith, Any,
  Any-append_right, inl, inr, Option-cases,
}
use operator_sdk.Base.Text.{same}
use operator_sdk.Errors.{ok, Result-cases}
use operator_sdk.Olm.Client.{Attempt, done, IsPoller}
use operator_sdk.Olm.Client.Wait.{WaitedCsv, do_csv_wait}
use operator_sdk.Olm.Client.Laws.{IsInPhase, do_csv_wait-succeeded}
use operator_sdk.Olm.Registry.Installer.{
  PlanRef, Subscription, InstallPlan, Call, update_plan, OperatorInstaller, Env, ref_name,
  plan_check, wait_for_install_plan, approve_attempt, approve_calls, approve_install_plan,
  get_installed_csv, approve_and_wait, finish,
}

module _ (E : Env) where
  -- What is documented of the poller: it ends with nil after an attempt that was done.
  pub record IsPolled : Type 0 where
    pub poller : IsPoller E.poller
    pub ends : (c : ℕ → Attempt) → E.poller.poll c ≡ none → c (E.last_attempt c) ≡ done

  module _ (L : IsPolled) (o : OperatorInstaller) where
    plan_check-done :
        (before s : Subscription)
        → plan_check before (ok s) ≡ done
        → (ref : PlanRef) × (s.install_plan_ref ≡ some ref)
          × (same ref.name (ref_name before.install_plan_ref) ≡ false)
    unfolding plan_check
    plan_check-done before s h = elim (Option-cases s.install_plan_ref) [
      | inl e ↦ absurd (ground (arith, e, h))
      | inr (ref, e) ↦ (ref, e, ground (arith, e, h))
    ]

    polled :
        (before s : Subscription)
        → wait_for_install_plan E o before ≡ ok s
        → let c : ℕ → Attempt = λ k. plan_check before (E.sub before k) in
          (E.poller.poll c ≡ none) × (E.sub before (E.last_attempt c) ≡ ok s)
    unfolding wait_for_install_plan
    polled before s h =
        let c : ℕ → Attempt = λ k. plan_check before (E.sub before k) in
        elim (Option-cases (E.poller.poll c)) [
          | inr (x, e) ↦ absurd (ground (arith, e, h))
          | inl e ↦ (e, ground (arith, e, h))
        ]

    -- After waitForInstallPlan the subscription has an install plan, and another one than before.
    wait_for_install_plan-new :
        (before s : Subscription)
        → wait_for_install_plan E o before ≡ ok s
        → (ref : PlanRef) × (s.install_plan_ref ≡ some ref)
          × (same ref.name (ref_name before.install_plan_ref) ≡ false)
    wait_for_install_plan-new before s h =
        let c : ℕ → Attempt = λ k. plan_check before (E.sub before k) in
        let (p, read) = polled before s h in
        plan_check-done before s (subst (λ r. plan_check before r ≡ done) read (L.ends c p))

    -- The plan of the reference was read, and the cluster accepted its approval.
    unfoldable pub IsApproved : List Call → PlanRef → Type 0
    IsApproved calls ref =
        (k : ℕ) × (ip : InstallPlan) × (E.plan ref k ≡ ok ip)
        × (E.plan_updated (record ip { approved = true }) k ≡ none)
        × Any (λ c. c ≡ update_plan (record ip { approved = true })) calls

    Any-approve_calls :
        (ref : PlanRef) (P : Call → Type 0) (k : ℕ)
        → Any P (approve_attempt E o ref k).0
        → Any P (approve_calls E o ref k)
    unfolding approve_calls
    Any-approve_calls ref P zero h = h
    Any-approve_calls ref P (suc k) h = Any-append_right P (approve_calls E o ref k) _ h

    approve_attempt-IsApproved :
        (ref : PlanRef) (k : ℕ) (calls : List Call)
        → (approve_attempt E o ref k).1 ≡ none
        → ((P : Call → Type 0) → Any P (approve_attempt E o ref k).0 → Any P calls)
        → IsApproved calls ref
    unfolding approve_attempt IsApproved
    approve_attempt-IsApproved ref k calls h sub = elim (Result-cases (E.plan ref k)) [
      | inr (x, e) ↦ absurd (ground (arith, e, h))
      | inl (ip, e) ↦
          let approval = update_plan (record ip { approved = true }) in
          let made : (approve_attempt E o ref k).0 ≡ approval ∷ [] = ground (arith, e) in
          (
            k,
            ip,
            e,
            ground (arith, e, h),
            sub (λ c. c ≡ approval) (subst (Any (λ c. c ≡ approval)) (sym made) (inl refl)),
          )
    ]

    approve_install_plan-IsApproved :
        (ref : PlanRef)
        → (approve_install_plan E o ref).1 ≡ none
        → IsApproved (approve_install_plan E o ref).0 ref
    unfolding approve_install_plan
    approve_install_plan-IsApproved ref h =
        let n = E.last_try (λ k. (approve_attempt E o ref k).1) in
        approve_attempt-IsApproved ref n (approve_calls E o ref n) h
          (λ P a. Any-approve_calls ref P n a)

    -- The CSV was seen in the phase Succeeded, before it was seen in the phase Failed.
    abbrev pub HasSucceeded : Type 0
    HasSucceeded =
        (n : ℕ) × IsInPhase "Succeeded" (E.csvs n)
        × ((k : ℕ) → k < n → IsInPhase "Failed" (E.csvs k) → ⊥)

    get_installed_csv-ok :
        (csv : WaitedCsv)
        → get_installed_csv E o ≡ ok csv
        → (do_csv_wait E.workloads E.poller E.namespace_text E.csvs E.last_csv ≡ none)
          × (E.installed ≡ ok csv)
    unfolding get_installed_csv
    get_installed_csv-ok csv h =
        elim (Option-cases (do_csv_wait E.workloads E.poller E.namespace_text E.csvs E.last_csv)) [
          | inr (x, e) ↦ absurd (ground (arith, e, h))
          | inl e ↦ (
            e,
            elim (Result-cases E.installed) [
              | inl (c, i) ↦ ground (arith, e, i, h)
              | inr (x, i) ↦ absurd (ground (arith, e, i, h))
            ],
          )
        ]

    get_installed_csv-HasSucceeded :
        (csv : WaitedCsv) → get_installed_csv E o ≡ ok csv → HasSucceeded × (E.installed ≡ ok csv)
    get_installed_csv-HasSucceeded csv h =
        let (w, i) = get_installed_csv-ok csv h in
        (
          do_csv_wait-succeeded E.workloads E.poller L.poller E.namespace_text E.csvs E.last_csv w,
          i,
        )

    -- What the end of an installation and of an upgrade has done for a subscription.
    unfoldable pub IsFinished : Subscription → List Call → WaitedCsv → Type 0
    IsFinished before calls csv =
        (s : Subscription) × (ref : PlanRef) × (wait_for_install_plan E o before ≡ ok s)
        × (s.install_plan_ref ≡ some ref)
        × (same ref.name (ref_name before.install_plan_ref) ≡ false)
        × IsApproved calls ref
        × HasSucceeded
        × (E.installed ≡ ok csv)

    approve_and_wait-ok :
        (s : Subscription) (ref : PlanRef) (csv : WaitedCsv)
        → s.install_plan_ref ≡ some ref
        → (approve_and_wait E o s).1 ≡ ok csv
        → ((approve_install_plan E o ref).1 ≡ none)
          × (get_installed_csv E o ≡ ok csv)
          × ((approve_and_wait E o s).0 ≡ (approve_install_plan E o ref).0)
    unfolding approve_and_wait
    approve_and_wait-ok s ref csv e h = elim (Option-cases (approve_install_plan E o ref).1) [
      | inl a ↦ (a, ground (arith, e, h, a), ground (arith, e, a))
      | inr (x, a) ↦ absurd (ground (arith, e, h, a))
    ]

    finish-ok :
        (before : Subscription) (csv : WaitedCsv)
        → (finish E o before).1 ≡ ok csv
        → (s : Subscription) × (wait_for_install_plan E o before ≡ ok s)
          × ((approve_and_wait E o s).1 ≡ ok csv)
          × ((finish E o before).0 ≡ (approve_and_wait E o s).0)
    unfolding finish
    finish-ok before csv h = elim (Result-cases (wait_for_install_plan E o before)) [
      | inl (s, e) ↦ (s, e, ground (arith, e, h), ground (arith, e))
      | inr (x, e) ↦ absurd (ground (arith, e, h))
    ]

    pub finish-IsFinished :
        (before : Subscription) (csv : WaitedCsv)
        → (finish E o before).1 ≡ ok csv
        → IsFinished before (finish E o before).0 csv
    unfolding IsFinished
    finish-IsFinished before csv h =
        let (s, w, a, calls) = finish-ok before csv h in
        let (ref, has, new) = wait_for_install_plan-new before s w in
        let (approved, got, made) = approve_and_wait-ok s ref csv has a in
        let (succeeded, installed) = get_installed_csv-HasSucceeded csv got in
        (
          s,
          ref,
          w,
          has,
          new,
          subst (λ cs. IsApproved cs ref) (sym (calls ∙ made))
              (approve_install_plan-IsApproved ref approved),
          succeeded,
          installed,
        )
