-- ===== src/Scorecard/Runs.antt =====
-- Run: which tests it runs, what it returns, and when it cleans up.
use mathlib.Core.List.{Perm, map-append}
use mathlib.Core.List.Perm
use mathlib.Core.Path.{subst}
use operator_sdk.Base.{
  Bool, some, ◌==◌, ◌||◌, filter, if◌then◌else◌, ℕ, suc, true, false, none, List, [], ◌∷◌, ◌++◌,
  map, ◌≡◌, refl, sym, ap, ◌∙◌, ◌↔◌, ◌⊎◌, arith, inl, inr, Bool-cases, Option-cases, List-cases,
}
use operator_sdk.Errors.{message, Result, Result-cases, ok, err}
use operator_sdk.Scorecard.{
  TestStatus, fail_state, is_selected, convert_error_to_status, TestConfiguration, Stage, Test,
  Scorecard, TestRunner, select_tests, with_default, set_test_defaults, listed, list_stages, list,
  run_test, run_stage_sequential, run_stage_parallel, run_stage, run_stages, run,
}

-- Each result that is sent arrives, and nothing else does.
abbrev pub IsArrival : TestRunner → Type 0
IsArrival R = (i : ℕ) (xs : List Test) → Perm (R.arrival i xs) xs

module _ (R : TestRunner) (o : Scorecard) where
  -- The selected tests of all stages, run one by one.
  unfoldable pub sequential_items : ℕ → List Stage → List Test
  sequential_items i [] = []
  sequential_items i (s ∷ ss) =
      run_stage_sequential R o i 0 (set_test_defaults o (select_tests o s))
      ++ sequential_items (suc i) ss

  append_congr : {A : Type 0} {ws xs ys zs : List A} → ws ≡ xs → ys ≡ zs → ws ++ ys ≡ xs ++ zs
  append_congr {xs = xs} {ys = ys} e f = ap (λ vs. vs ++ ys) e ∙ ap (λ vs. xs ++ vs) f

  run_stage-cases :
      (i : ℕ) (s : Stage)
      → let items = run_stage_sequential R o i 0 (set_test_defaults o (select_tests o s)) in
        (run_stage R o i s ≡ items)
        ⊎ ((s.parallel ≡ true) × (run_stage R o i s ≡ R.arrival i items))
  unfolding run_stage set_test_defaults run_stage_sequential run_stage_parallel
  run_stage-cases i s = elim (List-cases (select_tests o s)) [
    | inl e ↦ inl (ground (arith, e))
    | inr (t, ts, e) ↦ elim (Bool-cases s.parallel) [
      | inl p ↦ inr (p, ground (arith, e, p))
      | inr p ↦ inl (ground (arith, e, p))
    ]
  ]

  run_stage-Perm :
      (A : IsArrival R) (i : ℕ) (s : Stage)
      → Perm
          (run_stage R o i s)
          (run_stage_sequential R o i 0 (set_test_defaults o (select_tests o s)))
  run_stage-Perm A i s =
      let items = run_stage_sequential R o i 0 (set_test_defaults o (select_tests o s)) in
      elim (run_stage-cases i s) [
        | inl e ↦ subst (λ xs. Perm xs items) (sym e) (Perm.refl items)
        | inr (p, e) ↦ subst (λ xs. Perm xs items) (sym e) (A i items)
      ]

  run_stages-Perm :
      (A : IsArrival R) (i : ℕ) (ss : List Stage)
      → Perm (run_stages R o i ss) (sequential_items i ss)
  unfolding run_stages sequential_items
  run_stages-Perm A i [] = Perm.refl []
  run_stages-Perm A i (s ∷ ss) = Perm.append (run_stage-Perm A i s) (run_stages-Perm A (suc i) ss)

  specs_sequential :
      (i j : ℕ) (ts : List TestConfiguration)
      → map (λ t. t.spec) (run_stage_sequential R o i j ts) ≡ ts
  unfolding run_stage_sequential run_test
  specs_sequential i j [] = refl
  specs_sequential i j (t ∷ ts) =
      ap (λ (us : List TestConfiguration). t ∷ us) (specs_sequential i (suc j) ts)

  specs_listed :
      (ts : List TestConfiguration)
      → map (λ t. with_default o t.spec) (map listed ts) ≡ set_test_defaults o ts
  unfolding set_test_defaults listed
  specs_listed [] = refl
  specs_listed (t ∷ ts) =
      ap (λ (us : List TestConfiguration). with_default o t ∷ us) (specs_listed ts)

  specs_items :
      (i : ℕ) (ss : List Stage)
      → map (λ t. t.spec) (sequential_items i ss)
        ≡ map (λ t. with_default o t.spec) (list_stages o ss)
  unfolding sequential_items list_stages
  specs_items i [] = refl
  specs_items i (s ∷ ss) =
      map-append (λ t. t.spec)
        (run_stage_sequential R o i 0 (set_test_defaults o (select_tests o s)))
        (sequential_items (suc i) ss)
      ∙ append_congr (specs_sequential i 0 (set_test_defaults o (select_tests o s)))
          (specs_items (suc i) ss)
      ∙ ap (λ xs. xs ++ map (λ t. with_default o t.spec) (list_stages o ss))
          (sym (specs_listed (select_tests o s)))
      ∙ sym (
          map-append (λ t. with_default o t.spec) (map listed (select_tests o s))
            (list_stages o ss))

  run-items : R.initialized ≡ none → (run R o).items ≡ run_stages R o 0 o.stages
  unfolding run
  run-items h = ground (arith, h)

  -- What is expected of a test: it has the default mount path where it gives none, and the status
  -- that the runner answers, or a failure with the text of the error.
  abbrev pub filled : TestConfiguration → TestConfiguration
  filled t = if t.mount_path == "" then record t { mount_path = o.mount_path } else t

  abbrev pub answered : Result TestStatus → TestStatus
  answered (ok status) = status
  answered (err e) = record {
    results = record { state = fail_state; errors = message e ∷ []; log = "" } ∷ [];
  }

  abbrev pub is_wanted : TestConfiguration → Bool
  is_wanted t = elim o.selector [ none ↦ true | some s ↦ (s.text == "") || s.matches t.labels ]

  -- The results of tests one by one, from the j-th of the i-th stage on.
  unfoldable pub outcomes : ℕ → ℕ → List TestConfiguration → List Test
  outcomes i j [] = []
  outcomes i j (t ∷ ts) =
      record { spec = filled t; status = answered (R.run_test i j (filled t) o.pod_security) }
      ∷ outcomes i (suc j) ts

  -- What a stage gives: the results of its selected tests, in their order or, of a parallel stage,
  -- in any order.
  unfoldable pub IsStageOutput : ℕ → Stage → List Test → Type 0
  IsStageOutput i s items =
      (items ≡ outcomes i 0 (filter is_wanted s.tests))
      ⊎ ((s.parallel ≡ true) × Perm items (outcomes i 0 (filter is_wanted s.tests)))

  -- The items are those of the stages, one stage after the other.
  unfoldable pub IsByStages : ℕ → List Stage → List Test → Type 0
  IsByStages i [] items = items ≡ []
  IsByStages i (s ∷ ss) items =
      (first rest : List Test) × (items ≡ first ++ rest)
      × IsStageOutput i s first
      × IsByStages (suc i) ss rest

  run_test-outcome :
      (i j : ℕ) (t : TestConfiguration)
      → run_test R o i j (with_default o t)
        ≡ record { spec = filled t; status = answered (R.run_test i j (filled t) o.pod_security) }
  unfolding run_test with_default convert_error_to_status
  run_test-outcome i j t = elim (Result-cases (R.run_test i j (filled t) o.pod_security)) [
    | inl (s, e) ↦ ground (arith, e)
    | inr (x, e) ↦ ground (arith, e)
  ]

  run_stage_sequential-outcomes :
      (i j : ℕ) (ts : List TestConfiguration)
      → run_stage_sequential R o i j (set_test_defaults o ts) ≡ outcomes i j ts
  unfolding run_stage_sequential set_test_defaults outcomes
  run_stage_sequential-outcomes i j [] = refl
  run_stage_sequential-outcomes i j (t ∷ ts) =
      cc (run_test-outcome i j t, run_stage_sequential-outcomes i (suc j) ts)

  is_selected-is_wanted : (t : TestConfiguration) → is_selected o.selector t ≡ is_wanted t
  unfolding is_selected
  is_selected-is_wanted t = elim (Option-cases o.selector) [
    | inl e ↦ ground (arith, e)
    | inr (s, e) ↦ ground (arith, e)
  ]

  filter_wanted :
      (ts : List TestConfiguration) → filter (is_selected o.selector) ts ≡ filter is_wanted ts
  filter_wanted [] = refl
  filter_wanted (t ∷ ts) = ground (arith, is_selected-is_wanted t, filter_wanted ts)

  sequential-outcomes :
      (i : ℕ) (s : Stage)
      → run_stage_sequential R o i 0 (set_test_defaults o (select_tests o s))
        ≡ outcomes i 0 (filter is_wanted s.tests)
  unfolding select_tests
  sequential-outcomes i s =
      run_stage_sequential-outcomes i 0 (filter (is_selected o.selector) s.tests)
      ∙ ap (outcomes i 0) (filter_wanted s.tests)

  run_stage-IsStageOutput :
      (A : IsArrival R) (i : ℕ) (s : Stage) → IsStageOutput i s (run_stage R o i s)
  unfolding IsStageOutput
  run_stage-IsStageOutput A i s = elim (run_stage-cases i s) [
    | inl e ↦ inl (e ∙ sequential-outcomes i s)
    | inr (p, e) ↦ inr (
      p,
      subst (λ xs. Perm xs (outcomes i 0 (filter is_wanted s.tests))) (sym e)
          (subst (Perm (R.arrival i _)) (sequential-outcomes i s) (A i _)),
    )
  ]

  run_stages-IsByStages :
      (A : IsArrival R) (i : ℕ) (ss : List Stage) → IsByStages i ss (run_stages R o i ss)
  unfolding run_stages IsByStages
  run_stages-IsByStages A i [] = refl
  run_stages-IsByStages A i (s ∷ ss) = (
    run_stage R o i s,
    run_stages R o (suc i) ss,
    refl,
    run_stage-IsStageOutput A i s,
    run_stages-IsByStages A (suc i) ss,
  )

  -- Where the runner is initialized and no result is lost, Run returns the results of the stages one
  -- after the other: of each stage, those of its selected tests, with the default mount path where a
  -- test gives none, in their order or, in a parallel stage, in any order. The tests are those that
  -- List lists, up to that order.
  pub run-IsByStages :
      IsArrival R
      → R.initialized ≡ none
      → IsByStages 0 o.stages (run R o).items
        × Perm (map (λ t. t.spec) (run R o).items) (map (λ t. with_default o t.spec) (list o))
  unfolding list
  run-IsByStages A h =
      let p =
        subst (λ xs. Perm xs (sequential_items 0 o.stages)) (sym (run-items h))
          (run_stages-Perm A 0 o.stages) in
      (
        subst (IsByStages 0 o.stages) (sym (run-items h)) (run_stages-IsByStages A 0 o.stages),
        subst (Perm (map (λ t. t.spec) (run R o).items)) (specs_items 0 o.stages)
            (Perm.map (λ t. t.spec) p),
      )

  -- Run cleans up exactly if the runner was initialized and the cleanup is not skipped, whatever the
  -- tests give, and returns no error exactly if nothing failed but tests.
  pub run-error_iff :
      (((run R o).cleaned ≡ true) ↔ ((R.initialized ≡ none) × (o.skip_cleanup ≡ false)))
      × (((run R o).error ≡ none) ↔ (
          (R.initialized ≡ none)
          × (R.context_error ≡ none)
          × ((o.skip_cleanup ≡ true) ⊎ (R.cleaned_up ≡ none))))
  unfolding run
  run-error_iff = elim (Option-cases R.initialized) [
    | inr (x, e) ↦ ground (arith, e)
    | inl e ↦ elim (Bool-cases o.skip_cleanup) [
      | inl k ↦ ground (arith, e, k)
      | inr k ↦ elim (Option-cases R.cleaned_up) [
        | inl c ↦ ground (arith, e, k, c)
        | inr (x, c) ↦ ground (arith, e, k, c)
      ]
    ]
  ]
