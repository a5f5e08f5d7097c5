-- ===== src/Scorecard.antt =====
-- internal/scorecard: scorecard.go and List of formatting.go. A stage that runs its tests in parallel
-- gives its results in the order in which they arrive.
pub mod Runs
pub mod Pods
mod Tests
use operator_sdk.Base.{
  ℕ, suc, ◌+◌, String, Bool, true, false, not, ◌||◌, ◌++◌, Option, none, some, List, [], ◌∷◌, map,
  ◌==◌, filter, if◌then◌else◌,
}
use operator_sdk.Errors.{Error, message, Result, ok, err}

pub record TestConfiguration : Type 0 where
  pub image : String
  pub entrypoint : List String
  pub labels : List (String × String)
  pub mount_path : String

pub record Stage : Type 0 where
  pub parallel : Bool
  pub tests : List TestConfiguration

pub data State : Type 0 where
  pass_state fail_state error_state : State

pub record TestResult : Type 0 where
  pub state : State
  pub errors : List String
  pub log : String

-- `v1alpha3.TestStatus`, and an item of `v1alpha3.TestList`.
pub record TestStatus : Type 0 where
  pub results : List TestResult

pub record Test : Type 0 where
  pub spec : TestConfiguration
  pub status : TestStatus

-- `labels.Selector`: its text, and what it matches.
pub record Selector : Type 0 where
  pub text : String
  pub matches : List (String × String) → Bool

pub record Scorecard : Type 0 where
  pub stages : List Stage
  pub mount_path : String
  pub selector : Option Selector
  pub skip_cleanup : Bool
  pub pod_security : Bool

-- `TestRunner`, in one run: the answers to its methods, those of RunTest for the test of a number in
-- the stage of a number; what the context's error is when the stages are done; and the order in
-- which the results of a parallel stage arrive.
pub record TestRunner : Type 0 where
  pub initialized : Option Error
  pub run_test : ℕ → ℕ → TestConfiguration → Bool → Result TestStatus
  pub context_error : Option Error
  pub cleaned_up : Option Error
  pub arrival : ℕ → List Test → List Test

-- What `Run` returns, and whether it called Cleanup.
pub record Output : Type 0 where
  pub items : List Test
  pub error : Option Error
  pub cleaned : Bool

unfoldable pub convert_error_to_status : Error → String → TestStatus
convert_error_to_status e log = record {
  results = record { state = fail_state; errors = message e ∷ []; log = log } ∷ [];
}

-- `selectTests`
unfoldable pub is_selected : Option Selector → TestConfiguration → Bool
is_selected none t = true
is_selected (some s) t = (s.text == "") || s.matches t.labels

unfoldable pub select_tests : Scorecard → Stage → List TestConfiguration
unfolding is_selected
select_tests o stage = filter (is_selected o.selector) stage.tests

-- The body of the loop of `setTestDefaults`.
unfoldable pub with_default : Scorecard → TestConfiguration → TestConfiguration
with_default o t = if t.mount_path == "" then record t { mount_path = o.mount_path } else t

unfoldable pub set_test_defaults : Scorecard → List TestConfiguration → List TestConfiguration
unfolding with_default
set_test_defaults o ts = map (with_default o) ts

-- `List`: the status of an item is the zero value.
unfoldable pub listed : TestConfiguration → Test
listed t = record { spec = t; status = record { results = [] } }

unfoldable pub list_stages : Scorecard → List Stage → List Test
unfolding select_tests listed
list_stages o [] = []
list_stages o (s ∷ ss) = map listed (select_tests o s) ++ list_stages o ss

unfoldable pub list : Scorecard → List Test
unfolding list_stages
list o = list_stages o o.stages

module _ (R : TestRunner) (o : Scorecard) where
  -- `runTest`
  unfoldable pub run_test : ℕ → ℕ → TestConfiguration → Test
  unfolding convert_error_to_status
  run_test i j t = record {
    spec = t;
    status = elim (R.run_test i j t o.pod_security) [
      | ok status ↦ status
      | err e ↦ convert_error_to_status e ""
    ];
  }

  -- `runStageSequential`, from the test of a number on.
  unfoldable pub run_stage_sequential : ℕ → ℕ → List TestConfiguration → List Test
  unfolding run_test
  run_stage_sequential i j [] = []
  run_stage_sequential i j (t ∷ ts) = run_test i j t ∷ run_stage_sequential i (suc j) ts

  -- `runStageParallel`
  unfoldable pub run_stage_parallel : ℕ → List TestConfiguration → List Test
  unfolding run_stage_sequential
  run_stage_parallel i ts = R.arrival i (run_stage_sequential i 0 ts)

  -- The body of the loop of `Run`.
  unfoldable pub run_stage : ℕ → Stage → List Test
  unfolding select_tests set_test_defaults run_stage_parallel run_stage_sequential
  run_stage i s = elim (select_tests o s) [
    | [] ↦ []
    | t ∷ ts ↦
        let tests = set_test_defaults o (t ∷ ts) in
        if s.parallel then run_stage_parallel i tests else run_stage_sequential i 0 tests
  ]

  unfoldable pub run_stages : ℕ → List Stage → List Test
  unfolding run_stage
  run_stages i [] = []
  run_stages i (s ∷ ss) = run_stage i s ++ run_stages (suc i) ss

  unfoldable pub run : Output
  unfolding run_stages
  run = elim R.initialized [
    | some e ↦ record { items = []; error = some e; cleaned = false }
    | none ↦
        let items = run_stages 0 o.stages in
        if o.skip_cleanup
        then record { items = items; error = R.context_error; cleaned = false }
        else elim R.cleaned_up [
          | some e ↦ record { items = items; error = some e; cleaned = true }
          | none ↦ record { items = items; error = R.context_error; cleaned = true }
        ]
  ]
