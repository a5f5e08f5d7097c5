-- ===== src/Scorecard/Tests.antt =====
-- The theorems on the scorecard at a run with a parallel stage.
use mathlib.Core.List.{Perm, reverse, reverse_perm}
use operator_sdk.Base.{
  all, ℕ, ◌<◌, String, Bool, true, false, ◌⊎◌, none, List, [], ◌∷◌, map, any, ◌==◌, ◌≡◌, refl,
  if◌then◌else◌,
}
use operator_sdk.Errors.{failure, ok, err}
use operator_sdk.Olm.Client.{again}
use operator_sdk.Olm.Client.Once.{once, once-IsPoller}
use operator_sdk.Scorecard.{
  TestConfiguration, TestStatus, Scorecard, TestRunner, with_default, list, run,
}
use operator_sdk.Scorecard.Runs.{IsArrival, IsByStages, run-IsByStages}
use operator_sdk.Scorecard.Pods.{
  PodTestRunner, Cluster, Env, pod_check, get_test_status, test_pod, run_test, get_dest_path, label,
  cleanup,
}
use operator_sdk.Scorecard.Pods.Cleanup.{is_ended, others, run_tests, cleanup-run_tests}
use operator_sdk.Scorecard.Pods.Finished.{HasTerminated, run_test-HasTerminated}

abbrev test_of : String → TestConfiguration
test_of image = record {
  image = image;
  entrypoint = [];
  labels = ("test", image) ∷ [];
  mount_path = "";
}

abbrev scorecard : Scorecard
scorecard = record {
  stages =
      record { parallel = true; tests = test_of "basic" ∷ test_of "olm" ∷ [] }
      ∷ record { parallel = false; tests = test_of "custom" ∷ [] }
      ∷ [];
  mount_path = "/test-output";
  selector = none;
  skip_cleanup = false;
  pod_security = false;
}

abbrev passed : TestStatus
passed = record { results = [] }

-- The results of a parallel stage arrive in the opposite order.
abbrev runner : TestRunner
runner = record {
  initialized = none;
  run_test = λ i j t s. if t.image == "olm" then err (failure "no CSV") else ok passed;
  context_error = none;
  cleaned_up = none;
  arrival = λ i xs. reverse xs;
}

runner-IsArrival : IsArrival runner
runner-IsArrival i xs = reverse_perm xs

run-IsByStages_example :
    IsByStages runner scorecard 0 scorecard.stages (run runner scorecard).items
    × Perm
        (map (λ t. t.spec) (run runner scorecard).items)
        (map (λ t. with_default scorecard t.spec) (list scorecard))
run-IsByStages_example = run-IsByStages runner scorecard runner-IsArrival refl

abbrev env : Env
env = record {
  bundle_data = ok "bundle";
  map_created = λ n. none;
  pod_created = λ p. none;
  container_statuses = λ p k. ok (("scorecard-test", true) ∷ []);
  poller = once;
  gathered = λ p d. none;
  pod_log = λ p. ("{}", none);
  unmarshal = λ l. ok passed;
  pods_deleted = none;
  map_deleted = λ n. none;
}

abbrev pod_runner : PodTestRunner
pod_runner = record {
  namespace = "default";
  service_account = "default";
  test_output = "out";
  storage_image = "busybox";
  untar_image = "busybox";
  config_map_name = "scorecard-test-abcd";
}

abbrev cluster : Cluster
cluster = record {
  pods =
      record (test_pod "other" (test_of "x") pod_runner false) { labels = [] }
      ∷ record (test_pod "elsewhere" (test_of "x") pod_runner false) { namespace = "other" }
      ∷ [];
  config_maps = "scorecard-test-abcd" ∷ "other" ∷ [];
  deleted_maps = [];
}

abbrev runs : List (String × TestConfiguration × Bool)
runs = ("scorecard-test-1", test_of "basic", true) ∷ ("scorecard-test-2", test_of "olm", false) ∷ []

cleaned : (cleanup env pod_runner (run_tests env pod_runner runs cluster)).1 ≡ none
unfolding cleanup
cleaned = refl

cleanup-run_tests_example :
    let c' = (cleanup env pod_runner (run_tests env pod_runner runs cluster)).0 in
    (all (is_ended pod_runner) c'.pods ≡ true)
    × (others pod_runner c'.pods ≡ others pod_runner cluster.pods)
    × (any (λ n. n == "scorecard-test-abcd") c'.deleted_maps ≡ true)
cleanup-run_tests_example = cleanup-run_tests env pod_runner runs cluster cleaned

finished : (run_test env pod_runner "scorecard-test-1" (test_of "basic") true cluster).1 ≡ ok passed
unfolding run_test
finished = refl

run_test-HasTerminated_example :
    ((run_test env pod_runner "scorecard-test-1" (test_of "basic") true cluster).0.pods
      ≡ test_pod "scorecard-test-1" (test_of "basic") pod_runner true ∷ cluster.pods)
    × ((n : ℕ) × HasTerminated (env.container_statuses "scorecard-test-1" n)
        × ((k : ℕ) → k < n → pod_check env "scorecard-test-1" k ≡ again))
    × (passed ≡ get_test_status env "scorecard-test-1")
    × (("" == "") ≡ true
        ⊎ (env.gathered "scorecard-test-1" (
              get_dest_path "out"
                (label "suite" (("test", "basic") ∷ []))
                (label "test" (("test", "basic") ∷ [])))
            ≡ none))
unfolding test_pod
run_test-HasTerminated_example =
    run_test-HasTerminated env once-IsPoller pod_runner "scorecard-test-1" (test_of "basic") true
      cluster passed finished
