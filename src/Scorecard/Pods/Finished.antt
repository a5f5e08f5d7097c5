-- ===== src/Scorecard/Pods/Finished.antt =====
-- RunTest: what a status says of the pod of the test.
use operator_sdk.Base.{
  ℕ, ◌<◌, String, Bool, true, ◌&&◌, none, List, ◌∷◌, any, ◌==◌, ◌≡◌, arith, ◌⊎◌, inl, inr,
  Bool-cases, Option-cases,
}
use operator_sdk.Errors.{Result, ok, Result-cases}
use operator_sdk.Olm.Client.{done, again, IsPoller}
use operator_sdk.Scorecard.{TestConfiguration, TestStatus}
use operator_sdk.Scorecard.Pods.{
  Pod, PodTestRunner, Cluster, Env, test_pod, get_dest_path, label, pod_check,
  wait_for_test_to_complete, get_test_status, finish_test, run_test,
}

-- The container of the test is terminated.
abbrev pub HasTerminated : Result (List (String × Bool)) → Type 0
HasTerminated answer =
    (ss : List (String × Bool)) × (answer ≡ ok ss)
    × (any (λ (n, terminated). (n == "scorecard-test") && terminated) ss ≡ true)

module _ (E : Env) where
  pod_check-done :
      (pod : String) (k : ℕ) → pod_check E pod k ≡ done → HasTerminated (E.container_statuses pod k)
  unfolding pod_check
  pod_check-done pod k h = elim (Result-cases (E.container_statuses pod k)) [
    | inl (ss, e) ↦ (ss, e, ground (arith, e, h))
    | inr (x, e) ↦ absurd (ground (arith, e, h))
  ]

  finish_test-ok :
      (r : PodTestRunner) (test : TestConfiguration) (pod : Pod) (status : TestStatus)
      → finish_test E r test pod ≡ ok status
      → (wait_for_test_to_complete E pod.name ≡ none)
        × (status ≡ get_test_status E pod.name)
        × (((test.mount_path == "") ≡ true)
            ⊎ (E.gathered pod.name (
                  get_dest_path r.test_output
                    (label "suite" test.labels)
                    (label "test" test.labels))
                ≡ none))
  unfolding finish_test
  finish_test-ok r test pod status h = elim (Option-cases (wait_for_test_to_complete E pod.name)) [
    | inr (x, w) ↦ absurd (ground (arith, w, h))
    | inl w ↦ elim (Bool-cases (test.mount_path == "")) [
      | inl m ↦ (w, ground (arith, w, m, h), inl m)
      | inr m ↦
          elim (Option-cases (
            E.gathered pod.name (
              get_dest_path r.test_output (label "suite" test.labels)
                (label "test" test.labels)))) [
                  | inl g ↦ (w, ground (arith, w, m, g, h), inr g)
                  | inr (x, g) ↦ absurd (ground (arith, w, m, g, h))
                ]
    ]
  ]

  run_test-ok :
      (r : PodTestRunner) (name : String) (test : TestConfiguration) (s : Bool) (c : Cluster)
      (status : TestStatus)
      → (run_test E r name test s c).1 ≡ ok status
      → let pod = test_pod name test r s in
        ((run_test E r name test s c).0.pods ≡ pod ∷ c.pods)
        × (finish_test E r test pod ≡ ok status)
  unfolding run_test
  run_test-ok r name test s c status h =
      elim (Option-cases (E.pod_created (test_pod name test r s))) [
        | inl e ↦ (ground (arith, e), ground (arith, e, h))
        | inr (x, e) ↦ absurd (ground (arith, e, h))
      ]

  -- Where RunTest returns a status: the pod of the test was created, its container was seen
  -- terminated and no earlier read of the pod failed, the status is that of the pod's log, and the
  -- output was gathered if the test has a mount path.
  pub run_test-HasTerminated :
      (P : IsPoller E.poller) (r : PodTestRunner) (name : String) (test : TestConfiguration)
      (s : Bool) (c : Cluster) (status : TestStatus)
      → (run_test E r name test s c).1 ≡ ok status
      → let pod = test_pod name test r s in
        ((run_test E r name test s c).0.pods ≡ pod ∷ c.pods)
        × ((n : ℕ) × HasTerminated (E.container_statuses pod.name n)
            × ((k : ℕ) → k < n → pod_check E pod.name k ≡ again))
        × (status ≡ get_test_status E pod.name)
        × (((test.mount_path == "") ≡ true)
            ⊎ (E.gathered pod.name (
                  get_dest_path r.test_output
                    (label "suite" test.labels)
                    (label "test" test.labels))
                ≡ none))
  run_test-HasTerminated P r name test s c status h =
      let pod = test_pod name test r s in
      let (created, finished) = run_test-ok r name test s c status h in
      let (waited, result, gathered) = finish_test-ok r test pod status finished in
      let (n, d, before) =
        P.poll_done (pod_check E pod.name) (unfold wait_for_test_to_complete in waited) in
      (created, (n, pod_check-done pod.name n d, before), result, gathered)
