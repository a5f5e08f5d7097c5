-- ===== src/Scorecard/Pods/Cleanup.antt =====
-- Cleanup: what becomes of the pods of a run.
use operator_sdk.Base.{
  String, Bool, true, false, not, ◌&&◌, ◌||◌, ◌⊎◌, none, List, [], ◌∷◌, any, all, filter, map, ◌==◌,
  ==_self, ◌≡◌, refl, ap, ◌∙◌, arith, inl, inr, Option-cases, Bool-cases,
}
use operator_sdk.Scorecard.{TestConfiguration}
use operator_sdk.Scorecard.Pods.{
  Pod, PodTestRunner, Cluster, Env, get_pod_definition, secured, add_storage_to_pod, test_pod,
  is_of_run, terminated, run_test, delete_pods, delete_config_map, cleanup,
}

-- The pod is in the namespace of the runner, with the label of its run.
abbrev pub belongs : PodTestRunner → Pod → Bool
belongs r p =
    (p.namespace == r.namespace)
    && any (λ (k, v). (k == "testrun") && (v == r.config_map_name)) p.labels

is_of_run-belongs :
    (r : PodTestRunner) (p : Pod) → is_of_run r.namespace r.config_map_name p ≡ belongs r p
unfolding is_of_run
is_of_run-belongs r p = refl

-- The pods that are not of the run.
abbrev pub others : PodTestRunner → List Pod → List Pod
others r ps = filter (λ p. not (belongs r p)) ps

-- Of a pod of a run: its deletion has started.
abbrev pub is_ended : PodTestRunner → Pod → Bool
is_ended r p = not (belongs r p) || p.is_terminating

-- A pod of a test has the namespace and the label by which the pods of its run are deleted.
test_pod-belongs :
    (name : String) (test : TestConfiguration) (r : PodTestRunner) (s : Bool)
    → belongs r (test_pod name test r s) ≡ true
unfolding test_pod get_pod_definition secured add_storage_to_pod
test_pod-belongs name test r s = ground (arith, ==_self r.config_map_name, ==_self r.namespace, s)

belongs-terminated :
    (r : PodTestRunner) (p : Pod)
    → ((belongs r p ≡ true)
        × (terminated r.namespace r.config_map_name p ≡ record p { is_terminating = true }))
      ⊎ ((belongs r p ≡ false) × (terminated r.namespace r.config_map_name p ≡ p))
unfolding terminated
belongs-terminated r p = elim (Bool-cases (belongs r p)) [
  | inl e ↦ inl (e, ground (arith, is_of_run-belongs r p, e))
  | inr e ↦ inr (e, ground (arith, is_of_run-belongs r p, e))
]

others-terminated :
    (r : PodTestRunner) (ps : List Pod)
    → others r (map (terminated r.namespace r.config_map_name) ps) ≡ others r ps
others-terminated r [] = refl
others-terminated r (p ∷ ps) = elim (belongs-terminated r p) [
  | inl (b, e) ↦ ground (arith, b, e, others-terminated r ps)
  | inr (b, e) ↦ ground (arith, b, e, others-terminated r ps)
]

all_ended :
    (r : PodTestRunner) (ps : List Pod)
    → all (is_ended r) (map (terminated r.namespace r.config_map_name) ps) ≡ true
all_ended r [] = refl
all_ended r (p ∷ ps) = elim (belongs-terminated r p) [
  | inl (b, e) ↦ ground (arith, b, e, all_ended r ps)
  | inr (b, e) ↦ ground (arith, b, e, all_ended r ps)
]

module _ (E : Env) (r : PodTestRunner) where
  -- The tests of a run, each with the name of its pod.
  unfoldable pub run_tests : List (String × TestConfiguration × Bool) → Cluster → Cluster
  run_tests [] c = c
  run_tests ((name, test, s) ∷ ts) c = run_tests ts (run_test E r name test s c).0

  others-run_test :
      (name : String) (test : TestConfiguration) (s : Bool) (c : Cluster)
      → others r (run_test E r name test s c).0.pods ≡ others r c.pods
  unfolding run_test
  others-run_test name test s c = elim (Option-cases (E.pod_created (test_pod name test r s))) [
    | inl e ↦ ground (arith, e, test_pod-belongs name test r s)
    | inr (x, e) ↦ ground (arith, e)
  ]

  others-run_tests :
      (ts : List (String × TestConfiguration × Bool)) (c : Cluster)
      → others r (run_tests ts c).pods ≡ others r c.pods
  unfolding run_tests
  others-run_tests [] c = refl
  others-run_tests ((name, test, s) ∷ ts) c =
      others-run_tests ts (run_test E r name test s c).0 ∙ others-run_test name test s c

  cleanup-ok :
      (c : Cluster)
      → (cleanup E r c).1 ≡ none
      → ((cleanup E r c).0.pods ≡ map (terminated r.namespace r.config_map_name) c.pods)
        × ((cleanup E r c).0.deleted_maps ≡ r.config_map_name ∷ c.deleted_maps)
  unfolding cleanup delete_pods delete_config_map
  cleanup-ok c h = elim (Option-cases E.pods_deleted) [
    | inr (x, e) ↦ absurd (ground (arith, e, h))
    | inl e ↦ elim (Option-cases (E.map_deleted r.config_map_name)) [
      | inr (x, d) ↦ absurd (ground (arith, e, d, h))
      | inl d ↦ (ground (arith, e, d), ground (arith, e, d))
    ]
  ]

  -- Whatever tests were run, and whether they passed or not: after a cleanup that succeeds, the
  -- deletion of every pod of the run in the runner's namespace has started, all other pods are as
  -- they were before the tests, and the deletion of the config map of the run was accepted.
  pub cleanup-run_tests :
      (ts : List (String × TestConfiguration × Bool)) (c : Cluster)
      → let (c', failed) = cleanup E r (run_tests ts c) in
        failed ≡ none
        → (all (is_ended r) c'.pods ≡ true)
          × (others r c'.pods ≡ others r c.pods)
          × (any (λ n. n == r.config_map_name) c'.deleted_maps ≡ true)
  cleanup-run_tests ts c h =
      let (pods, maps) = cleanup-ok (run_tests ts c) h in
      (
        ap (all (is_ended r)) pods ∙ all_ended r (run_tests ts c).pods,
        ap (others r) pods ∙ others-terminated r (run_tests ts c).pods ∙ others-run_tests ts c,
        ground (arith, maps, ==_self r.config_map_name),
      )
