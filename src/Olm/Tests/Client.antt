-- ===== src/Olm/Tests/Client.antt =====
-- The theorems on client.go at concrete answers of a cluster.
use operator_sdk.Base.{ℕ, ◌<◌, String, none, some, [], ◌∷◌, ◌≡◌, refl}
use operator_sdk.Base.Text.{codes}
use operator_sdk.Errors.{deadline_exceeded, ok, api_not_found, is_not_found}
use operator_sdk.Olm.Client.{
  create_attempt, deleted_attempt, refused, safe_create_one_resource, do_create, delete_one,
  do_delete, Deployment, rollout_attempt, rollout_complete, do_rollout_wait,
}
use operator_sdk.Olm.Client.Once.{once, once-IsPoller}
use operator_sdk.Olm.Client.Wait.{
  WaitedCsv, Workloads, csv_phase_succeeded, do_csv_wait, deployments, wait_error_text,
  is_unavailable,
}
use operator_sdk.Olm.Client.Version.{OlmCsv}
use operator_sdk.Olm.Client.Laws.{
  IsInPhase, AreAvailable, do_csv_wait-succeeded, do_csv_wait-empty_error,
}

abbrev pub deployment : Deployment
deployment = record {
  generation = 2;
  observed_generation = 2;
  progressing = none;
  spec_replicas = some 1;
  replicas = 1;
  updated_replicas = 1;
  available_replicas = 1;
}

rollout_ends : do_rollout_wait once (λ k. ok deployment) ≡ none
unfolding do_rollout_wait rollout_complete rollout_attempt
rollout_ends = refl

create_ends : do_create once (λ (o : String) k. none) ("crd" ∷ []) ≡ none
unfolding do_create safe_create_one_resource create_attempt
create_ends = refl

delete_ends :
    do_delete once (λ (o : String). none) (λ o k. some (api_not_found o)) ("crd" ∷ []) ≡ none
unfolding do_delete delete_one refused deleted_attempt is_not_found
delete_ends = refl

abbrev pub waited : String → WaitedCsv
waited phase = record { phase = phase; reason = ""; message = ""; deployment_specs = "etcd" ∷ [] }

abbrev pub workloads : Workloads
workloads = record {
  conditions = λ name. ok (record { type = "Available"; status = "True"; reason = "" } ∷ []);
  selector = λ name. none;
  pods = λ name. ok [];
}

csv_ends :
    do_csv_wait workloads once "default" (λ k. ok (waited "Succeeded")) (waited "Succeeded") ≡ none
unfolding do_csv_wait csv_phase_succeeded
csv_ends = refl

do_csv_wait-succeeded_example :
    (n : ℕ) × IsInPhase "Succeeded" (ok (waited "Succeeded"))
    × ((k : ℕ) → k < n → IsInPhase "Failed" (ok (waited "Succeeded")) → ⊥)
do_csv_wait-succeeded_example =
    do_csv_wait-succeeded workloads once once-IsPoller "default" (λ k. ok (waited "Succeeded"))
      (waited "Succeeded") csv_ends

csv_hangs : once.poll (λ k. csv_phase_succeeded (ok (waited "Installing"))) ≡ some deadline_exceeded
unfolding csv_phase_succeeded
csv_hangs = refl

workloads_available : AreAvailable workloads ("etcd" ∷ [])
unfolding is_unavailable
workloads_available =
    ((record { type = "Available"; status = "True"; reason = "" } ∷ [], refl, refl), tt)

do_csv_wait-empty_error_example :
    (do_csv_wait workloads once "default" (λ k. ok (waited "Installing")) (waited "Installing")
      ≡ some (deployments []))
    × (wait_error_text (deployments []) ≡ "")
do_csv_wait-empty_error_example =
    do_csv_wait-empty_error workloads once "default" (λ k. ok (waited "Installing"))
      (waited "Installing") csv_hangs refl workloads_available

abbrev package_server : OlmCsv
package_server = record { name = codes "packageserver"; version_label = some (codes "0.28.0") }
