-- ===== src/Scorecard/Pods.antt =====
-- internal/scorecard: the runner that runs each test in a pod: its methods of scorecard.go, with
-- testpod.go, testconfigmap.go, formatting.go and the pods of storage.go. The cluster is the pods
-- and the config maps that it has, and the answers to calls.
pub mod Cleanup
pub mod Finished
use operator_sdk.Base.{
  ℕ, String, Bool, true, false, not, ◌&&◌, ◌<>◌, Option, none, some, List, [], ◌∷◌, ◌++◌, any, map,
  ◌==◌, if◌then◌else◌,
}
use operator_sdk.Errors.{Error, failure, wrap, Result, ok, err}
use operator_sdk.Olm.Client.{Attempt, done, again, stop, Poller}
use operator_sdk.Scorecard.{TestConfiguration, TestStatus, convert_error_to_status}

pub record VolumeMount : Type 0 where
  pub mount_path : String
  pub name : String
  pub read_only : Bool

-- The value of an environment variable is a text, or the path of a field of the pod.
pub record Container : Type 0 where
  pub name : String
  pub image : String
  pub command : List String
  pub args : List String
  pub mounts : List VolumeMount
  pub env : List (String × String)
  pub is_restricted : Bool

pub record Pod : Type 0 where
  pub name : String
  pub namespace : String
  pub labels : List (String × String)
  pub service_account : String
  pub test_container : Container
  pub sidecars : List Container
  pub init_container : Container
  pub volumes : List String
  pub is_restricted : Bool
  -- The deletion has started, `metadata.deletionTimestamp`.
  pub is_terminating : Bool

pub record PodTestRunner : Type 0 where
  pub namespace : String
  pub service_account : String
  pub test_output : String
  pub storage_image : String
  pub untar_image : String
  pub config_map_name : String

-- The pods, the config maps that were created, and those whose deletion was accepted.
pub record Cluster : Type 0 where
  pub pods : List Pod
  pub config_maps : List String
  pub deleted_maps : List String

-- The answers to calls. The statuses of a pod's containers say which ones are terminated; a log is
-- what was read of it, and an error. `unmarshal` is for a log other than the JSON null, with which
-- the source returns a nil status.
pub record Env : Type 0 where
  pub bundle_data : Result String
  pub map_created : String → Option Error
  pub pod_created : Pod → Option Error
  pub container_statuses : String → ℕ → Result (List (String × Bool))
  pub poller : Poller
  pub gathered : String → String → Option Error
  pub pod_log : String → String × Option Error
  pub unmarshal : String → Result TestStatus
  pub pods_deleted : Option Error
  pub map_deleted : String → Option Error

abbrev pub pod_bundle_root : String
pod_bundle_root = "/bundle"

abbrev pub storage_sidecar_container : String
storage_sidecar_container = "scorecard-gather"

-- `getPodDefinition`; the name ends in random letters.
unfoldable pub get_pod_definition : String → TestConfiguration → PodTestRunner → Pod
get_pod_definition name test r = record {
  name = name;
  namespace = r.namespace;
  labels = ("app", "scorecard-test") ∷ ("testrun", r.config_map_name) ∷ [];
  service_account = r.service_account;
  test_container = record {
    name = "scorecard-test";
    image = test.image;
    command = test.entrypoint;
    args = [];
    mounts =
        record { mount_path = pod_bundle_root; name = "scorecard-untar"; read_only = true } ∷ [];
    env = ("SCORECARD_NAMESPACE", "metadata.namespace") ∷ [];
    is_restricted = false;
  };
  sidecars = [];
  init_container = record {
    name = "scorecard-untar";
    image = r.untar_image;
    command = [];
    args = "tar" ∷ "xvzf" ∷ "/scorecard/bundle.tar.gz" ∷ "-C" ∷ "/scorecard-bundle" ∷ [];
    mounts =
        record { mount_path = "/scorecard"; name = "scorecard-bundle"; read_only = true }
        ∷ record { mount_path = "/scorecard-bundle"; name = "scorecard-untar"; read_only = false }
        ∷ [];
    env = [];
    is_restricted = false;
  };
  volumes = "scorecard-bundle" ∷ "scorecard-untar" ∷ [];
  is_restricted = false;
  is_terminating = false;
}

-- What RunTest sets for the flag on pod security.
unfoldable pub secured : Bool → Pod → Pod
secured false pod = pod
secured true pod = record pod {
  is_restricted = true;
  test_container = record pod.test_container { is_restricted = true };
  init_container = record pod.init_container { is_restricted = true };
}

unfoldable pub add_storage_to_pod : String → String → Pod → Pod
add_storage_to_pod mount_path image pod =
    let c = pod.test_container in
    record pod {
      volumes = pod.volumes ++ ("scorecard-storage" ∷ []);
      sidecars =
          pod.sidecars
          ++ (record {
            name = storage_sidecar_container;
            image = image;
            command = [];
            args = "/bin/sh" ∷ "-c" ∷ "sleep 1000" ∷ [];
            mounts =
                record { mount_path = mount_path; name = "scorecard-storage"; read_only = true }
                ∷ [];
            env = [];
            is_restricted = false;
          }
              ∷ []);
      test_container = record c {
        mounts =
            c.mounts
            ++ (record { mount_path = mount_path; name = "scorecard-storage"; read_only = false }
                ∷ []);
        env = c.env ++ (("SCORECARD_STORAGE", mount_path) ∷ []);
      };
    }

-- The pod that RunTest creates.
unfoldable pub test_pod : String → TestConfiguration → PodTestRunner → Bool → Pod
unfolding get_pod_definition secured add_storage_to_pod
test_pod name test r pod_security =
    let pod = secured pod_security (get_pod_definition name test r) in
    if test.mount_path == "" then pod else add_storage_to_pod test.mount_path r.storage_image pod

-- `getDestPath`
unfoldable pub get_dest_path : String → String → String → String
get_dest_path base suite test =
    if suite == "" then base <> "/" <> test else base <> "/" <> suite <> "/" <> test

-- `labels[k]`, empty where the key is missing.
unfoldable pub label : String → List (String × String) → String
label k [] = ""
label k ((j, v) ∷ m) = let rest = label k m in if j == k then v else rest

-- The namespace and the label selector of `deletePods`.
unfoldable pub is_of_run : String → String → Pod → Bool
is_of_run namespace config_map pod =
    (pod.namespace == namespace) && any (λ (k, v). (k == "testrun") && (v == config_map)) pod.labels

-- `DeleteCollection` starts the deletion of the pods.
unfoldable pub terminated : String → String → Pod → Pod
unfolding is_of_run
terminated namespace config_map pod =
    if is_of_run namespace config_map pod then record pod { is_terminating = true } else pod

module _ (E : Env) where
  -- `Initialize`, for a config map of that name.
  unfoldable pub initialize : String → PodTestRunner → Cluster → Cluster × Result PodTestRunner
  initialize name r c = elim E.bundle_data [
    | err e ↦ (c, err (wrap "error getting bundle data" e))
    | ok bytes ↦ elim (E.map_created name) [
      | some e ↦ (c, err (wrap "error creating ConfigMap" e))
      | none ↦ (
        record c { config_maps = name ∷ c.config_maps },
        ok (record r { config_map_name = name }),
      )
    ]
  ]

  -- `podCheck`
  unfoldable pub pod_check : String → ℕ → Attempt
  pod_check pod k = elim (E.container_statuses pod k) [
    | err e ↦ stop (wrap "error getting pod" e)
    | ok ss ↦
        if any (λ (n, terminated). (n == "scorecard-test") && terminated) ss then done else again
  ]

  unfoldable pub wait_for_test_to_complete : String → Option Error
  unfolding pod_check
  wait_for_test_to_complete pod = E.poller.poll (pod_check pod)

  unfoldable pub get_test_status : String → TestStatus
  unfolding convert_error_to_status
  get_test_status pod =
      let (log, failed) = E.pod_log pod in
      elim failed [
        | some e ↦ convert_error_to_status e log
        | none ↦ elim (E.unmarshal log) [
          | err e ↦ convert_error_to_status e log
          | ok status ↦ status
        ]
      ]

  -- What RunTest does with a pod that was created.
  unfoldable pub finish_test : PodTestRunner → TestConfiguration → Pod → Result TestStatus
  unfolding wait_for_test_to_complete get_test_status get_dest_path label
  finish_test r test pod = elim (wait_for_test_to_complete pod.name) [
    | some e ↦ err e
    | none ↦
        if test.mount_path == ""
        then ok (get_test_status pod.name)
        else elim (E.gathered pod.name
            (get_dest_path r.test_output (label "suite" test.labels) (label "test" test.labels))) [
              | some e ↦ err e
              | none ↦ ok (get_test_status pod.name)
            ]
  ]

  -- `RunTest`
  unfoldable pub run_test :
      PodTestRunner → String → TestConfiguration → Bool → Cluster → Cluster × Result TestStatus
  unfolding test_pod finish_test
  run_test r name test pod_security c =
      let pod = test_pod name test r pod_security in
      elim (E.pod_created pod) [
        | some e ↦ (c, err e)
        | none ↦ (record c { pods = pod ∷ c.pods }, finish_test r test pod)
      ]

  unfoldable pub delete_pods : String → String → Cluster → Cluster × Option Error
  unfolding terminated
  delete_pods namespace config_map c = elim E.pods_deleted [
    | some e ↦ (c, some (wrap "error deleting pods" e))
    | none ↦ (record c { pods = map (terminated namespace config_map) c.pods }, none)
  ]

  unfoldable pub delete_config_map : String → Cluster → Cluster × Option Error
  delete_config_map name c = elim (E.map_deleted name) [
    | some e ↦ (c, some (wrap "error deleting configMap" e))
    | none ↦ (record c { deleted_maps = name ∷ c.deleted_maps }, none)
  ]

  -- `Cleanup`
  unfoldable pub cleanup : PodTestRunner → Cluster → Cluster × Option Error
  unfolding delete_pods delete_config_map
  cleanup r c =
      let (c', failed) = delete_pods r.namespace r.config_map_name c in
      elim failed [ some e ↦ (c', some e) | none ↦ delete_config_map r.config_map_name c' ]
