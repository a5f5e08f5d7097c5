-- ===== src/Olm/Registry/FbcPod.antt =====
-- internal/olm/operator/registry/fbcindex/fbc_registry_pod.go: the pod that serves a file-based
-- catalog, with the config maps that it mounts. An outcome is the calls that change the cluster,
-- in order, and what is returned.
pub mod Upload
pub mod Wiring
pub mod Ready
use operator_sdk.Base.{
  ℕ, zero, suc, ◌+◌, String, Bool, true, false, ◌<>◌, Option, none, some, List, [], ◌∷◌, ◌++◌, map,
  ◌==◌, nat_beq, if◌then◌else◌,
}
use operator_sdk.Base.Text.{codes, same}
use operator_sdk.Base.Split.{Text}
use operator_sdk.Errors.{Error, failure, wrap, message, is_not_found, Result, ok, err}
use operator_sdk.Util.K8sutil.{format_operator_name_dns1123, trim_dns1123_label}
use operator_sdk.Olm.Client.{Attempt, done, again, stop, Poller}
use operator_sdk.Olm.Registry.ConfigMaps.{
  Gzip, ConfigMap, new_gzip_writer, partitioned_config_maps, get_file_path, default_config_map_key,
  digits,
}

-- The parts of a pod that the code sets.
pub record VolumeMount : Type 0 where
  pub name : Text
  pub mount_path : Text
  pub sub_path : Text

-- A config map with the one item that is mounted, or an empty directory.
pub data VolumeSource : Type 0 where
  config_map_item : (name key path : Text) → VolumeSource
  empty_dir : VolumeSource

pub record Volume : Type 0 where
  pub name : Text
  pub source : VolumeSource

pub record Container : Type 0 where
  pub name : Text
  pub image : Text
  pub command : List Text
  pub ports : List (Text × ℕ)
  pub mounts : List VolumeMount
  pub is_restricted : Bool
  pub image_pull_policy : Text

-- `container` is the only one of the pod.
pub record Pod : Type 0 where
  pub name : Text
  pub namespace : Text
  pub volumes : List Volume
  pub container : Container
  pub init_containers : List Container
  pub service_account : Text
  pub is_restricted : Bool

pub data Call : Type 0 where
  create_map update_map : ConfigMap → Call
  create_pod : Pod → Call

abbrev pub Outcome : Type 0 → Type 0
Outcome A = List Call × Result A

-- The fields of `FBCRegistryPod` that a caller sets, the configuration, and the catalog source.
-- `bundle_items` are the image tags.
pub record FbcRegistryPod : Type 0 where
  pub bundle_items : List Text
  pub image_pull_policy : Text
  pub index_image : Text
  pub init_image : Text
  pub grpc_port : ℕ
  pub fbc_content : List (Result Text)
  pub fbc_index_root_dir : Text
  pub security_context : Text
  pub config_map_name : Text
  pub namespace : Text
  pub service_account : Text

-- What the code calls: the libraries, and the cluster by its answers at the k-th attempt.
pub record Env : Type 0 where
  pub gzip : Gzip
  pub size : ConfigMap → ℕ
  pub is_dns1123_label : Text → List String
  pub join_path : Text → Text → Text
  -- `controllerutil.SetOwnerReference` of the catalog source.
  pub set_map_owner : ConfigMap → Option Error
  pub set_pod_owner : Pod → Option Error
  -- `retry.RetryOnConflict`: the attempt whose answer it returns.
  pub last_try : (ℕ → Option Error) → ℕ
  pub get_map : ConfigMap → ℕ → Result ConfigMap
  pub map_created : ConfigMap → ℕ → Option Error
  pub map_updated : ConfigMap → ℕ → Option Error
  pub pod_created : Pod → Option Error
  pub pod_phase : ℕ → Result String
  pub poller : Poller

abbrev pub default_grpc_port : ℕ
default_grpc_port = 50051

abbrev pub default_container_name : Text
default_container_name = codes "registry-grpc"

abbrev pub default_init_container_name : Text
default_init_container_name = codes "registry-grpc-init"

abbrev pub default_container_port_name : Text
default_container_port_name = codes "grpc"

-- The loop of `validate`.
unfoldable pub check_items : List Text → Option Error
check_items [] = none
check_items (t ∷ ts) =
    let rest = check_items ts in
    if same t [] then some (failure "bundle image cannot be empty") else rest

unfoldable pub validate : FbcRegistryPod → Option Error
unfolding check_items
validate f = elim f.bundle_items [
  | [] ↦ some (failure "bundle image set cannot be empty")
  | t ∷ ts ↦ elim (check_items (t ∷ ts)) [
    | some e ↦ some e
    | none ↦ if same f.index_image [] then some (failure "index image cannot be empty") else none
  ]
]

-- The defaults of `init`, for a catalog source of that name.
unfoldable pub with_defaults : FbcRegistryPod → Text → FbcRegistryPod
with_defaults f cs = record f {
  grpc_port = if nat_beq f.grpc_port 0 then default_grpc_port else f.grpc_port;
  fbc_index_root_dir =
      if same f.fbc_index_root_dir []
      then b'/' ∷ (cs ++ codes "-configs")
      else f.fbc_index_root_dir;
  config_map_name =
      if same f.config_map_name [] then cs ++ codes "-configmap" else f.config_map_name;
}

-- The last of a list that is not empty.
abbrev pub last : Text → List Text → Text
last t [] = t
last t (u ∷ us) = last u us

module _ (E : Env) where
  unfoldable pub get_pod_name : Text → Text
  unfolding format_operator_name_dns1123 trim_dns1123_label
  get_pod_name image = trim_dns1123_label (format_operator_name_dns1123 E.is_dns1123_label image)

  -- The object that is updated: what was read, or an empty one, with the new data.
  unfoldable pub merged_map : Result ConfigMap → ConfigMap → ConfigMap
  merged_map (ok found) cm = record found { binary_data = cm.binary_data }
  merged_map (err e) cm = record {
    namespace = [];
    name = [];
    encoding = [];
    binary_data = cm.binary_data;
  }

  -- One attempt of `createOrUpdateConfigMap`: its call and its answer.
  unfoldable pub upload_attempt : ConfigMap → ℕ → Call × Option Error
  unfolding merged_map
  upload_attempt cm k =
      let update = merged_map (E.get_map cm k) cm in
      let updated : Call × Option Error = (update_map update, E.map_updated update k) in
      elim (E.get_map cm k) [
        | ok found ↦ updated
        | err e ↦
            if is_not_found e
            then elim (E.map_created cm k) [
              | none ↦ (create_map cm, none)
              | some c ↦ (create_map cm, some (wrap "error creating ConfigMap" c))
            ]
            else updated
      ]

  -- The calls of the attempts up to the last.
  unfoldable pub upload_calls : ConfigMap → ℕ → List Call
  unfolding upload_attempt
  upload_calls cm zero = (upload_attempt cm 0).0 ∷ []
  upload_calls cm (suc k) = upload_calls cm k ++ ((upload_attempt cm (suc k)).0 ∷ [])

  unfoldable pub create_or_update_config_map : ConfigMap → List Call × Option Error
  unfolding upload_attempt upload_calls
  create_or_update_config_map cm =
      let n = E.last_try (λ k. (upload_attempt cm k).1) in
      (
        upload_calls cm n,
        elim (upload_attempt cm n).1 [
          | none ↦ none
          | some e ↦ some (wrap "error updating ConfigMap" e)
        ],
      )

  -- The loop of `createConfigMaps`.
  unfoldable pub upload_maps : List ConfigMap → List Call × Option Error
  unfolding create_or_update_config_map
  upload_maps [] = ([], none)
  upload_maps (cm ∷ cms) =
      let (rest, result) = upload_maps cms in
      let (calls, answer) = create_or_update_config_map cm in
      elim (E.set_map_owner cm) [
        | some e ↦ ([], some (failure ("set configmap owner reference: " <> message e)))
        | none ↦ elim answer [ some e ↦ (calls, some e) | none ↦ (calls ++ rest, result) ]
      ]

  unfoldable pub create_config_maps : FbcRegistryPod → Outcome (List ConfigMap)
  unfolding partitioned_config_maps upload_maps
  create_config_maps f =
      elim (partitioned_config_maps E.gzip E.size f.config_map_name (new_gzip_writer f.namespace)
        f.fbc_content) [
          | err e ↦ ([], err e)
          | ok cms ↦
              let (calls, result) = upload_maps cms in
              elim result [ some e ↦ (calls, err e) | none ↦ (calls, ok cms) ]
        ]

  -- The volumes and mounts that the loop of `podForBundleRegistry` adds for a config map.
  unfoldable pub map_volumes : ConfigMap → List Volume
  unfolding trim_dns1123_label get_file_path
  map_volumes cm =
      record {
        name = trim_dns1123_label (cm.name ++ codes "-volume");
        source = config_map_item cm.name default_config_map_key (E.join_path cm.name get_file_path);
      }
      ∷ record { name = trim_dns1123_label (cm.name ++ codes "-unzip"); source = empty_dir }
      ∷ []

  unfoldable pub volumes : List ConfigMap → List Volume
  unfolding map_volumes
  volumes [] = []
  volumes (cm ∷ cms) = map_volumes cm ++ volumes cms

  unfoldable pub shared_mount : Text → ConfigMap → VolumeMount
  unfolding trim_dns1123_label
  shared_mount root cm = record {
    name = trim_dns1123_label (cm.name ++ codes "-unzip");
    mount_path = E.join_path root cm.name;
    sub_path = cm.name;
  }

  unfoldable pub gzip_mount : Text → ConfigMap → VolumeMount
  unfolding trim_dns1123_label
  gzip_mount root cm = record {
    name = trim_dns1123_label (cm.name ++ codes "-volume");
    mount_path = E.join_path (E.join_path (codes "/compressed") root) cm.name;
    sub_path = cm.name;
  }

  -- The container that `addGZIPInitContainer` adds.
  unfoldable pub gzip_init_container :
      FbcRegistryPod → List VolumeMount → List VolumeMount → Container
  gzip_init_container f mounts gzip = record {
    name = default_init_container_name;
    image = f.init_image;
    command =
        codes "sh"
        ∷ codes "-c"
        ∷ (codes "for dir in /compressed"
            ++ (f.fbc_index_root_dir
                ++ codes
                    "/*configmap-partition*; do for f in ${dir}/*; do file=\"${f%.*}\";file=\"${file#/compressed}\";cat ${f} | gzip -d -c > \"${file}\";done;done;"))
        ∷ [];
    ports = [];
    mounts = mounts ++ gzip;
    is_restricted = false;
    image_pull_policy = [];
  }

  -- The pod of `podForBundleRegistry`, for the last bundle image and the config maps.
  unfoldable pub registry_pod : FbcRegistryPod → Text → List ConfigMap → Pod
  unfolding get_pod_name volumes shared_mount gzip_mount gzip_init_container digits
  registry_pod f image cms =
      let mounts = map (shared_mount f.fbc_index_root_dir) cms in
      record {
        name = get_pod_name image;
        namespace = f.namespace;
        volumes = volumes cms;
        container = record {
          name = default_container_name;
          image = f.index_image;
          command =
              codes "sh"
              ∷ codes "-c"
              ∷ (codes "opm serve "
                  ++ (f.fbc_index_root_dir ++ (codes " -p " ++ digits f.grpc_port f.grpc_port)))
              ∷ [];
          ports = (default_container_port_name, f.grpc_port) ∷ [];
          mounts = mounts;
          is_restricted = false;
          image_pull_policy = [];
        };
        init_containers =
            gzip_init_container f mounts (map (gzip_mount f.fbc_index_root_dir) cms) ∷ [];
        service_account = f.service_account;
        is_restricted = false;
      }

  -- `podForBundleRegistry`; `validate` has seen that there is an item.
  unfoldable pub pod_for_bundle_registry : FbcRegistryPod → Text → List Text → Outcome Pod
  unfolding create_config_maps registry_pod
  pod_for_bundle_registry f t ts =
      let (calls, result) = create_config_maps f in
      elim result [
        | err e ↦ (calls, err (wrap "configMap error" e))
        | ok cms ↦ (calls, ok (registry_pod f (last t ts) cms))
      ]

  -- `init`, behind the defaults.
  unfoldable pub init : FbcRegistryPod → Outcome Pod
  unfolding validate pod_for_bundle_registry
  init f = elim (validate f) [
    | some e ↦ ([], err (failure ("invalid FBC registry pod: " <> message e)))
    | none ↦ elim f.bundle_items [
      | [] ↦ ([], err (failure "index out of range"))
      | t ∷ ts ↦
          let (calls, result) = pod_for_bundle_registry f t ts in
          elim result [
            | err e ↦
                (calls, err (failure ("error building registry pod definition: " <> message e)))
            | ok pod ↦ (calls, ok pod)
          ]
    ]
  ]

  -- The security context and the pull policy that `Create` sets.
  unfoldable pub hardened : FbcRegistryPod → Pod → Pod
  hardened f pod =
      let restricted = same f.security_context (codes "restricted") in
      let policy = if same f.image_pull_policy [] then codes "Always" else f.image_pull_policy in
      record pod {
        is_restricted = restricted;
        container = record pod.container { is_restricted = restricted; image_pull_policy = policy };
      }

  -- `podCheck`
  unfoldable pub pod_check : ℕ → Attempt
  pod_check k = elim (E.pod_phase k) [
    | err e ↦ stop (wrap "error getting pod" e)
    | ok phase ↦ if phase == "Running" then done else again
  ]

  unfoldable pub check_pod_status : Option Error
  unfolding pod_check
  check_pod_status = elim (E.poller.poll pod_check) [
    | none ↦ none
    | some e ↦ some (failure ("error waiting for registry pod to run: " <> message e))
  ]

  -- `Create`, behind `init`.
  unfoldable pub create_inited : FbcRegistryPod → Pod → Outcome Pod
  unfolding hardened check_pod_status
  create_inited f pod = elim (E.set_pod_owner pod) [
    | some e ↦ ([], err (wrap "error setting owner reference" e))
    | none ↦
        let p = hardened f pod in
        elim (E.pod_created p) [
          | some e ↦ (create_pod p ∷ [], err (wrap "error creating pod" e))
          | none ↦ elim check_pod_status [
            | some e ↦ (create_pod p ∷ [], err (wrap "registry pod did not become ready" e))
            | none ↦ (create_pod p ∷ [], ok p)
          ]
        ]
  ]

  unfoldable pub create : FbcRegistryPod → Text → Outcome Pod
  unfolding with_defaults init create_inited
  create f cs =
      let (calls, result) = init (with_defaults f cs) in
      elim result [
        | err e ↦ (calls, err e)
        | ok pod ↦
            let (more, created) = create_inited (with_defaults f cs) pod in (calls ++ more, created)
      ]
