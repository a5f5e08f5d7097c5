-- ===== src/Olm/Tests/FbcPod.antt =====
-- The theorems on the registry pod of a file-based catalog at a cluster that accepts each call.
use operator_sdk.Base.{none, List, [], ◌∷◌, ◌++◌, ◌≡◌, refl}
use operator_sdk.Base.Text.{codes}
use operator_sdk.Base.Split.{Text}
use operator_sdk.Errors.{ok, err, api_not_found, is_not_found}
use operator_sdk.Olm.Registry.ConfigMaps.{ConfigMap, new_gzip_writer}
use operator_sdk.Olm.Registry.FbcPod.{
  Pod, FbcRegistryPod, Env, with_defaults, create_config_maps, registry_pod, hardened,
}
use operator_sdk.Olm.Client.Once.{once}
use operator_sdk.Olm.Tests.Registry.{store, large}

abbrev env : Env
env = record {
  gzip = store;
  size = large;
  is_dns1123_label = λ t. "invalid" ∷ [];
  join_path = λ a b. a ++ (b'/' ∷ b);
  set_map_owner = λ m. none;
  set_pod_owner = λ p. none;
  last_try = λ c. 0;
  get_map = λ m k. err (api_not_found "configmaps");
  map_created = λ m k. none;
  map_updated = λ m k. none;
  pod_created = λ p. none;
  pod_phase = λ k. ok "Running";
  poller = once;
}

abbrev pod : FbcRegistryPod
pod = record {
  bundle_items = codes "quay.io/etcd:v1" ∷ [];
  image_pull_policy = [];
  index_image = codes "opm";
  init_image = codes "busybox";
  grpc_port = 0;
  fbc_content = ok (codes "a: 1") ∷ ok [] ∷ ok (codes "b: 2") ∷ [];
  fbc_index_root_dir = [];
  security_context = codes "restricted";
  config_map_name = codes "etcd-configmap";
  namespace = codes "ns";
  service_account = codes "default";
}

abbrev cms : List ConfigMap
cms = elim (create_config_maps env pod).1 [ ok ms ↦ ms | err e ↦ [] ]

uploaded : (create_config_maps env pod).1 ≡ ok cms
unfolding create_config_maps new_gzip_writer is_not_found
uploaded = refl

abbrev created_pod : Pod
created_pod =
    hardened env (with_defaults pod (codes "etcd"))
      (registry_pod env (with_defaults pod (codes "etcd")) (codes "quay.io/etcd:v1") cms)
