-- ===== src/Olm/Registry/FbcPod/Ready.antt =====
-- Create: what holds of the pod that it returns.
use operator_sdk.Base.{true, false, if◌then◌else◌, All, Any, ◌≤◌, List, [], ◌≡◌, length}
use operator_sdk.Base.Split.{Text}
use operator_sdk.Base.Text.{same, codes}
use operator_sdk.Util.K8sutil.{format_operator_name_dns1123, dns1123_label_max_length}
use operator_sdk.Util.K8sutil.Labels.{
  IsLabel, IsLabelTest, format_operator_name_dns1123-IsLabel, trim_dns1123_label-IsLabel,
  length-trim_dns1123_label,
}
use operator_sdk.Olm.Registry.ConfigMaps.{ConfigMap}
use operator_sdk.Olm.Registry.FbcPod.Wiring.{IsMounted, IsServed}
use operator_sdk.Olm.Registry.FbcPod.{Pod, FbcRegistryPod, Env, get_pod_name}

module _ (E : Env) where
  -- The name of the registry pod is a DNS label, or empty, and not too long.
  pub get_pod_name-IsLabel :
      IsLabelTest E.is_dns1123_label
      → (image : Text)
      → IsLabel (get_pod_name E image) × (length (get_pod_name E image) ≤ dns1123_label_max_length)
  unfolding get_pod_name
  get_pod_name-IsLabel T image = (
    trim_dns1123_label-IsLabel _ (format_operator_name_dns1123-IsLabel _ T image),
    length-trim_dns1123_label (format_operator_name_dns1123 E.is_dns1123_label image),
  )

  -- The pod with the security and the pull policy of the fields: restricted, with its container,
  -- exactly if that is asked for, and `Always` where no policy is given.
  abbrev pub IsHardened : FbcRegistryPod → Pod → Pod → Type 0
  IsHardened f p q =
      (if same f.security_context (codes "restricted")
        then (q.is_restricted ≡ true) × (q.container.is_restricted ≡ true)
        else (q.is_restricted ≡ false) × (q.container.is_restricted ≡ false))
      × (q.container.image_pull_policy
          ≡ (if same f.image_pull_policy [] then codes "Always" else f.image_pull_policy))
      × (record q {
        is_restricted = p.is_restricted;
        container = record q.container {
          is_restricted = p.container.is_restricted;
          image_pull_policy = p.container.image_pull_policy;
        };
      }
          ≡ p)

  -- The pod is named by the bundle image and serves the index image from the maps: its mounts are volumes of the pod, and each map
  -- is the data of a volume that the init container mounts.
  pub record IsRegistry (f : FbcRegistryPod) (bundle : Text) (cms : List ConfigMap) (p : Pod)
      : Type 0 where
    pub image : p.container.image ≡ f.index_image
    pub name : p.name ≡ get_pod_name E bundle
    pub namespace : p.namespace ≡ f.namespace
    pub service_account : p.service_account ≡ f.service_account
    pub port : Any (λ (name, n). n ≡ f.grpc_port) p.container.ports
    pub mounts : All (IsMounted p.volumes) p.container.mounts
    pub init_container :
        Any
          (λ c.
            (c.image ≡ f.init_image)
            × All (IsMounted p.volumes) c.mounts
            × All (IsServed E c.mounts p.volumes) cms)
          p.init_containers

  -- No bundle image is empty, and the index image is not.
  abbrev pub IsValid : FbcRegistryPod → Type 0
  IsValid f = All (λ (t : Text). ¬ (t ≡ [])) f.bundle_items × ¬ (f.index_image ≡ [])
