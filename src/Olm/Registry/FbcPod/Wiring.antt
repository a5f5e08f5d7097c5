-- ===== src/Olm/Registry/FbcPod/Wiring.antt =====
-- podForBundleRegistry: what the containers of the pod mount.
use operator_sdk.Base.{
  List, [], ◌∷◌, ◌++◌, map, ◌≡◌, refl, All, All-append, All-weaken, Any, Any-append_right,
  Any-weaken, inl, inr,
}
use operator_sdk.Base.Split.{Text}
use operator_sdk.Olm.Registry.ConfigMaps.{ConfigMap, default_config_map_key, get_file_path}
use operator_sdk.Olm.Registry.FbcPod.{
  VolumeMount, Volume, config_map_item, FbcRegistryPod, Env, map_volumes, volumes, shared_mount,
  gzip_mount, gzip_init_container, registry_pod,
}

-- The mount names a volume.
abbrev pub IsMounted : List Volume → VolumeMount → Type 0
IsMounted vs m = Any (λ v. v.name ≡ m.name) vs

module _ (E : Env) where
  -- A volume has the data of the config map, and one of the mounts names it.
  abbrev pub IsServed : List VolumeMount → List Volume → ConfigMap → Type 0
  IsServed mounts vs cm =
      Any
        (λ v.
          (v.source
            ≡ config_map_item cm.name default_config_map_key (E.join_path cm.name get_file_path))
          × Any (λ m. m.name ≡ v.name) mounts)
        vs

  shared_mounts-IsMounted :
      (root : Text) (cms : List ConfigMap)
      → All (IsMounted (volumes E cms)) (map (shared_mount E root) cms)
  unfolding volumes shared_mount map_volumes
  shared_mounts-IsMounted root [] = tt
  shared_mounts-IsMounted root (cm ∷ cms) = (
    inr (inl refl),
    All-weaken (λ m h. Any-append_right _ (map_volumes E cm) (volumes E cms) h) _
        (shared_mounts-IsMounted root cms),
  )

  gzip_mounts-IsMounted :
      (root : Text) (cms : List ConfigMap)
      → All (IsMounted (volumes E cms)) (map (gzip_mount E root) cms)
  unfolding volumes gzip_mount map_volumes
  gzip_mounts-IsMounted root [] = tt
  gzip_mounts-IsMounted root (cm ∷ cms) = (
    inl refl,
    All-weaken (λ m h. Any-append_right _ (map_volumes E cm) (volumes E cms) h) _
        (gzip_mounts-IsMounted root cms),
  )

  IsServed-cons :
      (ms : List VolumeMount) (us vs : List Volume) (m : VolumeMount) (cm : ConfigMap)
      → IsServed ms vs cm
      → IsServed (m ∷ ms) (us ++ vs) cm
  IsServed-cons ms us vs m cm h = Any-append_right _ us vs (Any-weaken (λ u p. (p.0, inr p.1)) vs h)

  gzip_mounts-IsServed :
      (root : Text) (cms : List ConfigMap)
      → All (IsServed (map (gzip_mount E root) cms) (volumes E cms)) cms
  unfolding volumes gzip_mount map_volumes
  gzip_mounts-IsServed root [] = tt
  gzip_mounts-IsServed root (cm ∷ cms) = (
    inl (refl, inl refl),
    All-weaken
        (λ c h.
          IsServed-cons (map (gzip_mount E root) cms) (map_volumes E cm) (volumes E cms)
            (gzip_mount E root cm) c h)
        cms (gzip_mounts-IsServed root cms),
  )

  IsServed-append :
      (ms ns : List VolumeMount) (vs : List Volume) (cm : ConfigMap)
      → IsServed ns vs cm
      → IsServed (ms ++ ns) vs cm
  IsServed-append ms ns vs cm h = Any-weaken (λ u p. (p.0, Any-append_right _ ms ns p.1)) vs h

  -- Each mount of the pod's containers names a volume of the pod, and for each config map there is
  -- a volume with its data that the init container mounts.
  pub registry_pod-IsMounted :
      (f : FbcRegistryPod) (image : Text) (cms : List ConfigMap)
      → let pod = registry_pod E f image cms in
        All (IsMounted pod.volumes) pod.container.mounts
        × All
            (λ c. All (IsMounted pod.volumes) c.mounts × All (IsServed c.mounts pod.volumes) cms)
            pod.init_containers
  unfolding registry_pod gzip_init_container
  registry_pod-IsMounted f image cms =
      let root = f.fbc_index_root_dir in
      (
        shared_mounts-IsMounted root cms,
        (
          (
            All-append _ (map (shared_mount E root) cms) (map (gzip_mount E root) cms)
                (shared_mounts-IsMounted root cms) (gzip_mounts-IsMounted root cms),
            All-weaken
                (IsServed-append (map (shared_mount E root) cms) (map (gzip_mount E root) cms)
                  (volumes E cms))
                cms (gzip_mounts-IsServed root cms),
          ),
          tt,
        ),
      )
