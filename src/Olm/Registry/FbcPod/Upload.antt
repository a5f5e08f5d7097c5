-- ===== src/Olm/Registry/FbcPod/Upload.antt =====
-- createConfigMaps: what the cluster has when it succeeds.
use mathlib.Core.Path.{subst}
use operator_sdk.Base.{
  ◌⊎◌, Bool-cases, sym, ℕ, zero, suc, false, none, List, [], ◌∷◌, ◌++◌, ◌≡◌, refl, arith, All, Any,
  Any-append_left, Any-append_right, All-weaken, inl, inr, Option-cases,
}
use operator_sdk.Errors.{Error, is_not_found, Result, Result-cases, ok, err}
use operator_sdk.Olm.Registry.ConfigMaps.{ConfigMap, partitioned_config_maps, new_gzip_writer}
use operator_sdk.Olm.Registry.FbcPod.{
  Call, create_map, update_map, Env, FbcRegistryPod, merged_map, upload_attempt, upload_calls,
  create_or_update_config_map, upload_maps, create_config_maps,
}

module _ (E : Env) where
  -- One of the calls created the config map, or updated one with its data, and the cluster accepted
  -- it.
  unfoldable pub IsUploaded : List Call → ConfigMap → Type 0
  IsUploaded calls cm =
      (k : ℕ) × (call : Call) × Any (λ c. c ≡ call) calls
      × (((call ≡ create_map cm) × (E.map_created cm k ≡ none))
          ⊎ ((m : ConfigMap) × (call ≡ update_map m)
              × (m.binary_data ≡ cm.binary_data)
              × (E.map_updated m k ≡ none)))

  merged_map-data :
      (found : Result ConfigMap) (cm : ConfigMap)
      → (merged_map E found cm).binary_data ≡ cm.binary_data
  unfolding merged_map
  merged_map-data (ok found) cm = refl
  merged_map-data (err e) cm = refl

  upload_attempt-accepted :
      (cm : ConfigMap) (k : ℕ)
      → (upload_attempt E cm k).1 ≡ none
      → (((upload_attempt E cm k).0 ≡ create_map cm) × (E.map_created cm k ≡ none))
        ⊎ ((m : ConfigMap) × ((upload_attempt E cm k).0 ≡ update_map m)
            × (m.binary_data ≡ cm.binary_data)
            × (E.map_updated m k ≡ none))
  unfolding upload_attempt
  upload_attempt-accepted cm k h =
      let m = merged_map E (E.get_map cm k) cm in
      let same_data = merged_map-data (E.get_map cm k) cm in
      elim (Result-cases (E.get_map cm k)) [
        | inl (found, e) ↦ inr (m, ground (arith, e), same_data, ground (arith, e, h))
        | inr (x, e) ↦ elim (Bool-cases (is_not_found x)) [
          | inr n ↦ inr (m, ground (arith, e, n), same_data, ground (arith, e, n, h))
          | inl n ↦ elim (Option-cases (E.map_created cm k)) [
            | inl c ↦ inl (ground (arith, e, n, c), c)
            | inr (y, c) ↦ absurd (ground (arith, e, n, c, h))
          ]
        ]
      ]

  Any-upload_calls :
      (cm : ConfigMap) (k : ℕ) → Any (λ c. c ≡ (upload_attempt E cm k).0) (upload_calls E cm k)
  unfolding upload_calls
  Any-upload_calls cm zero = inl refl
  Any-upload_calls cm (suc k) =
      Any-append_right _ (upload_calls E cm k) ((upload_attempt E cm (suc k)).0 ∷ []) (inl refl)

  create_or_update_config_map-IsUploaded :
      (cm : ConfigMap)
      → (create_or_update_config_map E cm).1 ≡ none
      → IsUploaded (create_or_update_config_map E cm).0 cm
  unfolding create_or_update_config_map IsUploaded
  create_or_update_config_map-IsUploaded cm h =
      let n = E.last_try (λ k. (upload_attempt E cm k).1) in
      (
        n,
        (upload_attempt E cm n).0,
        Any-upload_calls cm n,
        elim (Option-cases (upload_attempt E cm n).1) [
          | inl e ↦ upload_attempt-accepted cm n e
          | inr (x, e) ↦ absurd (ground (arith, e, h))
        ],
      )

  weaken_left : (xs ys : List Call) (cm : ConfigMap) → IsUploaded xs cm → IsUploaded (xs ++ ys) cm
  unfolding IsUploaded
  weaken_left xs ys cm (k, c, h, a) = (k, c, Any-append_left _ xs ys h, a)

  weaken_right : (xs ys : List Call) (cm : ConfigMap) → IsUploaded ys cm → IsUploaded (xs ++ ys) cm
  unfolding IsUploaded
  weaken_right xs ys cm (k, c, h, a) = (k, c, Any-append_right _ xs ys h, a)

  upload_maps-cons :
      (cm : ConfigMap) (cms : List ConfigMap)
      → (upload_maps E (cm ∷ cms)).1 ≡ none
      → ((create_or_update_config_map E cm).1 ≡ none)
        × ((upload_maps E cms).1 ≡ none)
        × ((upload_maps E (cm ∷ cms)).0
            ≡ (create_or_update_config_map E cm).0 ++ (upload_maps E cms).0)
  unfolding upload_maps
  upload_maps-cons cm cms h = ground (arith, h)

  upload_maps-IsUploaded :
      (cms : List ConfigMap)
      → (upload_maps E cms).1 ≡ none
      → All (IsUploaded (upload_maps E cms).0) cms
  upload_maps-IsUploaded [] h = tt
  upload_maps-IsUploaded (cm ∷ cms) h =
      let (a, b, e) = upload_maps-cons cm cms h in
      let first = (create_or_update_config_map E cm).0 in
      let rest = (upload_maps E cms).0 in
      subst (λ calls. All (IsUploaded calls) (cm ∷ cms)) (sym e)
        (
          weaken_left first rest cm (create_or_update_config_map-IsUploaded cm a),
          All-weaken (weaken_right first rest) cms (upload_maps-IsUploaded cms b),
        )

  create_config_maps-ok :
      (f : FbcRegistryPod) (cms : List ConfigMap)
      → (create_config_maps E f).1 ≡ ok cms
      → (partitioned_config_maps E.gzip E.size f.config_map_name
            (new_gzip_writer f.namespace)
            f.fbc_content
          ≡ ok cms)
        × ((upload_maps E cms).1 ≡ none)
        × ((create_config_maps E f).0 ≡ (upload_maps E cms).0)
  unfolding create_config_maps
  create_config_maps-ok f cms h = ground (arith, h)

  -- Where createConfigMaps succeeds, it returns the maps into which the catalog is partitioned, and
  -- for each of them it made a call that sent the data of the map and that the cluster accepted.
  pub create_config_maps-IsUploaded :
      (f : FbcRegistryPod) (cms : List ConfigMap)
      → (create_config_maps E f).1 ≡ ok cms
      → (partitioned_config_maps E.gzip E.size f.config_map_name
            (new_gzip_writer f.namespace)
            f.fbc_content
          ≡ ok cms)
        × All (IsUploaded (create_config_maps E f).0) cms
  create_config_maps-IsUploaded f cms h =
      let (p, u, e) = create_config_maps-ok f cms h in
      (p, subst (λ calls. All (IsUploaded calls) cms) (sym e) (upload_maps-IsUploaded cms u))

  -- A config map that cannot be read, for another reason than that it is missing, is taken for one
  -- that was read: an update of an object with no name is sent.
  pub unread_map_updated :
      (cm : ConfigMap) (k : ℕ) (e : Error)
      → E.get_map cm k ≡ err e
      → is_not_found e ≡ false
      → (m : ConfigMap) × ((upload_attempt E cm k).0 ≡ update_map m)
        × (m.name ≡ [])
        × (m.namespace ≡ [])
  unfolding upload_attempt merged_map
  unread_map_updated cm k e h n = (merged_map E (err e) cm, ground (arith, h, n), refl, refl)
