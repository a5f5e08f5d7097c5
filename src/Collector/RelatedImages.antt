-- ===== src/Collector/RelatedImages.antt =====
-- internal/cmd/operator-sdk/generate/internal/relatedimages.go: the related images of a bundle,
-- from the environment of the deployments.
pub mod Laws
pub mod Collected
use operator_sdk.Base.{
  ℕ, String, Bool, true, false, not, ◌||◌, ◌&&◌, ◌<>◌, Option, none, some, List, [], ◌∷◌, ◌++◌,
  ◌==◌, any, filter, contains, length, ltb, starts_with, if◌then◌else◌,
}
use operator_sdk.Collector.FormatName.{format_name, related_image_prefix}
use operator_sdk.Errors.{Error, failure, Result, ok, err}

-- An environment variable; `value_from` says whether that field is set.
pub record EnvVar : Type 0 where
  pub name : String
  pub value : String
  pub value_from : Bool

pub record Container : Type 0 where
  pub name : String
  pub env : List EnvVar

pub record Deployment : Type 0 where
  pub name : String
  pub containers : List Container
  pub init_containers : List Container

pub record RelatedImage : Type 0 where
  pub name : String
  pub image_ref : String
  pub container_ref : String

-- `relatedImageCollector`. The maps by name and by reference hold the images of the list with
-- the name or reference, in order, and are read off the list.
pub record Collector : Type 0 where
  pub related_images : List RelatedImage
  pub seen_related_images : List String

-- `collect`
unfoldable pub collect : String → String → String → Collector → Collector
collect name image_ref container_ref c =
    let key = name <> "-" <> image_ref in
    if contains c.seen_related_images key then c else record {
      related_images =
          c.related_images
          ++ (record { name = name; image_ref = image_ref; container_ref = container_ref } ∷ []);
      seen_related_images = key ∷ c.seen_related_images;
    }

-- `collectFromEnvironment`
unfoldable pub collect_from_environment : String → List EnvVar → Collector → Result Collector
collect_from_environment container_ref [] c = ok c
collect_from_environment container_ref (v ∷ vs) c =
    let next = collect_from_environment container_ref vs (
      if starts_with v.name related_image_prefix
      then collect (format_name v.name) v.value container_ref c
      else c) in
    if starts_with v.name related_image_prefix && v.value_from
    then err (failure ("related images with valueFrom field unsupported, found in " <> v.name))
    else next

-- The loop over the containers of a deployment, of which there are `n`.
unfoldable pub collect_from_containers : String → ℕ → List Container → Collector → Result Collector
collect_from_containers name n [] c = ok c
collect_from_containers name n (k ∷ ks) c =
    elim (collect_from_environment (if ltb 1 n then name <> "-" <> k.name else name) k.env c) [
      | err e ↦ err e
      | ok c' ↦ collect_from_containers name n ks c'
    ]

unfoldable pub collect_from_deployments : List Deployment → Collector → Result Collector
collect_from_deployments [] c = ok c
collect_from_deployments (d ∷ ds) c =
    let ks = d.containers ++ d.init_containers in
    elim (collect_from_containers d.name (length ks) ks c) [
      | err e ↦ err e
      | ok c' ↦ collect_from_deployments ds c'
    ]

-- `c.relatedImagesByName[name]` and `c.relatedImagesByImageRef[ref]`
abbrev pub by_name : String → List RelatedImage → List RelatedImage
by_name name = filter (λ i. i.name == name)

abbrev pub by_image_ref : String → List RelatedImage → List RelatedImage
by_image_ref ref = filter (λ i. i.image_ref == ref)

pub record FinalImage : Type 0 where
  pub name : String
  pub image : String

-- The body of the loop of `collectedRelatedImages`; `none` is its `continue`.
unfoldable pub final_image : List RelatedImage → RelatedImage → Option FinalImage
final_image images i =
    let name : String =
      (if ltb 1 (length (by_name i.name images))
        then i.container_ref <> "-" <> i.name
        else i.name) in
    elim (by_image_ref i.image_ref images) [
      | [] ↦ some (record { name = name; image = i.image_ref })
      | f ∷ [] ↦ some (record { name = name; image = i.image_ref })
      | f ∷ g ∷ rest ↦
          if f.name == i.name then some (record { name = ""; image = i.image_ref }) else none
    ]

unfoldable pub final_images : List RelatedImage → List RelatedImage → List FinalImage
final_images images [] = []
final_images images (i ∷ is) =
    let rest = final_images images is in
    elim (final_image images i) [ none ↦ rest | some f ↦ f ∷ rest ]

-- `FindRelatedImages`
unfoldable pub find_related_images : List Deployment → Result (List FinalImage)
find_related_images ds =
    elim (collect_from_deployments ds (record { related_images = []; seen_related_images = [] })) [
      | err e ↦ err e
      | ok c ↦ ok (final_images c.related_images c.related_images)
    ]
