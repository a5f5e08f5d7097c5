-- ===== src/Collector/Tests.antt =====
-- Concrete inputs for the theorems on the collector.
use operator_sdk.Base.{String, false, not, List, [], ◌∷◌, ◌≡◌, refl, any, if◌then◌else◌, ◌==◌}
use operator_sdk.Collector.FormatName.{format_name}
use operator_sdk.Collector.Permissions.{Binding, Manifests, split_csv_permissions_objects}
use operator_sdk.Collector.Permissions.Laws.{is_nil, distinct, bound_roles, in_perms-nil_iff}
use operator_sdk.Collector.RelatedImages.{
  RelatedImage, Collector, collect, Container, Deployment, FinalImage, collect_from_deployments,
  find_related_images, collect_from_containers, collect_from_environment, final_images, final_image,
}
use operator_sdk.Collector.RelatedImages.Collected.{find_related_images-listed}
use operator_sdk.Errors.{ok}
use operator_sdk.Collector.RelatedImages.Laws.{listed}

abbrev binding : String → Binding
binding name = record {
  name = name;
  role_ref = record { api_group = "rbac.authorization.k8s.io"; kind = "Role"; name = "leader" };
  subjects = record { kind = "ServiceAccount"; name = "manager" } ∷ [];
}

-- Two bindings of one Role to the service account of the deployment.
abbrev manifests : Manifests
manifests = record {
  deployments = "manager" ∷ [];
  roles =
      record { name = "leader"; rules = "leases" ∷ [] }
      ∷ record { name = "viewer"; rules = "pods" ∷ [] }
      ∷ [];
  cluster_roles = [];
  role_bindings = binding "a" ∷ binding "b" ∷ [];
  cluster_role_bindings = [];
  service_accounts = "manager" ∷ [];
}

in_perms-nil_iff_example :
    any is_nil (split_csv_permissions_objects manifests []).in_perms
    ≡ not (distinct (bound_roles manifests []))
in_perms-nil_iff_example = in_perms-nil_iff manifests []

abbrev empty : Collector
empty = record { related_images = []; seen_related_images = [] }

abbrev container : String → String → String → Container
container name variable image = record {
  name = name;
  env = record { name = variable; value = image; value_from = false } ∷ [];
}

-- One image under two names in the containers of one deployment.
abbrev deployments : List Deployment
deployments =
    record {
      name = "manager";
      containers =
          container "a" "RELATED_IMAGE_PROXY" "quay.io/proxy"
          ∷ container "b" "RELATED_IMAGE_SIDECAR" "quay.io/proxy"
          ∷ [];
      init_containers = [];
    }
    ∷ []

abbrev listed_images : List FinalImage
listed_images = record { name = ""; image = "quay.io/proxy" } ∷ []

images_found : find_related_images deployments ≡ ok listed_images
unfolding find_related_images collect_from_deployments collect_from_containers
    collect_from_environment final_images collect format_name final_image
images_found = refl

find_related_images-listed_example :
    (c : Collector) × (collect_from_deployments deployments empty ≡ ok c)
    × (listed "quay.io/proxy" listed_images ≡ (
        if any (λ (i : RelatedImage). i.image_ref == "quay.io/proxy") c.related_images
        then 1
        else 0))
find_related_images-listed_example =
    find_related_images-listed deployments listed_images "quay.io/proxy" images_found

format_name-cool_image : format_name "RELATED_IMAGE_This_IS_a_cool_image" ≡ "this-is-a-cool-image"
unfolding format_name
format_name-cool_image = refl
