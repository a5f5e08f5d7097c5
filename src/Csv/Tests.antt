-- ===== src/Csv/Tests.antt =====
-- The theorems on the CSV at concrete manifests.
use operator_sdk.Base.{
  if◌then◌else◌, ℕ, String, true, false, List, [], ◌∷◌, ◌++◌, ◌≡◌, refl, map, ◌==◌, Option, none,
  some, Any, All, ◌⊎◌, ◌↔◌,
}
use operator_sdk.Collector.NameMap.{lookup, put}
use operator_sdk.Collector.Permissions.{
  Role, Binding, Manifests, role, cluster_role, csv_service_accounts,
}
use operator_sdk.Csv.{CrdDescription, Crd, apply_roles, apply_custom_resource_definitions}
use operator_sdk.Csv.Granted.{binding_rules}
use operator_sdk.Csv.Listed.{IsEntry, apply_roles-listed}
use operator_sdk.Csv.Definitions.{
  key_of, IsKept, v1_keys, v1beta1_keys, apply_custom_resource_definitions-IsKept,
}
use operator_sdk.Csv.Roles.{named_rules, is_account}
use operator_sdk.Csv.Webhooks.{Service, WebhookDescription, Deployment, find_matching_dep_name}
use operator_sdk.Csv.Webhooks.Conversion.{WebhookConversion, V1Crd, get_conv_webhooks}
use operator_sdk.Csv.Webhooks.Applied.{conversion_to_webhook_description}
use operator_sdk.Csv.Webhooks.Applied.Laws.{
  IsMapOrder, count_described, conversion_to_webhook_description-get_conv_webhooks, is_some,
  HasPath,
}
use operator_sdk.Csv.Webhooks.Matching.{IsUnselected, IsSelected, find_matching_dep_name-IsSelected}

abbrev leader : Role
leader = record { name = "leader"; rules = "leases" ∷ [] }

abbrev viewer : Role
viewer = record { name = "viewer"; rules = "pods" ∷ "services" ∷ [] }

abbrev binding : String → String → Binding
binding kind name = record {
  name = name;
  role_ref = record { api_group = "rbac.authorization.k8s.io"; kind = kind; name = name };
  subjects = record { kind = "ServiceAccount"; name = "manager" } ∷ [];
}

-- A service account with a role and a cluster role in its namespace.
abbrev manifests : Manifests
manifests = record {
  deployments = "manager" ∷ [];
  roles = leader ∷ [];
  cluster_roles = viewer ∷ [];
  role_bindings = binding "Role" "leader" ∷ binding "ClusterRole" "viewer" ∷ [];
  cluster_role_bindings = [];
  service_accounts = "manager" ∷ [];
}

abbrev given : List String
given = "leases" ∷ "pods" ∷ "services" ∷ []

apply_roles-listed_example :
    (ps : List (String × List String)) × (apply_roles
        (λ m. m)
        manifests
        (role leader ∷ cluster_role viewer ∷ [])
        []
      ≡ some ps)
    × (Any (IsEntry "manager" given) ps ↔ (
        (is_account ("manager" ∷ []) [] "manager" ≡ true)
        × (binding_rules "manager"
              (named_rules (role leader ∷ cluster_role viewer ∷ []))
              manifests.role_bindings
            ≡ given)
        × ¬ (given ≡ [])))
apply_roles-listed_example =
    apply_roles-listed (λ m. m) (λ P m. (λ h. h, λ h. h)) manifests
      (role leader ∷ cluster_role viewer ∷ []) [] refl "manager" given

-- The rules of the example are those of the manifests.
granted_rules :
    apply_roles (λ m. m) manifests (role leader ∷ cluster_role viewer ∷ []) []
    ≡ some (("manager", given) ∷ [])
unfolding apply_roles lookup csv_service_accounts put
granted_rules = refl

abbrev owned : List CrdDescription
owned =
    record { name = "dogs.example.com"; version = "v1"; kind = "Dog"; rest = "a dog" }
    ∷ record { name = "cats.example.com"; version = "v1"; kind = "Cat"; rest = "a cat" }
    ∷ []

abbrev dogs : Crd
dogs = record {
  name = "dogs.example.com";
  kind = "Dog";
  version = "";
  versions = record { name = "v1"; served = true } ∷ record { name = "v2"; served = true } ∷ [];
}

abbrev birds : Crd
birds = record { name = "birds.example.com"; kind = "Bird"; version = "v1beta1"; versions = [] }

apply_custom_resource_definitions-IsKept_example :
    let crds = apply_custom_resource_definitions owned (dogs ∷ []) (birds ∷ []) in
    (map key_of crds ≡ v1_keys (dogs ∷ []) ++ v1beta1_keys (birds ∷ []))
    × All (IsKept owned) crds
    × (apply_custom_resource_definitions crds (dogs ∷ []) (birds ∷ []) ≡ crds)
apply_custom_resource_definitions-IsKept_example =
    apply_custom_resource_definitions-IsKept owned (dogs ∷ []) (birds ∷ [])

abbrev deployments : List Deployment
deployments =
    record { name = "bare"; labels = [] }
    ∷ record { name = "manager"; labels = ("app", "operator") ∷ ("tier", "control") ∷ [] }
    ∷ []

find_matching_dep_name-IsSelected_example :
    ((find_matching_dep_name (("app", "operator") ∷ []) deployments ≡ "")
      × All (IsUnselected (("app", "operator") ∷ [])) deployments)
    ⊎ (((find_matching_dep_name (("app", "operator") ∷ []) deployments == "") ≡ false)
        × Any
            (IsSelected
              (("app", "operator") ∷ [])
              (find_matching_dep_name (("app", "operator") ∷ []) deployments))
            deployments)
find_matching_dep_name-IsSelected_example =
    find_matching_dep_name-IsSelected ("app", "operator") [] deployments

found_deployment : find_matching_dep_name (("app", "operator") ∷ []) deployments ≡ "manager"
unfolding find_matching_dep_name lookup
found_deployment = refl

abbrev conversion : ℕ → WebhookConversion
conversion address = record {
  service = record {
    name = "webhook-service";
    port = some (record { address = address; value = 9443 });
    path = some "/convert";
  };
  conversion_review_versions = "v1" ∷ [];
}

-- Two CRDs with the same port and path, by pointers of their own.
abbrev conversions : List (String × WebhookConversion)
conversions = ("dogs.example.com", conversion 1) ∷ ("cats.example.com", conversion 2) ∷ []

abbrev webhook_service : Service
webhook_service = record {
  name = "webhook-service";
  service_type = "ClusterIP";
  selector = ("app", "operator") ∷ [];
  ports = record { port = 9443; target_port = "https" } ∷ [];
}

in_order : IsMapOrder (λ m. m) (λ gs. gs)
in_order = record {
  same_entries = λ name m. refl;
  same_groups = λ name gs. refl;
  entries-All = λ m h. h;
  groups-All = λ gs h. h;
}

abbrev converted : String → ℕ → V1Crd
converted name address = record {
  name = name;
  conversion = some (
      some (record {
        client_config = some (some (conversion address).service);
        conversion_review_versions = "v1" ∷ [];
      }));
}

abbrev crds : List V1Crd
crds = converted "dogs.example.com" 1 ∷ converted "cats.example.com" 2 ∷ []

crds-HasPath : All HasPath (get_conv_webhooks crds [] "webhook-service")
unfolding get_conv_webhooks put
crds-HasPath = (("/convert", refl), (("/convert", refl), tt))

conversion_to_webhook_description-get_conv_webhooks_example :
    (ds : List WebhookDescription) × ((conversion_to_webhook_description
          (λ m. m)
          (λ gs. gs)
          (λ ds. ds)
          (get_conv_webhooks crds [] "webhook-service")
          "manager"
          webhook_service
        ≡ some ds)
      × ((name : String)
          → count_described name ds ≡ (
              if is_some (lookup name (get_conv_webhooks crds [] "webhook-service"))
              then 1
              else 0)))
conversion_to_webhook_description-get_conv_webhooks_example =
    conversion_to_webhook_description-get_conv_webhooks (λ m. m) (λ gs. gs) (λ ds. ds) in_order crds
      [] "webhook-service" "manager" webhook_service crds-HasPath

abbrev described_crds : Option (List WebhookDescription) → List (List String)
described_crds none = []
described_crds (some ds) = map (λ (d : WebhookDescription). d.conversion_crds) ds

-- The CRDs are in descriptions of their own, though they have the same port and path.
groups_by_pointer :
    described_crds (
      conversion_to_webhook_description
        (λ m. m)
        (λ gs. gs)
        (λ ds. ds)
        conversions
        "manager"
        webhook_service)
    ≡ ("dogs.example.com" ∷ []) ∷ ("cats.example.com" ∷ []) ∷ []
unfolding conversion_to_webhook_description lookup
groups_by_pointer = refl
