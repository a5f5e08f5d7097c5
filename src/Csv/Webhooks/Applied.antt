-- ===== src/Csv/Webhooks/Applied.antt =====
-- internal/generate/clusterserviceversion/clusterserviceversion_updaters.go: the descriptions of the
-- conversion webhooks, and applyWebhooks.
pub mod Laws
use Prim.Native.Char.{code}
use Prim.Native.Nat.{Ordering}
use Prim.Native.String.{compare}
use operator_sdk.Base.{
  ℕ, String, Bool, true, false, ◌&&◌, ◌<>◌, Option, none, some, List, [], ◌∷◌, ◌++◌, nat_beq, ◌==◌,
  if◌then◌else◌,
}
use operator_sdk.Collector.NameMap.{lookup}
use operator_sdk.Csv.Webhooks.{
  Service, Deployment, Webhook, WebhookDescription, conversion_webhook, find_matching_dep_name,
  described_port, ref_port, trim_suffix, admission_webhooks,
}
use operator_sdk.Csv.Webhooks.Conversion.{
  PortPointer, WebhookConversion, V1Crd, V1Beta1Crd, ServicePortPath, get_conv_webhooks, crd_groups,
}

-- `sort.Strings`
unfoldable pub insert_name : String → List String → List String
insert_name x [] = x ∷ []
insert_name x (y ∷ ys) =
    let rest = insert_name x ys in
    elim (compare x y) [
      | Ordering.gt ↦ y ∷ rest
      | Ordering.eq ↦ x ∷ y ∷ ys
      | Ordering.lt ↦ x ∷ y ∷ ys
    ]

unfoldable pub sort_names : List String → List String
unfolding insert_name
sort_names [] = []
sort_names (x ∷ xs) = insert_name x (sort_names xs)

-- `strings.Split(name, ".")[0]`
unfoldable pub first_part : String → String
first_part String.[] = String.[]
first_part (String.◌∷◌ c cs) =
    let rest = first_part cs in if nat_beq (code c) b'.' then String.[] else String.◌∷◌ c rest

unfoldable pub first_parts : List String → String
unfolding first_part
first_parts [] = ""
first_parts (x ∷ xs) = first_part x <> first_parts xs

-- `getGenerateName`, which sorts the names where they are.
unfoldable pub get_generate_name : List String → String
unfolding sort_names first_parts
get_generate_name crds = "c" <> (first_parts (sort_names crds) <> ".kb.io")

unfoldable pub port_number : Option PortPointer → Option ℕ
port_number none = none
port_number (some p) = some p.value

-- The description of a group for the conversion of its first CRD.
unfoldable pub group_description :
    String → Service → ServicePortPath → List String → WebhookConversion → WebhookDescription
unfolding get_generate_name described_port ref_port port_number trim_suffix sort_names
group_description dep_name ws k crds c = record {
  webhook_type = conversion_webhook;
  generate_name = get_generate_name crds;
  rest = "";
  reinvocation_policy = none;
  side_effects = some "None";
  admission_review_versions = c.conversion_review_versions;
  container_port = (described_port (ref_port (port_number k.port)) (some ws)).0;
  target_port = (described_port (ref_port (port_number k.port)) (some ws)).1;
  deployment_name = if dep_name == "" then trim_suffix "-service" c.service.name else dep_name;
  webhook_path = some k.path;
  conversion_crds = sort_names crds;
}

-- The body of the loop over the groups; a group of no CRD ends in a run-time error, which is none.
unfoldable pub describe_group :
    List (String × WebhookConversion)
    → String
    → Service
    → ServicePortPath × List String
    → Option (List WebhookDescription)
unfolding group_description
describe_group config dep_name ws (k, []) = none
describe_group config dep_name ws (k, crd ∷ crds) = elim (lookup crd config) [
  | none ↦ some []
  | some c ↦ some (group_description dep_name ws k (crd ∷ crds) c ∷ [])
]

unfoldable pub describe_groups :
    List (String × WebhookConversion)
    → String
    → Service
    → List (ServicePortPath × List String)
    → Option (List WebhookDescription)
unfolding describe_group
describe_groups config dep_name ws [] = some []
describe_groups config dep_name ws (g ∷ gs) = elim (describe_group config dep_name ws g) [
  | none ↦ none
  | some ds ↦ elim (describe_groups config dep_name ws gs) [
    | none ↦ none
    | some es ↦ some (ds ++ es)
  ]
]

-- The orders in which Go gives the entries of the two maps, and `sort.Slice` by the names.
module _ (entries : List (String × WebhookConversion) → List (String × WebhookConversion))
    (groups : List (ServicePortPath × List String) → List (ServicePortPath × List String))
    (sorted : List WebhookDescription → List WebhookDescription) where
  -- `conversionToWebhookDescription`
  unfoldable pub conversion_to_webhook_description :
      List (String × WebhookConversion) → String → Service → Option (List WebhookDescription)
  unfolding describe_groups crd_groups
  conversion_to_webhook_description config dep_name ws = elim (crd_groups (entries config) []) [
    | none ↦ none
    | some gs ↦ describe_groups config dep_name ws (groups gs)
  ]

  -- The loop over the services.
  unfoldable pub conversion_webhooks :
      List V1Crd
      → List V1Beta1Crd
      → List Deployment
      → List Service
      → Option (List WebhookDescription)
  unfolding conversion_to_webhook_description get_conv_webhooks find_matching_dep_name
  conversion_webhooks v1 v1beta1 ds [] = some []
  conversion_webhooks v1 v1beta1 ds (svc ∷ svcs) =
      let rest = conversion_webhooks v1 v1beta1 ds svcs in
      let config = get_conv_webhooks v1 v1beta1 svc.name in
      elim config [
        | [] ↦ rest
        | e ∷ es ↦
            elim (conversion_to_webhook_description (e ∷ es)
              (find_matching_dep_name svc.selector ds) svc) [
                | none ↦ none
                | some found ↦ elim rest [ none ↦ none | some others ↦ some (found ++ others) ]
              ]
      ]

  -- `applyWebhooks`
  unfoldable pub apply_webhooks :
      List Service
      → List Deployment
      → List V1Crd
      → List V1Beta1Crd
      → List Webhook
      → List Webhook
      → Option (List WebhookDescription)
  unfolding conversion_webhooks admission_webhooks
  apply_webhooks svcs ds v1 v1beta1 validating mutating =
      elim (conversion_webhooks v1 v1beta1 ds svcs) [
        | none ↦ none
        | some cs ↦ some (sorted (admission_webhooks svcs ds validating mutating ++ cs))
      ]
