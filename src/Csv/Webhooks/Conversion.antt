-- ===== src/Csv/Webhooks/Conversion.antt =====
-- internal/generate/clusterserviceversion/clusterserviceversion_updaters.go: the conversion webhooks
-- of a CSV, and applyWebhooks.
pub mod Grouped
use Prim.Native.Char.{code}
use Prim.Native.Nat
use Prim.Native.String
use operator_sdk.Base.{
  ℕ, String, Bool, true, false, ◌&&◌, ◌<>◌, Option, none, some, List, [], ◌∷◌, ◌++◌, nat_beq, ◌==◌,
  if◌then◌else◌,
}
use operator_sdk.Collector.NameMap.{lookup, put}
use operator_sdk.Csv.Webhooks.{
  Service, Deployment, Webhook, WebhookDescription, conversion_webhook, find_matching_dep_name,
  described_port, ref_port, trim_suffix, admission_webhooks,
}

-- A port as a pointer: its address, which `==` compares, and the number there.
pub record PortPointer : Type 0 where
  pub address : ℕ
  pub value : ℕ

pub record ConversionService : Type 0 where
  pub name : String
  pub port : Option PortPointer
  pub path : Option String

-- What a conversion has of a webhook: the service of its client config, and the versions.
pub record WebhookConversion : Type 0 where
  pub service : ConversionService
  pub conversion_review_versions : List String

-- A v1 webhook, whose client config and its service may be missing.
pub record V1Webhook : Type 0 where
  pub client_config : Option (Option ConversionService)
  pub conversion_review_versions : List String

-- A v1 CRD: its conversion may be missing, and the webhook of the conversion.
pub record V1Crd : Type 0 where
  pub name : String
  pub conversion : Option (Option V1Webhook)

-- A v1beta1 CRD: its conversion has the client config itself.
pub record V1Beta1Crd : Type 0 where
  pub name : String
  pub conversion : Option V1Webhook

-- The service of a webhook, where every pointer on the way is set.
unfoldable pub webhook_service : V1Webhook → Option ConversionService
webhook_service w = elim w.client_config [ none ↦ none | some s ↦ s ]

unfoldable pub add_v1 :
    String → V1Crd → List (String × WebhookConversion) → List (String × WebhookConversion)
unfolding webhook_service
add_v1 service crd m = elim crd.conversion [
  | none ↦ m
  | some none ↦ m
  | some (some w) ↦ elim (webhook_service w) [
    | none ↦ m
    | some s ↦
        if s.name == service
        then put crd.name
            (record { service = s; conversion_review_versions = w.conversion_review_versions }) m
        else m
  ]
]

-- Of a v1beta1 CRD only the path of the service is kept.
unfoldable pub add_v1beta1 :
    String → V1Beta1Crd → List (String × WebhookConversion) → List (String × WebhookConversion)
unfolding webhook_service
add_v1beta1 service crd m = elim crd.conversion [
  | none ↦ m
  | some w ↦ elim (webhook_service w) [
    | none ↦ m
    | some s ↦
        if s.name == service
        then put crd.name
            (record {
              service = record { name = ""; port = none; path = s.path };
              conversion_review_versions = w.conversion_review_versions;
            })
            m
        else m
  ]
]

unfoldable pub add_all_v1 :
    String → List V1Crd → List (String × WebhookConversion) → List (String × WebhookConversion)
unfolding add_v1
add_all_v1 service [] m = m
add_all_v1 service (crd ∷ crds) m = add_all_v1 service crds (add_v1 service crd m)

unfoldable pub add_all_v1beta1 :
    String → List V1Beta1Crd → List (String × WebhookConversion) → List (String × WebhookConversion)
unfolding add_v1beta1
add_all_v1beta1 service [] m = m
add_all_v1beta1 service (crd ∷ crds) m = add_all_v1beta1 service crds (add_v1beta1 service crd m)

-- `getConvWebhookCRDNamesAndConfig`
unfoldable pub get_conv_webhooks :
    List V1Crd → List V1Beta1Crd → String → List (String × WebhookConversion)
unfolding add_all_v1 add_all_v1beta1
get_conv_webhooks v1 v1beta1 service =
    if service == "" then [] else add_all_v1beta1 service v1beta1 (add_all_v1 service v1 [])

pub record ServicePortPath : Type 0 where
  pub port : Option PortPointer
  pub path : String

-- `==` of two pointers.
unfoldable pub same_pointer : Option PortPointer → Option PortPointer → Bool
same_pointer none none = true
same_pointer none (some q) = false
same_pointer (some p) none = false
same_pointer (some p) (some q) = nat_beq p.address q.address

unfoldable pub same_key : ServicePortPath → ServicePortPath → Bool
unfolding same_pointer
same_key k j = same_pointer k.port j.port && (k.path == j.path)

-- `uniqueConfig[k] = append(uniqueConfig[k], crd)`
unfoldable pub add_to_group :
    ServicePortPath
    → String
    → List (ServicePortPath × List String)
    → List (ServicePortPath × List String)
unfolding same_key
add_to_group k crd [] = (k, crd ∷ []) ∷ []
add_to_group k crd ((j, crds) ∷ gs) =
    let rest = add_to_group k crd gs in
    if same_key k j then (j, crds ++ (crd ∷ [])) ∷ gs else (j, crds) ∷ rest

-- `crdGroups`, for the entries in the order in which the map gives them; a path that is missing
-- ends in a run-time error, which is none.
unfoldable pub crd_groups :
    List (String × WebhookConversion)
    → List (ServicePortPath × List String)
    → Option (List (ServicePortPath × List String))
unfolding add_to_group
crd_groups [] gs = some gs
crd_groups ((crd, c) ∷ es) gs = elim c.service.path [
  | none ↦ none
  | some path ↦ crd_groups es (add_to_group (record { port = c.service.port; path = path }) crd gs)
]
