-- ===== src/Csv/Webhooks.antt =====
-- internal/generate/clusterserviceversion/clusterserviceversion_updaters.go: the webhooks of a CSV.
pub mod Matching
pub mod Conversion
pub mod Applied
use Prim.Native.String
use operator_sdk.Base.{
  ℕ, String, Bool, true, false, not, ◌&&◌, ◌<>◌, Option, none, some, List, [], ◌∷◌, ◌++◌, map,
  filter, nat_beq, ◌==◌, if◌then◌else◌, all,
}
use operator_sdk.Collector.NameMap.{lookup}

pub record ServicePort : Type 0 where
  pub port : ℕ
  pub target_port : String

pub record Service : Type 0 where
  pub name : String
  pub service_type : String
  pub selector : List (String × String)
  pub ports : List ServicePort

-- A deployment: its name and the labels of its pods.
pub record Deployment : Type 0 where
  pub name : String
  pub labels : List (String × String)

pub record ServiceRef : Type 0 where
  pub name : String
  pub port : Option ℕ
  pub path : Option String

pub data WebhookType : Type 0 where
  validating_admission_webhook : WebhookType
  mutating_admission_webhook : WebhookType
  conversion_webhook : WebhookType

-- An admission webhook; `rest` is what is copied to the description.
pub record Webhook : Type 0 where
  pub name : String
  pub service : Option ServiceRef
  pub admission_review_versions : List String
  pub side_effects : Option String
  pub rest : String
  pub reinvocation_policy : Option String

pub record WebhookDescription : Type 0 where
  pub webhook_type : WebhookType
  pub generate_name : String
  pub rest : String
  pub reinvocation_policy : Option String
  pub side_effects : Option String
  pub admission_review_versions : List String
  pub container_port : ℕ
  pub target_port : Option String
  pub deployment_name : String
  pub webhook_path : Option String
  pub conversion_crds : List String

-- `strings.TrimSuffix`
unfoldable pub trim_suffix : String → String → String
trim_suffix suffix String.[] = ""
trim_suffix suffix (String.◌∷◌ c cs) =
    let rest = trim_suffix suffix cs in if String.◌∷◌ c cs == suffix then "" else String.◌∷◌ c rest

-- The labels have every entry of the selector.
unfoldable pub selects : List (String × String) → List (String × String) → Bool
selects [] labels = true
selects ((key, value) ∷ selector) labels =
    let rest = selects selector labels in
    elim (lookup key labels) [ none ↦ false | some v ↦ (v == value) && rest ]

-- `findMatchingDepNameFromService`
unfoldable pub find_matching_dep_name : List (String × String) → List Deployment → String
unfolding selects
find_matching_dep_name selector [] = ""
find_matching_dep_name selector (d ∷ ds) =
    let rest = find_matching_dep_name selector ds in
    elim d.labels [
      | [] ↦ rest
      | l ∷ ls ↦ if selects selector (l ∷ ls) && not (d.name == "") then d.name else rest
    ]

unfoldable pub find_service : String → List Service → Option Service
find_service name [] = none
find_service name (s ∷ ss) =
    let rest = find_service name ss in if s.name == name then some s else rest

-- `findMatchingDeploymentAndServiceForWebhook`
unfoldable pub find_matching :
    List Service → List Deployment → Option ServiceRef → String × Option Service
unfolding find_service find_matching_dep_name
find_matching ss ds none = ("", none)
find_matching ss ds (some ref) = elim (find_service ref.name ss) [
  | none ↦ ("", none)
  | some s ↦ if s.service_type == "ExternalName" then ("", some s) else elim s.selector [
    | [] ↦ ("", some s)
    | l ∷ ls ↦ (find_matching_dep_name (l ∷ ls) ds, some s)
  ]
]

-- The first port of the service with this number.
unfoldable pub find_port : ℕ → List ServicePort → Option ServicePort
find_port n [] = none
find_port n (p ∷ ps) = let rest = find_port n ps in if nat_beq n p.port then some p else rest

unfoldable pub ref_port : Option ℕ → ℕ
ref_port none = 443
ref_port (some p) = p

-- The ports of a description for the service that was found.
unfoldable pub described_port : ℕ → Option Service → ℕ × Option String
unfolding find_port
described_port n none = (0, none)
described_port n (some s) = elim (find_port n s.ports) [
  | none ↦ (0, none)
  | some p ↦ (p.port, some p.target_port)
]

unfoldable pub or_default : List String → List String
or_default [] = "v1beta1" ∷ []
or_default (v ∷ vs) = v ∷ vs

unfoldable pub or_none : Option String → Option String
or_none none = some "None"
or_none (some e) = some e

-- Only the description of a mutating webhook has a reinvocation policy.
unfoldable pub reinvocation : WebhookType → Option String → Option String
reinvocation mutating_admission_webhook policy = policy
reinvocation validating_admission_webhook policy = none
reinvocation conversion_webhook policy = none

-- `validatingToWebhookDescription` and `mutatingToWebhookDescription`, which differ in the
-- type and the reinvocation policy.
unfoldable pub to_webhook_description :
    WebhookType → Webhook → String → Option Service → WebhookDescription
unfolding reinvocation or_default or_none described_port ref_port trim_suffix
to_webhook_description t w dep_name ws = elim w.service [
  | none ↦ record {
    webhook_type = t;
    generate_name = w.name;
    rest = w.rest;
    reinvocation_policy = reinvocation t w.reinvocation_policy;
    side_effects = or_none w.side_effects;
    admission_review_versions = or_default w.admission_review_versions;
    container_port = 0;
    target_port = none;
    deployment_name = "";
    webhook_path = none;
    conversion_crds = [];
  }
  | some ref ↦ record {
    webhook_type = t;
    generate_name = w.name;
    rest = w.rest;
    reinvocation_policy = reinvocation t w.reinvocation_policy;
    side_effects = or_none w.side_effects;
    admission_review_versions = or_default w.admission_review_versions;
    container_port = (described_port (ref_port ref.port) ws).0;
    target_port = (described_port (ref_port ref.port) ws).1;
    deployment_name = if dep_name == "" then trim_suffix "-service" ref.name else dep_name;
    webhook_path = ref.path;
    conversion_crds = [];
  }
]

-- The descriptions of the admission webhooks in `applyWebhooks`, before those of the conversion
-- webhooks.
unfoldable pub describe_webhooks :
    List Service → List Deployment → WebhookType → List Webhook → List WebhookDescription
unfolding to_webhook_description find_matching
describe_webhooks ss ds t [] = []
describe_webhooks ss ds t (w ∷ ws) =
    let (dep_name, s) = find_matching ss ds w.service in
    to_webhook_description t w dep_name s ∷ describe_webhooks ss ds t ws

unfoldable pub admission_webhooks :
    List Service → List Deployment → List Webhook → List Webhook → List WebhookDescription
unfolding describe_webhooks
admission_webhooks ss ds validating mutating =
    describe_webhooks ss ds validating_admission_webhook validating
    ++ describe_webhooks ss ds mutating_admission_webhook mutating
