-- ===== src/Csv.antt =====
-- internal/generate/clusterserviceversion/clusterserviceversion_updaters.go: the permissions, the
-- deployments and the CRDs of a CSV, from the collected manifests.
pub mod Granted
pub mod Roles
pub mod Listed
pub mod Webhooks
pub mod Definitions
mod Tests
use operator_sdk.Base.{
  String, Bool, true, false, not, ◌&&◌, Option, none, some, List, [], ◌∷◌, ◌++◌, map, filter, ◌==◌,
  if◌then◌else◌,
}
use operator_sdk.Collector.NameMap.{lookup, put}
use operator_sdk.Collector.Permissions.{
  Role, RoleRef, Subject, Binding, Manifests, Permission, role, cluster_role, nil_pointer, Split,
  csv_service_accounts, split_csv_permissions_objects,
}

-- The sets of roles and of cluster roles by name. A nil pointer among the objects ends in a run-time
-- error, which is none.
unfoldable pub role_sets : List Permission → Option (List (String × Role) × List (String × Role))
role_sets [] = some ([], [])
role_sets (nil_pointer ∷ ps) = none
role_sets (role r ∷ ps) = elim (role_sets ps) [
  | none ↦ none
  | some (rs, cs) ↦ some (elim (lookup r.name rs) [ none ↦ put r.name r rs | some q ↦ rs ], cs)
]
role_sets (cluster_role r ∷ ps) = elim (role_sets ps) [
  | none ↦ none
  | some (rs, cs) ↦ some (rs, elim (lookup r.name cs) [ none ↦ put r.name r cs | some q ↦ cs ])
]

-- The rules of a role in a set; a role that is missing has none.
unfoldable pub rules_in : String → List (String × Role) → List String
rules_in name rs = elim (lookup name rs) [ none ↦ [] | some r ↦ r.rules ]

-- The rules that `applyRoles` finds for a reference.
unfoldable pub role_rules : List (String × Role) → List (String × Role) → RoleRef → List String
unfolding rules_in
role_rules rs cs ref =
    if ref.kind == "Role"
    then rules_in ref.name rs
    else if ref.kind == "ClusterRole"
    then rules_in ref.name cs
    else []

-- `initPermissionSet`: the service accounts with no rules.
unfoldable pub init_permission_set : List String → List (String × List String)
init_permission_set [] = []
init_permission_set (sa ∷ sas) = put sa [] (init_permission_set sas)

-- The bodies of the loops over the subjects and the bindings; adding no rules changes nothing.
unfoldable pub grant_subject :
    List String → Subject → List (String × List String) → List (String × List String)
grant_subject rules s m = elim (lookup s.name m) [
  | none ↦ m
  | some old ↦ if s.kind == "ServiceAccount" then put s.name (old ++ rules) m else m
]

unfoldable pub grant_subjects :
    List String → List Subject → List (String × List String) → List (String × List String)
unfolding grant_subject
grant_subjects rules [] m = m
grant_subjects rules (s ∷ ss) m = grant_subjects rules ss (grant_subject rules s m)

unfoldable pub grant :
    (RoleRef → List String)
    → List Binding
    → List (String × List String)
    → List (String × List String)
unfolding grant_subjects
grant rules [] m = m
grant rules (b ∷ bs) m = grant rules bs (grant_subjects (rules b.role_ref) b.subjects m)

-- The permissions of the service accounts that have rules; `sorted` is `sort.Slice` by name.
abbrev pub is_granted : String × List String → Bool
is_granted (sa, []) = false
is_granted (sa, r ∷ rs) = true

module _ (sorted : List (String × List String) → List (String × List String)) where
  unfoldable pub apply_roles :
      Manifests → List Permission → List String → Option (List (String × List String))
  unfolding role_sets role_rules init_permission_set grant
  apply_roles c objs extra = elim (role_sets objs) [
    | none ↦ none
    | some (rs, cs) ↦
        let m = init_permission_set (csv_service_accounts c.deployments extra) in
        some (sorted (filter is_granted (grant (role_rules rs cs) c.role_bindings m)))
  ]

  unfoldable pub apply_cluster_roles :
      Manifests → List Permission → List String → Option (List (String × List String))
  unfolding role_sets rules_in init_permission_set grant
  apply_cluster_roles c objs extra = elim (role_sets objs) [
    | none ↦ none
    | some (rs, cs) ↦
        let m = init_permission_set (csv_service_accounts c.deployments extra) in
        some (
          sorted
            (filter is_granted (grant (λ ref. rules_in ref.name cs) c.cluster_role_bindings m)))
  ]

-- A description of an owned CRD: its key, and what a user has written.
pub record CrdDescription : Type 0 where
  pub name : String
  pub version : String
  pub kind : String
  pub rest : String

pub record DefinitionKey : Type 0 where
  pub name : String
  pub version : String
  pub kind : String

-- A version of a CRD, and a CRD: `version` is the single version of a v1beta1 CRD. The group of a
-- key, which `applyCustomResourceDefinitions` clears, is left out.
pub record CrdVersion : Type 0 where
  pub name : String
  pub served : Bool

pub record Crd : Type 0 where
  pub name : String
  pub kind : String
  pub version : String
  pub versions : List CrdVersion

-- The keys of the served versions.
unfoldable pub version_keys : Crd → List CrdVersion → List DefinitionKey
version_keys crd [] = []
version_keys crd (v ∷ vs) =
    let rest = version_keys crd vs in
    if v.served then record { name = crd.name; version = v.name; kind = crd.kind } ∷ rest else rest

-- `DefinitionsForV1CustomResourceDefinitions`
unfoldable pub definitions_v1 : List Crd → List DefinitionKey
unfolding version_keys
definitions_v1 [] = []
definitions_v1 (crd ∷ crds) = version_keys crd crd.versions ++ definitions_v1 crds

-- `DefinitionsForV1beta1CustomResourceDefinitions`
unfoldable pub definitions_v1beta1 : List Crd → List DefinitionKey
unfolding version_keys
definitions_v1beta1 [] = []
definitions_v1beta1 (crd ∷ crds) = elim crd.versions [
  | [] ↦
      record { name = crd.name; version = crd.version; kind = crd.kind } ∷ definitions_v1beta1 crds
  | v ∷ vs ↦ version_keys crd (v ∷ vs) ++ definitions_v1beta1 crds
]

unfoldable pub has_key : DefinitionKey → CrdDescription → Bool
has_key k d = (d.name == k.name) && ((d.version == k.version) && (d.kind == k.kind))

-- `descMap[defKey]`: of two descriptions with one key, the later one is in the map.
unfoldable pub described : DefinitionKey → List CrdDescription → Option CrdDescription
unfolding has_key
described k [] = none
described k (d ∷ ds) = elim (described k ds) [
  | some e ↦ some e
  | none ↦ if has_key k d then some d else none
]

-- The body of the loop of `applyCustomResourceDefinitions` over the keys.
unfoldable pub apply_crd : List CrdDescription → DefinitionKey → CrdDescription
unfolding described
apply_crd owned k = elim (described k owned) [
  | some d ↦ d
  | none ↦ record { name = k.name; version = k.version; kind = k.kind; rest = "" }
]

-- `applyCustomResourceDefinitions`, for the collected CRDs of both versions.
unfoldable pub apply_custom_resource_definitions :
    List CrdDescription → List Crd → List Crd → List CrdDescription
unfolding apply_crd definitions_v1 definitions_v1beta1
apply_custom_resource_definitions owned v1 v1beta1 =
    map (apply_crd owned) (definitions_v1 v1 ++ definitions_v1beta1 v1beta1)
