-- ===== src/Csv/Roles.antt =====
-- The rules of the roles that a binding names, in clusterserviceversion_updaters.go.
use operator_sdk.Base.{
  String, Bool, true, false, ◌||◌, Option, none, some, List, [], ◌∷◌, map, ◌==◌, ==_iff, arith,
  if◌then◌else◌, ◌≡◌, refl, inl, inr, Option-cases, all, contains,
}
use operator_sdk.Collector.NameMap.{lookup, put, lookup-put}
use operator_sdk.Collector.Permissions.{
  Role, RoleRef, Permission, role, cluster_role, nil_pointer, csv_service_accounts,
}
use operator_sdk.Csv.{role_sets, role_rules, rules_in}

-- The last role of a name among the objects.
unfoldable pub last_role : String → List Permission → Option Role
last_role name [] = none
last_role name (nil_pointer ∷ ps) = last_role name ps
last_role name (cluster_role r ∷ ps) = last_role name ps
last_role name (role r ∷ ps) = elim (last_role name ps) [
  | some q ↦ some q
  | none ↦ if r.name == name then some r else none
]

lookup-role_sets :
    (name : String) (ps : List Permission) (rs cs : List (String × Role))
    → role_sets ps ≡ some (rs, cs)
    → lookup name rs ≡ last_role name ps
unfolding role_sets last_role lookup
lookup-role_sets name [] rs cs h = ground arith
lookup-role_sets name (nil_pointer ∷ ps) rs cs h = ground arith
lookup-role_sets name (cluster_role r ∷ ps) rs cs h = elim (Option-cases (role_sets ps)) [
  | inl e ↦ ground (arith, e)
  | inr ((rs', cs'), e) ↦ ground (arith, e, lookup-role_sets name ps rs' cs' e)
]
lookup-role_sets name (role r ∷ ps) rs cs h = elim (Option-cases (role_sets ps)) [
  | inl e ↦ ground (arith, e)
  | inr ((rs', cs'), e) ↦ ground (
    arith,
    e,
    lookup-role_sets name ps rs' cs' e,
    lookup-put r.name name r rs',
    ==_iff r.name name,
  )
]

-- The last cluster role of a name among the objects.
unfoldable pub last_cluster_role : String → List Permission → Option Role
last_cluster_role name [] = none
last_cluster_role name (nil_pointer ∷ ps) = last_cluster_role name ps
last_cluster_role name (role r ∷ ps) = last_cluster_role name ps
last_cluster_role name (cluster_role r ∷ ps) = elim (last_cluster_role name ps) [
  | some q ↦ some q
  | none ↦ if r.name == name then some r else none
]

lookup-cluster_role_sets :
    (name : String) (ps : List Permission) (rs cs : List (String × Role))
    → role_sets ps ≡ some (rs, cs)
    → lookup name cs ≡ last_cluster_role name ps
unfolding role_sets last_cluster_role lookup
lookup-cluster_role_sets name [] rs cs h = ground arith
lookup-cluster_role_sets name (nil_pointer ∷ ps) rs cs h = ground arith
lookup-cluster_role_sets name (role r ∷ ps) rs cs h = elim (Option-cases (role_sets ps)) [
  | inl e ↦ ground (arith, e)
  | inr ((rs', cs'), e) ↦ ground (arith, e, lookup-cluster_role_sets name ps rs' cs' e)
]
lookup-cluster_role_sets name (cluster_role r ∷ ps) rs cs h = elim (Option-cases (role_sets ps)) [
  | inl e ↦ ground (arith, e)
  | inr ((rs', cs'), e) ↦ ground (
    arith,
    e,
    lookup-cluster_role_sets name ps rs' cs' e,
    lookup-put r.name name r cs',
    ==_iff r.name name,
  )
]

abbrev pub rules_of : Option Role → List String
rules_of none = []
rules_of (some r) = r.rules

-- The rules of the last role, or cluster role, of the name that the reference gives.
abbrev pub named_rules : List Permission → RoleRef → List String
named_rules objs ref =
    if ref.kind == "Role"
    then rules_of (last_role ref.name objs)
    else if ref.kind == "ClusterRole"
    then rules_of (last_cluster_role ref.name objs)
    else []

rules_in-rules_of :
    (name : String) (m : List (String × Role)) (o : Option Role)
    → lookup name m ≡ o
    → rules_in name m ≡ rules_of o
unfolding rules_in
rules_in-rules_of name m none e = ground (arith, e)
rules_in-rules_of name m (some r) e = ground (arith, e)

pub role_rules-named_rules :
    (objs : List Permission) (rs cs : List (String × Role)) (ref : RoleRef)
    → role_sets objs ≡ some (rs, cs)
    → role_rules rs cs ref ≡ named_rules objs ref
unfolding role_rules
role_rules-named_rules objs rs cs ref h = ground (
  arith,
  rules_in-rules_of ref.name rs (last_role ref.name objs) (lookup-role_sets ref.name objs rs cs h),
  rules_in-rules_of ref.name cs (last_cluster_role ref.name objs)
      (lookup-cluster_role_sets ref.name objs rs cs h),
)

-- The object is no nil pointer.
abbrev pub is_there : Permission → Bool
is_there nil_pointer = false
is_there (role r) = true
is_there (cluster_role r) = true

pub role_sets-is_there :
    (objs : List Permission)
    → all is_there objs ≡ true
    → (rs cs : List (String × Role)) × (role_sets objs ≡ some (rs, cs))
unfolding role_sets
role_sets-is_there [] h = ([], [], refl)
role_sets-is_there (nil_pointer ∷ ps) h = absurd (ground (arith, h))
role_sets-is_there (role r ∷ ps) h =
    let (rs, cs, e) = role_sets-is_there ps (ground (arith, h)) in
    elim (Option-cases (lookup r.name rs)) [
      | inl f ↦ (put r.name r rs, cs, ground (arith, e, f))
      | inr (q, f) ↦ (rs, cs, ground (arith, e, f))
    ]
role_sets-is_there (cluster_role r ∷ ps) h =
    let (rs, cs, e) = role_sets-is_there ps (ground (arith, h)) in
    elim (Option-cases (lookup r.name cs)) [
      | inl f ↦ (rs, put r.name r cs, ground (arith, e, f))
      | inr (q, f) ↦ (rs, cs, ground (arith, e, f))
    ]

-- The service account of a deployment.
abbrev pub account_name : String → String
account_name sa = if sa == "" then "default" else sa

-- The account is one of a deployment, or an extra one.
abbrev pub is_account : List String → List String → String → Bool
is_account deployments extra sa = contains (map account_name deployments) sa || contains extra sa

pub csv_service_accounts-is_account :
    (deployments extra : List String) (sa : String)
    → contains (csv_service_accounts deployments extra) sa ≡ is_account deployments extra sa
unfolding csv_service_accounts
csv_service_accounts-is_account [] extra sa = refl
csv_service_accounts-is_account (d ∷ ds) extra sa =
    ground (arith, csv_service_accounts-is_account ds extra sa)
