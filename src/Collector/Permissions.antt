-- ===== src/Collector/Permissions.antt =====
-- internal/generate/collector/clusterserviceversion.go: which roles become permissions of the
-- CSV, and which objects are left over.
pub mod Laws
pub mod Remaining
use operator_sdk.Base.{
  ℕ, String, Bool, true, false, not, ◌||◌, ◌&&◌, Option, none, some, List, [], ◌∷◌, ◌++◌, ◌==◌, any,
  filter, map, contains, is_some, if◌then◌else◌,
}
use operator_sdk.Collector.NameMap.{lookup, put, erase, erase_all}

pub record Role : Type 0 where
  pub name : String
  pub rules : List String

pub record RoleRef : Type 0 where
  pub api_group : String
  pub kind : String
  pub name : String

pub record Subject : Type 0 where
  pub kind : String
  pub name : String

-- A RoleBinding or ClusterRoleBinding; `partialBinding` has the same fields.
pub record Binding : Type 0 where
  pub name : String
  pub role_ref : RoleRef
  pub subjects : List Subject

-- What `Manifests` has for this; a deployment is its service account's name.
pub record Manifests : Type 0 where
  pub deployments : List String
  pub roles : List Role
  pub cluster_roles : List Role
  pub role_bindings : List Binding
  pub cluster_role_bindings : List Binding
  pub service_accounts : List String

-- An object in a list of permissions, or a nil pointer in its place.
pub data Permission : Type 0 where
  role cluster_role : Role → Permission
  nil_pointer : Permission

-- An object that is left over.
pub data Leftover : Type 0 where
  left_role left_cluster_role : Role → Leftover
  left_role_binding left_cluster_role_binding : Binding → Leftover
  left_nil : Leftover
  left_service_account : String → Leftover

abbrev pub service_account_kind : String
service_account_kind = "ServiceAccount"

abbrev pub role_kind : String
role_kind = "Role"

abbrev pub cluster_role_kind : String
cluster_role_kind = "ClusterRole"

-- `acceptRefGroup`
unfoldable pub accept_ref_group : String → Bool
accept_ref_group g = g == "" || g == "rbac.authorization.k8s.io"

-- The service accounts of the CSV: those of the deployments, with a default, and the extra ones.
unfoldable pub csv_service_accounts : List String → List String → List String
csv_service_accounts [] extra = extra
csv_service_accounts (sa ∷ sas) extra =
    (if sa == "" then "default" else sa) ∷ csv_service_accounts sas extra

-- The subject is a service account of the CSV.
unfoldable pub is_bound_subject : List String → Subject → Bool
is_bound_subject sas s = contains sas s.name && s.kind == service_account_kind

-- The binding refers to a known role of the kind.
unfoldable pub refers : String → List String → Binding → Bool
unfolding accept_ref_group
refers kind names b =
    contains names b.role_ref.name
    && (b.role_ref.kind == kind && accept_ref_group b.role_ref.api_group)

unfoldable pub is_empty : {A : Type 0} → List A → Bool
is_empty [] = true
is_empty (x ∷ xs) = false

-- `getRolesBoundToPartialBindings`: the names of the bound roles, and the bindings that stay in
-- the list. The bound subjects are taken off a copy of the binding, so that one that keeps a
-- subject stays, of which only the name is read later; no later call examines it, since a
-- binding refers to one kind.
unfoldable pub get_bound_roles :
    String → List String → List String → List Binding → List String × List Binding
unfolding is_empty
get_bound_roles kind names sas [] = ([], [])
get_bound_roles kind names sas (b ∷ bs) =
    let (found, kept) = get_bound_roles kind names sas bs in
    if refers kind names b
    then (
      (if any (is_bound_subject sas) b.subjects then b.role_ref.name ∷ found else found),
      (if is_empty (filter (λ s. not (is_bound_subject sas s)) b.subjects) then kept else b ∷ kept),
    )
    else (found, b ∷ kept)

-- The maps by name.
unfoldable pub role_map : List Role → List (String × Role) → List (String × Role)
role_map [] m = m
role_map (r ∷ rs) m = role_map rs (put r.name r m)

unfoldable pub binding_map : List Binding → List (String × Binding) → List (String × Binding)
binding_map [] m = m
binding_map (b ∷ bs) m = binding_map bs (put b.name b m)

-- `inPerms = append(inPerms, roleMap[roleName]); delete(roleMap, roleName)`
unfoldable pub take_roles :
    List String → List (String × Role) → List Permission × List (String × Role)
take_roles [] m = ([], m)
take_roles (n ∷ ns) m =
    let (ps, m') = take_roles ns (erase n m) in
    (elim (lookup n m) [ none ↦ nil_pointer | some r ↦ role r ] ∷ ps, m')

-- The same for cluster roles, which stay in the map for now.
unfoldable pub cluster_permissions : List (String × Role) → List String → List Permission
cluster_permissions m [] = []
cluster_permissions m (n ∷ ns) =
    elim (lookup n m) [ none ↦ nil_pointer | some r ↦ cluster_role r ] ∷ cluster_permissions m ns

unfoldable pub left_bindings :
    (Binding → Leftover) → List (String × Binding) → List Binding → List Leftover
left_bindings f m [] = []
left_bindings f m (b ∷ bs) =
    elim (lookup b.name m) [ none ↦ left_nil | some c ↦ f c ] ∷ left_bindings f m bs

pub record Split : Type 0 where
  pub in_perms : List Permission
  pub in_cluster_perms : List Permission
  pub out : List Leftover

-- `SplitCSVPermissionsObjects`; the roles that are left over come in the order of the maps,
-- which in Go is no fixed order.
unfoldable pub split_csv_permissions_objects : Manifests → List String → Split
split_csv_permissions_objects c extra =
    let sas = csv_service_accounts c.deployments extra in
    let names = map (λ (r : Role). r.name) c.roles in
    let cluster_names = map (λ (r : Role). r.name) c.cluster_roles in
    let (in_roles, bindings) = get_bound_roles role_kind names sas c.role_bindings in
    let (in_cluster, bindings') = get_bound_roles cluster_role_kind cluster_names sas bindings in
    let (in_cluster_scope, cluster_bindings) =
      get_bound_roles cluster_role_kind cluster_names sas c.cluster_role_bindings in
    let (perms, roles) = take_roles in_roles (role_map c.roles []) in
    let cluster_map = role_map c.cluster_roles [] in
    record {
      in_perms = perms ++ cluster_permissions cluster_map in_cluster;
      in_cluster_perms = cluster_permissions cluster_map in_cluster_scope;
      out =
          map (λ (n, r). left_role r) roles
          ++ (map (λ (n, r). left_cluster_role r)
                (erase_all (in_cluster ++ in_cluster_scope) cluster_map)
              ++ (left_bindings left_role_binding (binding_map c.role_bindings []) bindings'
                  ++ (left_bindings left_cluster_role_binding
                        (binding_map c.cluster_role_bindings []) cluster_bindings
                      ++ map left_service_account
                          (filter (λ sa. not (contains sas sa)) c.service_accounts))));
    }
