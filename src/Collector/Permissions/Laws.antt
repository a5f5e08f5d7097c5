-- ===== src/Collector/Permissions/Laws.antt =====
-- clusterserviceversion.go: the two lists of permissions.
use operator_sdk.Base.{
  String, Bool, true, false, not, ◌||◌, ◌&&◌, List, [], ◌∷◌, ◌≡◌, refl, ap, ==_iff, any, all, map,
  contains, is_some, arith, any-append, if◌then◌else◌,
}
use operator_sdk.Collector.NameMap.{lookup, put, erase, lookup-put, lookup-erase}
use operator_sdk.Collector.Permissions.{
  Role, Binding, Manifests, Permission, nil_pointer, role_kind, cluster_role_kind,
  csv_service_accounts, is_bound_subject, refers, get_bound_roles, role_map, take_roles,
  cluster_permissions, split_csv_permissions_objects,
}

abbrev pub is_nil : Permission → Bool
is_nil nil_pointer = true
is_nil _ = false

-- No name stands twice.
abbrev pub distinct : List String → Bool
distinct [] = true
distinct (n ∷ ns) = not (contains ns n) && distinct ns

-- The names of the roles that bindings of the kind bind to the service accounts, one for each
-- such binding.
abbrev pub bound_names : String → List String → List String → List Binding → List String
bound_names kind names sas [] = []
bound_names kind names sas (b ∷ bs) =
    let rest = bound_names kind names sas bs in
    if refers kind names b && any (is_bound_subject sas) b.subjects
    then b.role_ref.name ∷ rest
    else rest

module _ {V : Type 0} where
  known : List (String × V) → List String → Bool
  known m ns = all (λ n. is_some (lookup n m)) ns

  known-erase :
      (n : String) (m : List (String × V)) (ns : List String)
      → known (erase n m) ns ≡ (not (contains ns n) && known m ns)
  unfolding known
  known-erase n m [] = refl
  known-erase n m (x ∷ ns) =
      ground (arith, known-erase n m ns, lookup-erase n x m, ==_iff n x, ==_iff x n)

take_roles-nil :
    (ns : List String) (m : List (String × Role))
    → any is_nil (take_roles ns m).0 ≡ not (distinct ns && known m ns)
unfolding take_roles known
take_roles-nil [] m = refl
take_roles-nil (n ∷ ns) m = ground (arith, take_roles-nil ns (erase n m), known-erase n m ns)

pub get_bound_roles-names :
    (kind : String) (names sas : List String) (bs : List Binding)
    → (get_bound_roles kind names sas bs).0 ≡ bound_names kind names sas bs
unfolding get_bound_roles
get_bound_roles-names kind names sas [] = refl
get_bound_roles-names kind names sas (b ∷ bs) =
    ground (arith, get_bound_roles-names kind names sas bs)

pub is_some-role_map :
    (n : String) (rs : List Role) (m : List (String × Role))
    → is_some (lookup n (role_map rs m))
      ≡ (contains (map (λ (r : Role). r.name) rs) n || is_some (lookup n m))
unfolding role_map
is_some-role_map n [] m = refl
is_some-role_map n (r ∷ rs) m =
    ground (arith, is_some-role_map n rs (put r.name r m), lookup-put r.name n r m)

get_bound_roles-known :
    (kind : String) (rs : List Role) (sas : List String) (bs : List Binding)
    → let names = map (λ (r : Role). r.name) rs in
      known (role_map rs []) (get_bound_roles kind names sas bs).0 ≡ true
unfolding get_bound_roles known refers lookup
get_bound_roles-known kind rs sas [] = refl
get_bound_roles-known kind rs sas (b ∷ bs) =
    ground (arith, get_bound_roles-known kind rs sas bs, is_some-role_map b.role_ref.name rs [])

cluster_permissions-nil :
    (m : List (String × Role)) (ns : List String)
    → known m ns ≡ true
    → any is_nil (cluster_permissions m ns) ≡ false
unfolding cluster_permissions known
cluster_permissions-nil m [] k = refl
cluster_permissions-nil m (n ∷ ns) k = ground (arith, cluster_permissions-nil m ns)

-- The bound roles that are to become permissions of the CSV.
abbrev pub bound_roles : Manifests → List String → List String
bound_roles c extra =
    bound_names role_kind (map (λ (r : Role). r.name) c.roles)
      (csv_service_accounts c.deployments extra) c.role_bindings

module _ (c : Manifests) (extra : List String) where
  take_bound-nil :
      let names = map (λ (r : Role). r.name) c.roles in
      let sas = csv_service_accounts c.deployments extra in
      any is_nil
        (take_roles (get_bound_roles role_kind names sas c.role_bindings).0 (role_map c.roles [])).0
      ≡ not (distinct (bound_roles c extra))
  take_bound-nil =
      let names = map (λ (r : Role). r.name) c.roles in
      let sas = csv_service_accounts c.deployments extra in
      ground (
        arith,
        take_roles-nil (get_bound_roles role_kind names sas c.role_bindings).0
            (role_map c.roles []),
        get_bound_roles-known role_kind c.roles sas c.role_bindings,
        ap distinct (get_bound_roles-names role_kind names sas c.role_bindings),
      )

  -- There is a nil pointer among the permissions exactly if two bindings to service accounts of
  -- the CSV refer to the same Role.
  pub in_perms-nil_iff :
      any is_nil (split_csv_permissions_objects c extra).in_perms
      ≡ not (distinct (bound_roles c extra))
  unfolding split_csv_permissions_objects
  in_perms-nil_iff =
      let names = map (λ (r : Role). r.name) c.roles in
      let cluster_names = map (λ (r : Role). r.name) c.cluster_roles in
      let sas = csv_service_accounts c.deployments extra in
      let kept = (get_bound_roles role_kind names sas c.role_bindings).1 in
      let in_cluster = (get_bound_roles cluster_role_kind cluster_names sas kept).0 in
      ground (
        arith,
        any-append is_nil
            (take_roles (get_bound_roles role_kind names sas c.role_bindings).0
              (role_map c.roles [])).0
            (cluster_permissions (role_map c.cluster_roles []) in_cluster),
        take_bound-nil,
        cluster_permissions-nil (role_map c.cluster_roles []) in_cluster,
        get_bound_roles-known cluster_role_kind c.cluster_roles sas kept,
      )

  -- The permissions at cluster scope have no nil pointer, whatever the bindings.
  pub in_cluster_perms-nil :
      any is_nil (split_csv_permissions_objects c extra).in_cluster_perms ≡ false
  unfolding split_csv_permissions_objects
  in_cluster_perms-nil =
      let cluster_names = map (λ (r : Role). r.name) c.cluster_roles in
      let sas = csv_service_accounts c.deployments extra in
      let bound = (get_bound_roles cluster_role_kind cluster_names sas c.cluster_role_bindings).0 in
      cluster_permissions-nil (role_map c.cluster_roles []) bound
        (get_bound_roles-known cluster_role_kind c.cluster_roles sas c.cluster_role_bindings)
