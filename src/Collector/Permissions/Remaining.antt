-- ===== src/Collector/Permissions/Remaining.antt =====
-- clusterserviceversion.go: the roles and service accounts that are left over for the bundle.
use operator_sdk.Base.{
  String, Bool, true, false, not, ◌&&◌, none, List, [], ◌∷◌, ◌++◌, ◌≡◌, ◌∙◌, refl, ap, ◌==◌, ==_iff,
  any, all, filter, map, contains, is_some, arith, any-append, if◌then◌else◌,
}
use operator_sdk.Collector.NameMap.{lookup, put, erase, erase_all, lookup-erase}
use operator_sdk.Collector.Permissions.{
  Role, Binding, Manifests, Leftover, left_role, left_cluster_role, left_role_binding,
  left_cluster_role_binding, left_service_account, role_kind, cluster_role_kind,
  csv_service_accounts, get_bound_roles, role_map, binding_map, left_bindings, take_roles,
  split_csv_permissions_objects,
}
use operator_sdk.Collector.Permissions.Laws.{bound_roles, get_bound_roles-names, is_some-role_map}

-- The object is the Role with the name.
abbrev pub is_role_named : String → Leftover → Bool
is_role_named n (left_role r) = r.name == n
is_role_named n _ = false

-- The object is the service account with the name.
abbrev pub is_account_named : String → Leftover → Bool
is_account_named n (left_service_account sa) = sa == n
is_account_named n _ = false

-- Every role stands under its own name.
abbrev is_keyed : List (String × Role) → Bool
is_keyed = all (λ (k, r). k == r.name)

put-is_keyed :
    (r : Role) (m : List (String × Role)) → is_keyed m ≡ true → is_keyed (put r.name r m) ≡ true
unfolding put
put-is_keyed r [] h = ground (arith, ==_iff r.name r.name)
put-is_keyed r ((k, q) ∷ m) h = ground (arith, put-is_keyed r m, ==_iff r.name r.name)

role_map-is_keyed :
    (rs : List Role) (m : List (String × Role))
    → is_keyed m ≡ true
    → is_keyed (role_map rs m) ≡ true
unfolding role_map
role_map-is_keyed [] m h = h
role_map-is_keyed (r ∷ rs) m h = role_map-is_keyed rs (put r.name r m) (put-is_keyed r m h)

erase-is_keyed :
    (n : String) (m : List (String × Role)) → is_keyed m ≡ true → is_keyed (erase n m) ≡ true
unfolding erase
erase-is_keyed n [] h = refl
erase-is_keyed n ((k, r) ∷ m) h = ground (arith, erase-is_keyed n m)

take_roles-left :
    (ns : List String) (n : String) (m : List (String × Role))
    → is_keyed m ≡ true
    → (lookup n (take_roles ns m).1 ≡ (if contains ns n then none else lookup n m))
      × (is_keyed (take_roles ns m).1 ≡ true)
unfolding take_roles
take_roles-left [] n m h = (refl, h)
take_roles-left (k ∷ ns) n m h =
    ground (arith, take_roles-left ns n (erase k m) (erase-is_keyed k m h), lookup-erase k n m)

any-left_role :
    (n : String) (m : List (String × Role))
    → is_keyed m ≡ true
    → any (is_role_named n) (map (λ (k, r). left_role r) m) ≡ is_some (lookup n m)
unfolding lookup
any-left_role n [] h = refl
any-left_role n ((k, r) ∷ m) h = ground (arith, any-left_role n m, ==_iff k r.name)

module _ (n : String) where
  no_cluster_role :
      (m : List (String × Role))
      → any (is_role_named n) (map (λ (k, r). left_cluster_role r) m) ≡ false
  no_cluster_role [] = refl
  no_cluster_role (x ∷ m) = no_cluster_role m

  no_role_binding :
      (m : List (String × Binding)) (bs : List Binding)
      → any (is_role_named n) (left_bindings left_role_binding m bs) ≡ false
  unfolding left_bindings
  no_role_binding m [] = refl
  no_role_binding m (b ∷ bs) = ground (arith, no_role_binding m bs)

  no_cluster_role_binding :
      (m : List (String × Binding)) (bs : List Binding)
      → any (is_role_named n) (left_bindings left_cluster_role_binding m bs) ≡ false
  unfolding left_bindings
  no_cluster_role_binding m [] = refl
  no_cluster_role_binding m (b ∷ bs) = ground (arith, no_cluster_role_binding m bs)

  no_service_account :
      (sas : List String) → any (is_role_named n) (map left_service_account sas) ≡ false
  no_service_account [] = refl
  no_service_account (x ∷ sas) = no_service_account sas

  only_roles :
      (a b c d e : List Leftover)
      → any (is_role_named n) b ≡ false
      → any (is_role_named n) c ≡ false
      → any (is_role_named n) d ≡ false
      → any (is_role_named n) e ≡ false
      → any (is_role_named n) (a ++ (b ++ (c ++ (d ++ e)))) ≡ any (is_role_named n) a
  only_roles a b c d e hb hc hd he = ground (
    arith,
    any-append (is_role_named n) a (b ++ (c ++ (d ++ e))),
    any-append (is_role_named n) b (c ++ (d ++ e)),
    any-append (is_role_named n) c (d ++ e),
    any-append (is_role_named n) d e,
  )

lookup-nil : (n : String) → is_some (lookup {V = Role} n []) ≡ false
unfolding lookup
lookup-nil n = refl

role_left :
    (n : String) (rs : List Role) (ns : List String)
    → any (is_role_named n) (map (λ (k, r). left_role r) (take_roles ns (role_map rs [])).1)
      ≡ (contains (map (λ (r : Role). r.name) rs) n && not (contains ns n))
role_left n rs ns =
    let m = role_map rs [] in
    let (left, keyed) = take_roles-left ns n m (role_map-is_keyed rs [] refl) in
    any-left_role n (take_roles ns m).1 keyed
    ∙ ap is_some left
    ∙ ground (arith, is_some-role_map n rs [], lookup-nil n)

-- A Role is left over exactly if the manifests have it and no binding binds it to a service
-- account of the CSV.
pub left_role_iff :
    (c : Manifests) (extra : List String) (n : String)
    → any (is_role_named n) (split_csv_permissions_objects c extra).out
      ≡ (contains (map (λ (r : Role). r.name) c.roles) n && not (contains (bound_roles c extra) n))
unfolding split_csv_permissions_objects
left_role_iff c extra n =
    let names = map (λ (r : Role). r.name) c.roles in
    let cluster_names = map (λ (r : Role). r.name) c.cluster_roles in
    let sas = csv_service_accounts c.deployments extra in
    let (in_roles, kept) = get_bound_roles role_kind names sas c.role_bindings in
    let (in_cluster, kept') = get_bound_roles cluster_role_kind cluster_names sas kept in
    let (in_cluster_scope, cluster_kept) =
      get_bound_roles cluster_role_kind cluster_names sas c.cluster_role_bindings in
    let cluster_left = erase_all (in_cluster ++ in_cluster_scope) (role_map c.cluster_roles []) in
    let accounts = filter (λ sa. not (contains sas sa)) c.service_accounts in
    only_roles n (map (λ (k, r). left_role r) (take_roles in_roles (role_map c.roles [])).1)
      (map (λ (k, r). left_cluster_role r) cluster_left)
      (left_bindings left_role_binding (binding_map c.role_bindings []) kept')
      (left_bindings left_cluster_role_binding (binding_map c.cluster_role_bindings [])
        cluster_kept)
      (map left_service_account accounts) (no_cluster_role n cluster_left)
      (no_role_binding n (binding_map c.role_bindings []) kept')
      (no_cluster_role_binding n (binding_map c.cluster_role_bindings []) cluster_kept)
      (no_service_account n accounts)
    ∙ role_left n c.roles in_roles
    ∙ ap (λ (ns : List String). contains names n && not (contains ns n))
        (get_bound_roles-names role_kind names sas c.role_bindings)
