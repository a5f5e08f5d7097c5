-- ===== src/Csv/Listed.antt =====
-- The permissions in the install strategy of a CSV, of clusterserviceversion_updaters.go.
use operator_sdk.Base.{
  ◌∙◌, all, String, true, false, ◌||◌, none, some, List, [], ◌∷◌, ◌++◌, map, filter, ◌==◌, ==_iff,
  arith, ◌≡◌, refl, sym, contains, Any, NodupNames, ◌↔◌, inl, inr, ◌⊎◌, Option-cases, Bool-cases,
}
use mathlib.Core.Path.{subst, fun_ext}
use operator_sdk.Collector.NameMap.{lookup, put}
use operator_sdk.Collector.Permissions.{
  Role, RoleRef, Subject, Binding, Manifests, Permission, csv_service_accounts,
}
use operator_sdk.Csv.{
  init_permission_set, grant_subject, grant_subjects, grant, is_granted, role_sets, role_rules,
  apply_roles, apply_cluster_roles, rules_in,
}
use operator_sdk.Csv.Roles.{
  is_there, named_rules, is_account, role_rules-named_rules, role_sets-is_there,
  csv_service_accounts-is_account,
}
use operator_sdk.Csv.Granted.{binding_rules, grant-init_permission_set}

abbrev pub keys : List (String × List String) → List String
keys m = map (λ p. p.0) m

contains-put :
    (k j : String) (v : List String) (m : List (String × List String))
    → contains (keys (put k v m)) j ≡ ((k == j) || contains (keys m) j)
unfolding put
contains-put k j v [] = ground arith
contains-put k j v ((i, w) ∷ m) =
    ground (arith, contains-put k j v m, ==_iff i k, ==_iff k j, ==_iff i j)

put-NodupNames :
    (k : String) (v : List String) (m : List (String × List String))
    → NodupNames (keys m)
    → NodupNames (keys (put k v m))
unfolding put
put-NodupNames k v [] n = (refl, tt)
put-NodupNames k v ((i, w) ∷ m) (a, n) = elim (Bool-cases (i == k)) [
  | inl e ↦ rw (e) (ground (arith, ==_iff i k), n)
  | inr e ↦
      rw (e) (ground (arith, contains-put k i v m, ==_iff k i, ==_iff i k), put-NodupNames k v m n)
]

lookup-absent :
    (k : String) (m : List (String × List String)) → contains (keys m) k ≡ false → lookup k m ≡ none
unfolding lookup
lookup-absent k [] h = refl
lookup-absent k ((i, w) ∷ m) h = ground (arith, lookup-absent k m)

-- The entry is the one of a service account with these rules.
abbrev pub IsEntry : String → List String → String × List String → Type 0
IsEntry sa rules p = (p.0 ≡ sa) × (p.1 ≡ rules)

Any-IsEntry :
    (k : String) (v : List String) (m : List (String × List String))
    → NodupNames (keys m)
    → Any (IsEntry k v) m
    → lookup k m ≡ some v
unfolding lookup
Any-IsEntry k v [] n h = absurd h
Any-IsEntry k v ((i, w) ∷ m) (a, n) (inl (e, f)) = ground (arith, e, f, ==_iff i k)
Any-IsEntry k v ((i, w) ∷ m) (a, n) (inr h) =
    let found = Any-IsEntry k v m n h in ground (arith, found, a, lookup-absent i m, ==_iff i k)

lookup-Any :
    (k : String) (v : List String) (m : List (String × List String))
    → lookup k m ≡ some v
    → Any (IsEntry k v) m
unfolding lookup
lookup-Any k v [] h = ground arith
lookup-Any k v ((i, w) ∷ m) h = elim (Bool-cases (i == k)) [
  | inl e ↦ inl (ground (arith, ==_iff i k), ground arith)
  | inr e ↦ inr (lookup-Any k v m (ground arith))
]

init_permission_set-NodupNames : (sas : List String) → NodupNames (keys (init_permission_set sas))
unfolding init_permission_set
init_permission_set-NodupNames [] = tt
init_permission_set-NodupNames (sa ∷ sas) =
    put-NodupNames sa [] (init_permission_set sas) (init_permission_set-NodupNames sas)

grant_subject-kept_or_put :
    (rules : List String) (s : Subject) (m : List (String × List String))
    → (grant_subject rules s m ≡ m)
      ⊎ ((v : List String) × (grant_subject rules s m ≡ put s.name v m))
unfolding grant_subject
grant_subject-kept_or_put rules s m = elim (Option-cases (lookup s.name m)) [
  | inl e ↦ inl (ground (arith, e))
  | inr (old, e) ↦ elim (Bool-cases (s.kind == "ServiceAccount")) [
    | inl f ↦ inr (old ++ rules, ground (arith, e, f))
    | inr f ↦ inl (ground (arith, e, f))
  ]
]

grant_subject-NodupNames :
    (rules : List String) (s : Subject) (m : List (String × List String))
    → NodupNames (keys m)
    → NodupNames (keys (grant_subject rules s m))
grant_subject-NodupNames rules s m n = elim (grant_subject-kept_or_put rules s m) [
  | inl e ↦ subst (λ x. NodupNames (keys x)) (sym e) n
  | inr (v, e) ↦ subst (λ x. NodupNames (keys x)) (sym e) (put-NodupNames s.name v m n)
]

grant_subjects-NodupNames :
    (rules : List String) (ss : List Subject) (m : List (String × List String))
    → NodupNames (keys m)
    → NodupNames (keys (grant_subjects rules ss m))
unfolding grant_subjects
grant_subjects-NodupNames rules [] m n = n
grant_subjects-NodupNames rules (s ∷ ss) m n =
    grant_subjects-NodupNames rules ss (grant_subject rules s m)
      (grant_subject-NodupNames rules s m n)

grant-NodupNames :
    (rules : RoleRef → List String) (bs : List Binding) (m : List (String × List String))
    → NodupNames (keys m)
    → NodupNames (keys (grant rules bs m))
unfolding grant
grant-NodupNames rules [] m n = n
grant-NodupNames rules (b ∷ bs) m n =
    grant-NodupNames rules bs (grant_subjects (rules b.role_ref) b.subjects m)
      (grant_subjects-NodupNames (rules b.role_ref) b.subjects m n)

Any-filter :
    (sa : String) (rules : List String) (m : List (String × List String))
    → Any (IsEntry sa rules) (filter is_granted m)
      ↔ (Any (IsEntry sa rules) m × (is_granted (sa, rules) ≡ true))
Any-filter sa rules m = (kept m, λ (h, g). keep m h g)
  where
    kept :
        (m : List (String × List String))
        → Any (IsEntry sa rules) (filter is_granted m)
        → Any (IsEntry sa rules) m × (is_granted (sa, rules) ≡ true)
    kept [] h = absurd h
    kept ((i, []) ∷ m) h = let (h', g) = kept m h in (inr h', g)
    kept ((i, w ∷ ws) ∷ m) (inl (e, f)) =
        (inl (e, f), subst (λ r. is_granted (sa, r) ≡ true) f refl)
    kept ((i, w ∷ ws) ∷ m) (inr h) = let (h', g) = kept m h in (inr h', g)

    keep :
        (m : List (String × List String))
        → Any (IsEntry sa rules) m
        → is_granted (sa, rules) ≡ true
        → Any (IsEntry sa rules) (filter is_granted m)
    keep [] h g = absurd h
    keep ((i, []) ∷ m) (inl (e, f)) g = ground (arith, f, g)
    keep ((i, []) ∷ m) (inr h) g = keep m h g
    keep ((i, w ∷ ws) ∷ m) (inl (e, f)) g = inl (e, f)
    keep ((i, w ∷ ws) ∷ m) (inr h) g = inr (keep m h g)

-- A sort keeps the elements of the list.
abbrev pub KeepsElements : (List (String × List String) → List (String × List String)) → Type 1
KeepsElements sorted =
    (P : String × List String → Type 0) (m : List (String × List String))
    → Any P (sorted m) ↔ Any P m

is_granted-nonempty :
    (sa : String) (given : List String) → (is_granted (sa, given) ≡ true) ↔ ¬ (given ≡ [])
is_granted-nonempty sa [] = (λ h. absurd (ground (arith, h)), λ n. absurd (n refl))
is_granted-nonempty sa (r ∷ rs) = (λ h. λ e. absurd (ground (arith, e)), λ n. refl)

module _ (sorted : List (String × List String) → List (String × List String))
    (Sorted : KeepsElements sorted) where
  granted_lem :
      (rules : RoleRef → List String) (bs : List Binding) (sas : List String) (sa : String)
      (given : List String)
      → Any
          (IsEntry sa given)
          (sorted (filter is_granted (grant rules bs (init_permission_set sas))))
        ↔ ((contains sas sa ≡ true)
            × ((binding_rules sa rules bs ≡ given) × (is_granted (sa, given) ≡ true)))
  granted_lem rules bs sas sa given =
      let m = grant rules bs (init_permission_set sas) in
      let n =
        grant-NodupNames rules bs (init_permission_set sas) (init_permission_set-NodupNames sas) in
      let look = grant-init_permission_set sa rules bs sas in
      (
        λ h.
            let (a, g) =
              (Any-filter sa given m).0 ((Sorted (IsEntry sa given) (filter is_granted m)).0 h) in
            let e = Any-IsEntry sa given m n a in
            (ground (arith, look, e), (ground (arith, look, e), g)),
        λ (c, (f, g)).
            (Sorted (IsEntry sa given) (filter is_granted m)).1
              ((Any-filter sa given m).1 (lookup-Any sa given m (ground (arith, look, c, f)), g)),
      )

  listed_lem :
      (rules : RoleRef → List String) (bs : List Binding) (deployments extra : List String)
      (sa : String) (given : List String)
      → Any (IsEntry sa given) (
          sorted (
            filter is_granted
              (grant rules bs (init_permission_set (csv_service_accounts deployments extra)))))
        ↔ ((is_account deployments extra sa ≡ true)
            × (binding_rules sa rules bs ≡ given)
            × ¬ (given ≡ []))
  listed_lem rules bs deployments extra sa given =
      let (to, from) = granted_lem rules bs (csv_service_accounts deployments extra) sa given in
      let account = csv_service_accounts-is_account deployments extra sa in
      (
        λ h. let (c, (f, g)) = to h in (sym account ∙ c, f, (is_granted-nonempty sa given).0 g),
        λ (c, f, n). from (account ∙ c, (f, (is_granted-nonempty sa given).1 n)),
      )

  -- Where no object is a nil pointer and the sort keeps the elements: the permissions that
  -- `applyRoles` writes list a service account with rules just when the account is one of the
  -- deployments' or the extra ones, the rules are those of the last role or cluster role of the name
  -- in each role binding that has the account as a subject, in the bindings' order, and there is at
  -- least one rule.
  pub apply_roles-listed :
      (c : Manifests) (objs : List Permission) (extra : List String) (h : all is_there objs ≡ true)
      (sa : String) (given : List String)
      → (ps : List (String × List String)) × (apply_roles sorted c objs extra ≡ some ps)
        × (Any (IsEntry sa given) ps ↔ (
            (is_account c.deployments extra sa ≡ true)
            × (binding_rules sa (named_rules objs) c.role_bindings ≡ given)
            × ¬ (given ≡ [])))
  unfolding apply_roles
  apply_roles-listed c objs extra h sa given =
      let (rs, cs, e) = role_sets-is_there objs h in
      let rules : role_rules rs cs ≡ named_rules objs =
        fun_ext (λ ref. role_rules-named_rules objs rs cs ref e) in
      (
        sorted (
            filter is_granted (
              grant (role_rules rs cs) c.role_bindings
                (init_permission_set (csv_service_accounts c.deployments extra)))),
        ground (arith, e),
        subst
            (λ f.
              Any (IsEntry sa given) (
                sorted (
                  filter is_granted (
                    grant (role_rules rs cs) c.role_bindings
                      (init_permission_set (csv_service_accounts c.deployments extra)))))
              ↔ ((is_account c.deployments extra sa ≡ true)
                  × (binding_rules sa f c.role_bindings ≡ given)
                  × ¬ (given ≡ [])))
            rules (listed_lem (role_rules rs cs) c.role_bindings c.deployments extra sa given),
      )

  -- The cluster permissions that `applyClusterRoles` writes list a service account with rules just
  -- when it is one of the deployments' or the extra ones, the rules are those of the cluster roles
  -- that the cluster role bindings give to it, in the bindings' order, and there is at least one,
  -- where no object is a nil pointer and the sort keeps the elements.
  apply_cluster_roles-listed :
      (c : Manifests) (objs : List Permission) (extra : List String) (rs cs : List (String × Role))
      (h : role_sets objs ≡ some (rs, cs)) (sa : String) (given : List String)
      → (ps : List (String × List String)) × ((apply_cluster_roles sorted c objs extra ≡ some ps)
          × (Any (IsEntry sa given) ps ↔ (
              (contains (csv_service_accounts c.deployments extra) sa ≡ true)
              × ((binding_rules sa (λ ref. rules_in ref.name cs) c.cluster_role_bindings ≡ given)
                  × (is_granted (sa, given) ≡ true)))))
  unfolding apply_cluster_roles
  apply_cluster_roles-listed c objs extra rs cs h sa given = (
    sorted (
        filter is_granted (
          grant (λ ref. rules_in ref.name cs) c.cluster_role_bindings
            (init_permission_set (csv_service_accounts c.deployments extra)))),
    (
      ground (arith, h),
      granted_lem (λ ref. rules_in ref.name cs) c.cluster_role_bindings
          (csv_service_accounts c.deployments extra) sa given,
    ),
  )
