-- ===== src/Olm/Uninstall/Missing.antt =====
-- uninstall.go: what is found where the subscription refers to something that is missing.
use operator_sdk.Base.{
  none, map, ◌||◌, if◌then◌else◌, String, Bool, true, false, some, List, [], ◌∷◌, ◌++◌, ◌≡◌, ◌==◌,
  ==_iff, arith, any, any-append, inl, inr, Bool-cases,
}
use text.Mathlib.TextLemmas.{append-ne-nil_of_right_ne-nil}
use mathlib.Core.List.{append-nil}
use operator_sdk.Errors.{Error, is_not_found, ok, err, Result-cases}
use operator_sdk.Olm.Uninstall.{
  Subscription, Object, csv, subscription, catalog_source, crd, Uninstall,
}
use operator_sdk.Olm.Uninstall.Plan.{
  catalog_name_for_package, Found, no_csv, find_subscription, catalog_key, csv_name, find_csv_of,
  find, run,
}
use operator_sdk.Olm.Uninstall.Laws.{one, owned, groups, plan, run-plan}

not_empty : ("-catalog" == "") ≡ true → ⊥
not_empty e = cc

-- No name of a catalog is empty.
catalog_name-nonempty : (pkg : String) → (catalog_name_for_package pkg == "") ≡ false
unfolding catalog_name_for_package
catalog_name-nonempty pkg = elim (Bool-cases (catalog_name_for_package pkg == "")) [
  | inr q ↦ q
  | inl q ↦ absurd (
      append-ne-nil_of_right_ne-nil pkg {t = "-catalog"}
        (λ e. not_empty ((==_iff "-catalog" "").1 e))
        ((==_iff (catalog_name_for_package pkg) "").0 q))
]

-- A CSV that has no name.
abbrev pub is_nameless_csv : Object → Bool
is_nameless_csv (csv c) = c.name == ""
is_nameless_csv _ = false

module _ (u : Uninstall) where
  any_nameless_last :
      (before after : List Object) → any is_nameless_csv (before ++ (csv no_csv ∷ after)) ≡ true
  any_nameless_last before after =
      ground (arith, any-append is_nameless_csv before (csv no_csv ∷ after))

  plan-nameless : (f : Found) → f.csv_obj ≡ some no_csv → any is_nameless_csv (plan u f) ≡ true
  plan-nameless f c = ground (
    arith,
    c,
    any-append is_nameless_csv (one u subscription f.sub_obj) (owned u f ++ groups u),
    any-append is_nameless_csv (owned u f) (groups u),
    any_nameless_last (if u.delete_all || u.delete_crds then map crd f.crds else [])
        (one u catalog_source f.catalog_obj),
  )

  -- Where the operator's namespace is not empty, the catalog source of a subscription is looked up
  -- by the subscription's reference, whatever the reference is, and so also where it is empty.
  pub catalog_key_unguarded :
      (s : Subscription)
      → (u.namespace == "") ≡ false
      → catalog_key u (some s)
        ≡ record { namespace = s.catalog_source_namespace; name = s.catalog_source }
  unfolding catalog_key
  catalog_key_unguarded s h = ground (arith, catalog_name-nonempty u.package_name, h)

  run-found :
      (subs : List Subscription)
      → u.list_subscriptions ≡ ok subs
      → (run u).error ≡ none
      → (f : Found) × (find u (find_subscription u subs) ≡ ok f)
  unfolding run
  run-found subs l h = elim (Result-cases (find u (find_subscription u subs))) [
    | inl (f, e) ↦ (f, e)
    | inr (x, e) ↦ absurd (ground (arith, l, e, h))
  ]

  -- Where the subscription of the package names a CSV that the cluster does not have, and `Run` ends
  -- without an error, a CSV with no name is among the objects whose deletion it asked for.
  pub missing_csv_deleted :
      (subs : List Subscription) (s : Subscription) (e : Error)
      → u.list_subscriptions ≡ ok subs
      → find_subscription u subs ≡ some s
      → (csv_name u s == "") ≡ false
      → u.get_csv (record { namespace = u.namespace; name = csv_name u s }) ≡ err e
      → is_not_found e ≡ true
      → (run u).error ≡ none
      → any is_nameless_csv (run u).deleted ≡ true
  unfolding find find_csv_of
  missing_csv_deleted subs s e l q n r m h =
      let (f, g) = run-found subs l h in
      let (rest, whole, ends) = run-plan u subs f l g in
      let c : find_csv_of u (some s) ≡ ok (some no_csv, []) = ground (arith, n, r, m) in
      let found : f.csv_obj ≡ some no_csv = ground (arith, q, c, g) in
      ground (arith, whole, ends h, append-nil (run u).deleted, plan-nameless f found)
