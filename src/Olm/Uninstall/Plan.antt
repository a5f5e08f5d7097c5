-- ===== src/Olm/Uninstall/Plan.antt =====
-- uninstall.go: what `Run` finds, and the order in which it deletes it.
use operator_sdk.Base.{
  String, true, false, not, ◌||◌, ◌&&◌, Option, none, some, List, [], ◌∷◌, ◌++◌, ◌<>◌, ◌==◌, map,
  is_some, if◌then◌else◌,
}
use operator_sdk.Errors.{failure, message, is_not_found, Result, ok, err}
use operator_sdk.Olm.Uninstall.{
  Key, Subscription, Requirement, Csv, Object, subscription, csv, catalog_source, crd, Uninstall,
  Outcome, return, and_then, delete_objects, delete_operator_group,
}

-- `getCRDs`
unfoldable pub get_crds : List Requirement → List Requirement
get_crds [] = []
get_crds (r ∷ rs) =
    let rest = get_crds rs in if r.kind == "CustomResourceDefinition" then r ∷ rest else rest

-- `CatalogNameForPackage` (helpers.go)
unfoldable pub catalog_name_for_package : String → String
catalog_name_for_package pkg = pkg <> "-catalog"

-- The objects that were found; `csv_obj` is set whenever a CSV is named, also if it is not found.
pub record Found : Type 0 where
  pub sub_obj : Option Subscription
  pub csv_obj : Option Csv
  pub catalog_obj : Option Key
  pub crds : List Requirement

abbrev pub no_csv : Csv
no_csv = record { name = ""; requirements = [] }

module _ (u : Uninstall) where
  -- The first subscription of the package.
  unfoldable pub find_subscription : List Subscription → Option Subscription
  find_subscription [] = none
  find_subscription (s ∷ ss) =
      let rest = find_subscription ss in if u.package_name == s.package_name then some s else rest

  abbrev pub default_catalog_key : Key
  default_catalog_key = record {
    namespace = u.namespace;
    name = catalog_name_for_package u.package_name;
  }

  -- The key of the catalog source. The guard tests the default key.
  unfoldable pub catalog_key : Option Subscription → Key
  catalog_key none = default_catalog_key
  catalog_key (some s) =
      if not (default_catalog_key.name == "") && not (default_catalog_key.namespace == "")
      then record { namespace = s.catalog_source_namespace; name = s.catalog_source }
      else default_catalog_key

  abbrev pub csv_name : Subscription → String
  csv_name s = if s.installed_csv == "" then s.current_csv else s.installed_csv

  -- The CSV and its CRDs; the error is that of a read which is no "not found".
  unfoldable pub find_csv : Subscription → Result (Option Csv × List Requirement)
  unfolding get_crds
  find_csv s =
      if csv_name s == ""
      then ok (none, [])
      else elim (u.get_csv (record { namespace = u.namespace; name = csv_name s })) [
        | ok c ↦ ok (some c, get_crds c.requirements)
        | err e ↦
            if is_not_found e
            then ok (some no_csv, [])
            else err (failure ("error getting installed CSV: " <> message e))
      ]

  unfoldable pub find_csv_of : Option Subscription → Result (Option Csv × List Requirement)
  unfolding find_csv
  find_csv_of none = ok (none, [])
  find_csv_of (some s) = find_csv s

  -- The first half of `Run`.
  unfoldable pub find : Option Subscription → Result Found
  find sub = elim (find_csv_of sub) [
    | err e ↦ err e
    | ok (c, crds) ↦ elim (u.get_catalog_source (catalog_key sub)) [
      | none ↦
          ok (record {
            sub_obj = sub;
            csv_obj = c;
            catalog_obj = some (catalog_key sub);
            crds = crds;
          })
      | some e ↦
          if is_not_found e
          then ok (record { sub_obj = sub; csv_obj = c; catalog_obj = none; crds = crds })
          else err (failure ("error get catalog source: " <> message e))
    ]
  ]

  abbrev pub optional : {A : Type 0} → (A → Object) → Option A → Option Object
  optional f none = none
  optional f (some a) = some (f a)

  -- The objects whose deletion is waited for.
  unfoldable pub owners : Found → List (Option Object)
  owners f =
      (if u.delete_all || u.delete_crds then map (λ r. some (crd r)) f.crds else [])
      ++ (optional csv f.csv_obj ∷ optional catalog_source f.catalog_obj ∷ [])

  -- `ErrPackageNotFound` if there was nothing to delete.
  unfoldable pub check_found : Found → Outcome
  check_found f =
      if is_some f.sub_obj || (is_some f.catalog_obj || is_some f.csv_obj)
      then return none
      else elim f.crds [
        | [] ↦ return (some (failure ("package " <> u.package_name <> " not found")))
        | r ∷ rs ↦ return none
      ]

  -- The second half of `Run`.
  unfoldable pub delete_found : Found → Outcome
  delete_found f = and_then (delete_objects u false (optional subscription f.sub_obj ∷ [])) (
      and_then (delete_objects u true (owners f)) (
        and_then
          (if u.delete_all || u.delete_operator_groups
            then delete_operator_group u
            else return none)
          (check_found f)))

  -- `Run`
  unfoldable pub run : Outcome
  run = elim u.list_subscriptions [
    | err e ↦ return (some (failure ("list subscriptions: " <> message e)))
    | ok subs ↦ elim (find (find_subscription subs)) [
      | err e ↦ return (some e)
      | ok f ↦ delete_found f
    ]
  ]
