-- ===== src/Olm/Uninstall.antt =====
-- internal/olm/operator/uninstall.go: the deletion of a package and of what was installed for it.
pub mod Plan
pub mod Laws
pub mod Missing
use operator_sdk.Base.{
  ℕ, String, Bool, true, false, not, ◌||◌, ◌&&◌, Option, none, some, List, [], ◌∷◌, ◌++◌, ◌<>◌,
  ◌==◌, contains, is_some, if◌then◌else◌,
}
use operator_sdk.Errors.{Error, failure, message, is_not_found, Result, ok, err}

pub record Key : Type 0 where
  pub namespace : String
  pub name : String

pub record Subscription : Type 0 where
  pub name : String
  pub package_name : String
  pub catalog_source_namespace : String
  pub catalog_source : String
  pub installed_csv : String
  pub current_csv : String

-- An entry of `csv.Status.RequirementStatus`.
pub record Requirement : Type 0 where
  pub group : String
  pub version : String
  pub kind : String
  pub name : String

pub record Csv : Type 0 where
  pub name : String
  pub requirements : List Requirement

-- What can be deleted.
pub data Object : Type 0 where
  subscription : Subscription → Object
  csv : Csv → Object
  catalog_source : Key → Object
  crd : Requirement → Object
  operator_group : String → Object

-- `Uninstall`, with the answers of the cluster. `delete` and `wait_deleted` (the poll until the
-- object is not found) are asked once for each object; the subscriptions are listed twice.
pub record Uninstall : Type 0 where
  pub package_name : String
  pub namespace : String
  pub delete_all : Bool
  pub delete_crds : Bool
  pub delete_operator_groups : Bool
  pub delete_operator_group_names : List String
  pub list_subscriptions : Result (List Subscription)
  pub list_subscriptions_again : Result (List Subscription)
  pub list_operator_groups : Result (List String)
  pub get_csv : Key → Result Csv
  pub get_catalog_source : Key → Option Error
  pub object_kinds : Object → Option Error
  pub delete : Object → Option Error
  pub wait_deleted : Object → Option Error

-- The objects whose deletion was asked for, in order, and the error.
pub record Outcome : Type 0 where
  pub deleted : List Object
  pub error : Option Error

abbrev pub return : Option Error → Outcome
return e = record { deleted = []; error = e }

-- One outcome, and a second one if the first has no error.
unfoldable pub and_then : Outcome → Outcome → Outcome
and_then a b = elim a.error [
  | some e ↦ a
  | none ↦ record { deleted = a.deleted ++ b.deleted; error = b.error }
]

-- `len(names) == 0 || slice.ContainsString(names, name)`
unfoldable pub is_chosen : List String → String → Bool
is_chosen [] og = true
is_chosen (n ∷ ns) og = contains (n ∷ ns) og

-- The error of a poll that ends before the object is gone.
unfoldable pub wait_error : Option Error → Option Error
wait_error none = none
wait_error (some e) = some (failure ("wait for deleted: " <> message e))

module _ (u : Uninstall) where
  -- The body of the loop of `deleteObjects`. The kinds and names in the texts of errors are left
  -- out.
  unfoldable pub delete_object : Bool → Object → Outcome
  delete_object wait obj = elim (u.object_kinds obj) [
    | some e ↦ return (some e)
    | none ↦
        let waited : Option Error = (if wait then wait_error (u.wait_deleted obj) else none) in
        elim (u.delete obj) [
          | none ↦ record { deleted = obj ∷ []; error = waited }
          | some e ↦
              if is_not_found e
              then record { deleted = obj ∷ []; error = waited }
              else record { deleted = obj ∷ []; error = some (failure ("delete: " <> message e)) }
        ]
  ]

  -- `deleteObjects`; a nil object is `none` and is passed over.
  unfoldable pub delete_objects : Bool → List (Option Object) → Outcome
  unfolding delete_object and_then
  delete_objects wait [] = return none
  delete_objects wait (none ∷ objs) = delete_objects wait objs
  delete_objects wait (some obj ∷ objs) =
      and_then (delete_object wait obj) (delete_objects wait objs)

  -- The loop over the operator groups.
  unfoldable pub delete_groups : List String → Outcome
  delete_groups [] = return none
  delete_groups (og ∷ ogs) =
      let rest = delete_groups ogs in
      if is_chosen u.delete_operator_group_names og
      then and_then (delete_object false (operator_group og)) rest
      else rest

  -- `deleteOperatorGroup`: only if no subscription is left.
  unfoldable pub delete_operator_group : Outcome
  delete_operator_group = elim u.list_subscriptions_again [
    | err e ↦ return (some (failure ("list subscriptions: " <> message e)))
    | ok (s ∷ ss) ↦ return none
    | ok [] ↦ elim u.list_operator_groups [
      | err e ↦ return (some (failure ("list operatorgroups: " <> message e)))
      | ok ogs ↦ delete_groups ogs
    ]
  ]
