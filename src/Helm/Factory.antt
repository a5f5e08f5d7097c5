-- ===== src/Helm/Factory.antt =====
-- internal/helm/release/manager_factory.go: the name of a release, and the merging of the
-- values of a resource with the overrides of the operator.
pub mod Laws
pub mod Overrides
use operator_sdk.Base.{
  ℕ, String, Bool, true, false, ◌<>◌, Option, none, some, List, [], ◌∷◌, ◌==◌, if◌then◌else◌,
}
use operator_sdk.Errors.{Error, failure, wrap, Result, ok, err}
use operator_sdk.Helm.Release.{Release}
use operator_sdk.Helm.Manager.Sync.{not_found_err}

-- A YAML value: a `map[string]interface{}` or anything else.
mutual
  pub data Value : Type 0 where
    leaf : String → Value
    table : Fields → Value

  pub data Fields : Type 0 where
    end : Fields
    field : String → Value → Fields → Fields

-- `releaseHistory`: `none` is the answer that there is none.
unfoldable pub release_history : Result (List Release) → Result (Option Release)
release_history (err e) = if not_found_err e then ok none else err e
release_history (ok []) = ok none
release_history (ok (rel ∷ rels)) = ok (some rel)

-- `getReleaseName`; `history` is the answer of the storage for the name of the resource.
unfoldable pub get_release_name : Result (List Release) → String → String → Result String
get_release_name history chart_name name = elim (release_history history) [
  | err e ↦ err e
  | ok none ↦ ok name
  | ok (some rel) ↦ elim rel.chart_name [
    | none ↦ err (failure ("could not find chart metadata in release with name " <> name))
    | some existing ↦
        if existing == chart_name
        then ok name
        else err (
            failure (
              "duplicate release name: found existing release with name " <> name <> " for chart "
              <> existing))
  ]
]

-- A read of a map.
unfoldable pub get : String → Fields → Option Value
get k end = none
get k (field j v fs) = let rest = get k fs in if j == k then some v else rest

-- A write to a map: a key has one value.
unfoldable pub put : String → Value → Fields → Fields
put k v end = field k v end
put k v (field j w fs) = let rest = put k v fs in if j == k then field k v fs else field j w rest

-- The table that stands at a key, if there is one.
abbrev pub table_at : String → Fields → Option Fields
table_at k fs = elim (get k fs) [
  | none ↦ none
  | some v ↦ elim v [ leaf s ↦ none | table ts ↦ some ts ]
]

-- `mergeMaps a b`: the loop over `b`, which starts with a copy of `a`. The body of the loop for
-- one value is `merge_value`.
unfoldable mutual
  pub merge_maps : Fields → Fields → Fields
  merge_maps out end = out
  merge_maps out (field k v rest) = merge_maps (put k (merge_value (get k out) v) out) rest

  pub merge_value : Option Value → Value → Value
  merge_value old (leaf s) = leaf s
  merge_value none (table b) = table b
  merge_value (some (leaf s)) (table b) = table b
  merge_value (some (table a)) (table b) = table (merge_maps a b)

-- What `NewManager` reads: the error of the action configuration, the name of the chart that is
-- loaded, the history of the release with the resource's name, the resource's `spec` if that is a
-- map, and the parsed overrides.
pub record Inputs : Type 0 where
  pub action_config : Option Error
  pub load_chart : Result String
  pub history : Result (List Release)
  pub spec : Option Fields
  pub parse_overrides : Result Fields

-- The fields of the manager that are computed.
pub record NewManager : Type 0 where
  pub release_name : String
  pub values : Fields

-- `NewManager`, from the parsing of the overrides on.
unfoldable pub merge_values : Result Fields → String → Fields → Result NewManager
merge_values (err e) name spec = err (wrap "failed to parse override values" e)
merge_values (ok overrides) name spec =
    ok (record { release_name = name; values = merge_maps spec overrides })

-- `NewManager`, with the name of the release.
unfoldable pub named_manager : Inputs → Result String → Result NewManager
unfolding merge_values
named_manager i (err e) = err (wrap "failed to get helm release name" e)
named_manager i (ok name) = elim i.spec [
  | none ↦ err (failure "failed to get spec: expected map[string]interface{}")
  | some spec ↦ merge_values i.parse_overrides name spec
]

-- `NewManager` for a resource of the name.
unfoldable pub new_manager : Inputs → String → Result NewManager
unfolding named_manager
new_manager i name = elim i.action_config [
  | some e ↦ err (wrap "failed to get helm action config" e)
  | none ↦ elim i.load_chart [
    | err e ↦ err (wrap "failed to load chart dir" e)
    | ok chart ↦ named_manager i (get_release_name i.history chart name)
  ]
]
