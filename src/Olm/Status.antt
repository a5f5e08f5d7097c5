-- ===== src/Olm/Status.antt =====
-- internal/olm/client/status.go: what is installed of a list of objects.
pub mod Laws
use operator_sdk.Base.{
  String, Bool, true, false, not, ◌||◌, ◌&&◌, Option, none, some, List, [], ◌∷◌, map, any, ◌==◌,
  if◌then◌else◌,
}
use operator_sdk.Errors.{Error, no_match, failure, wrap, message, is_not_found, Result, ok, err}

pub record Gvk : Type 0 where
  pub group : String
  pub version : String
  pub kind : String

-- An object: `crd_kind` is the kind that it defines where it is a CRD, or the error of the
-- conversion.
pub record Object : Type 0 where
  pub gvk : Gvk
  pub namespace : String
  pub name : String
  pub crd_kind : Result String

-- `ResourceStatus`; `found` says that there is a resource.
pub record ResourceStatus : Type 0 where
  pub object : Object
  pub found : Bool
  pub error : Option Error

-- The body of the loop of `GetObjectsStatus`, on the answer to `Get`.
unfoldable pub object_status : (Object → Option Error) → Object → ResourceStatus
object_status get obj = elim (get obj) [
  | none ↦ record { object = obj; found = true; error = none }
  | some e ↦ record { object = obj; found = false; error = some (wrap "error getting resource" e) }
]

unfoldable pub get_objects_status : (Object → Option Error) → List Object → List ResourceStatus
unfolding object_status
get_objects_status get objs = map (object_status get) objs

-- `getCRDKindSet`, as the list of the kinds that are inserted.
unfoldable pub get_crd_kind_set : List ResourceStatus → Result (List String)
get_crd_kind_set [] = ok []
get_crd_kind_set (r ∷ rs) =
    let rest = get_crd_kind_set rs in
    if r.object.gvk.kind == "CustomResourceDefinition"
    then elim r.object.crd_kind [
      | err e ↦ err e
      | ok k ↦ elim rest [ err e ↦ err e | ok ks ↦ ok (k ∷ ks) ]
    ]
    else rest

-- `errors.As(err, &nkmerr)`
unfoldable pub has_no_match : Error → Bool
has_no_match (no_match m) = true
has_no_match (wrap m e) = has_no_match e
has_no_match _ = false

-- The error of a resource that is not there, if it counts.
unfoldable pub counted : List String → ResourceStatus → Option Error
unfolding has_no_match is_not_found
counted kinds r = elim r.error [
  | none ↦ none
  | some e ↦
      if is_not_found e
      then none
      else if not (has_no_match e) || not (any (λ k. k == r.object.gvk.kind) kinds)
      then some e
      else none
]

-- The loop of `HasInstalledResources` behind the errors that were collected.
unfoldable pub find_installed : List String → List ResourceStatus → Bool × List Error
unfolding counted
find_installed kinds [] = (false, [])
find_installed kinds (r ∷ rs) =
    let (installed, errs) = find_installed kinds rs in
    if r.found
    then (true, [])
    else if installed
    then (true, [])
    else elim (counted kinds r) [ none ↦ (false, errs) | some e ↦ (false, e ∷ errs) ]

-- `apiutilerrors.NewAggregate`, whose text is not modelled.
unfoldable pub aggregate : List Error → Option Error
aggregate [] = none
aggregate (e ∷ es) = some (failure "aggregate")

-- `HasInstalledResources`; `sorted` is `sort.Slice` with the comparison of the code, which no order
-- fits.
unfoldable pub has_installed_resources :
    (List ResourceStatus → List ResourceStatus) → List ResourceStatus → Result Bool
unfolding get_crd_kind_set find_installed aggregate
has_installed_resources sorted rs = elim (get_crd_kind_set rs) [
  | err e ↦ err (failure "error getting set of CRD kinds in resources")
  | ok kinds ↦
      let (installed, errs) = find_installed kinds (sorted rs) in
      elim (aggregate errs) [ none ↦ ok installed | some e ↦ err e ]
]
