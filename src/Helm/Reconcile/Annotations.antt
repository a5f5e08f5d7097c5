-- ===== src/Helm/Reconcile/Annotations.antt =====
-- The custom resource as the reconciler reads it, and the readers of its annotations
-- (reconcile.go: determineReconcilePeriod, hasAnnotation, readBoolAnnotationWithDefault).
use operator_sdk.Base.{
  ℕ, String, Bool, true, false, ◌||◌, Option, none, some, List, [], ◌∷◌, ◌==◌, if◌then◌else◌,
}
use operator_sdk.Errors.{Result, ok}
use operator_sdk.Helm.Status.{StatusField}

-- A `time.Duration` in nanoseconds; `negsuc n` is -(n + 1).
pub data Duration : Type 0 where
  pos : ℕ → Duration
  negsuc : ℕ → Duration

pub record CustomResource (Raw : Type 0) : Type 0 where
  pub namespace : String
  pub name : String
  pub annotations : List (String × String)
  pub finalizers : List String
  pub deletion_timestamp : Option ℕ
  pub status : StatusField Raw

abbrev pub uninstall_finalizer : String
uninstall_finalizer = "helm.sdk.operatorframework.io/uninstall-release"

abbrev pub uninstall_finalizer_legacy : String
uninstall_finalizer_legacy = "uninstall-helm-release"

abbrev pub helm_upgrade_force_annotation : String
helm_upgrade_force_annotation = "helm.sdk.operatorframework.io/upgrade-force"

abbrev pub helm_rollback_force_annotation : String
helm_rollback_force_annotation = "helm.sdk.operatorframework.io/rollback-force"

abbrev pub helm_uninstall_wait_annotation : String
helm_uninstall_wait_annotation = "helm.sdk.operatorframework.io/uninstall-wait"

abbrev pub helm_reconcile_period_annotation : String
helm_reconcile_period_annotation = "helm.sdk.operatorframework.io/reconcile-period"

-- A read of a `map[string]string`.
unfoldable pub lookup : String → List (String × String) → Option String
lookup k [] = none
lookup k ((j, v) ∷ m) = let rest = lookup k m in if j == k then some v else rest

-- `strconv.ParseBool`; `none` is its error.
unfoldable pub parse_bool : String → Option Bool
parse_bool s =
    if s == "1" || (s == "t" || (s == "T" || (s == "true" || (s == "TRUE" || s == "True"))))
    then some true
    else if s == "0" || (s == "f" || (s == "F" || (s == "false" || (s == "FALSE" || s == "False"))))
    then some false
    else none

-- A missing key reads as the empty text, which is tested first.
unfoldable pub has_annotation : String → List (String × String) → Bool
unfolding lookup parse_bool
has_annotation anno annotations = elim (lookup anno annotations) [
  | none ↦ false
  | some v ↦ if v == "" then false else elim (parse_bool v) [ none ↦ false | some b ↦ b ]
]

unfoldable pub read_bool_annotation_with_default : List (String × String) → String → Bool → Bool
unfolding lookup parse_bool
read_bool_annotation_with_default annotations anno fallback = elim (lookup anno annotations) [
  | none ↦ fallback
  | some v ↦ elim (parse_bool v) [ none ↦ fallback | some b ↦ b ]
]

-- `parse_duration` is `time.ParseDuration`.
unfoldable pub determine_reconcile_period :
    (String → Result Duration) → Duration → List (String × String) → Result Duration
unfolding lookup
determine_reconcile_period parse_duration current annotations =
    elim (lookup helm_reconcile_period_annotation annotations) [
      | none ↦ ok current
      | some v ↦ parse_duration v
    ]
