-- ===== src/Olm/InstallMode.antt =====
-- internal/olm/operator/install_mode.go: the value of the flag --install-mode.
pub mod Laws
use operator_sdk.Base.{
  ℕ, String, Bool, true, false, not, ◌||◌, ◌&&◌, Option, none, some, List, [], ◌∷◌, ◌++◌, map,
  nat_beq, length, if◌then◌else◌,
}
use operator_sdk.Base.Text.{codes, same, trim_space}
use operator_sdk.Base.Split.{Text, split, cut, join, sort}

pub record InstallMode : Type 0 where
  pub install_mode_type : Text
  pub target_namespaces : List Text

abbrev pub all_namespaces : Text
all_namespaces = codes "AllNamespaces"

abbrev pub own_namespace : Text
own_namespace = codes "OwnNamespace"

abbrev pub single_namespace : Text
single_namespace = codes "SingleNamespace"

abbrev pub multi_namespace : Text
multi_namespace = codes "MultiNamespace"

-- The types that the `switch` statements name, and the rest.
pub data ModeType : Type 0 where
  all_mode own_mode single_mode multi_mode empty_mode unknown_mode : ModeType

unfoldable pub mode_type : Text → ModeType
mode_type t =
    if same t all_namespaces
    then all_mode
    else if same t own_namespace
    then own_mode
    else if same t single_namespace
    then single_mode
    else if same t multi_namespace
    then multi_mode
    else if same t []
    then empty_mode
    else unknown_mode

-- The errors of Validate and CheckCompatibility, and the runtime error of an index out of range.
pub data Problem : Type 0 where
  no_targets_wanted one_target_wanted targets_wanted targets_without_type unknown_type : Problem
  invalid_target : Text → Problem
  not_own_namespace : Text → Problem
  use_own_namespace : Text → Problem
  not_installable not_supported : Problem
  index_out_of_range : Problem

-- `validation.IsDNS1123Label` is a parameter; it gives the reasons against a label.
module _ (is_dns1123_label : Text → List String) where
  -- The loop at the end of `Validate`.
  unfoldable pub check_labels : List Text → Option Problem
  check_labels [] = none
  check_labels (ns ∷ nss) =
      let rest = check_labels nss in
      elim (is_dns1123_label ns) [ [] ↦ rest | reason ∷ reasons ↦ some (invalid_target ns) ]

  -- The `switch` of `Validate`, on the type and the number of targets.
  unfoldable pub check_count : ModeType → ℕ → Option Problem
  check_count all_mode n = if nat_beq n 0 then none else some no_targets_wanted
  check_count own_mode n = if nat_beq n 0 then none else some no_targets_wanted
  check_count single_mode n = if nat_beq n 1 then none else some one_target_wanted
  check_count multi_mode n = if nat_beq n 0 then some targets_wanted else none
  check_count empty_mode n = if nat_beq n 0 then none else some targets_without_type
  check_count unknown_mode n = some unknown_type

  unfoldable pub validate : InstallMode → Option Problem
  unfolding check_labels check_count
  validate i = elim (check_count (mode_type i.install_mode_type) (length i.target_namespaces)) [
    | some p ↦ some p
    | none ↦ check_labels i.target_namespaces
  ]

  -- `Set`: the new value, and the error of `Validate`. The targets are added to those that the
  -- value has.
  unfoldable pub set : InstallMode → Text → InstallMode × Option Problem
  set i str =
      let (type, targets) = cut b'=' str in
      let i' : InstallMode = record {
        install_mode_type = type;
        target_namespaces = elim targets [
          | none ↦ []
          | some list ↦ sort (i.target_namespaces ++ map trim_space (split b',' list))
        ];
      } in
      (i', validate i')

-- `String`
unfoldable pub to_text : InstallMode → Text
to_text i = elim (mode_type i.install_mode_type) [
  | single_mode ↦ i.install_mode_type ++ (b'=' ∷ join b',' i.target_namespaces)
  | multi_mode ↦ i.install_mode_type ++ (b'=' ∷ join b',' i.target_namespaces)
  | _ ↦ i.install_mode_type
]

-- An install mode of a CSV.
pub record CsvMode : Type 0 where
  pub type : Text
  pub supported : Bool

-- The last loop of `CheckCompatibility`.
unfoldable pub check_supported : Text → List CsvMode → Option Problem
check_supported t [] = none
check_supported t (m ∷ ms) =
    let rest = check_supported t ms in
    if same m.type t && not m.supported then some not_supported else rest

-- The guard for the mode's own namespace, and the one for a single other namespace. The
-- message of the latter reads the first target, also where there is none.
unfoldable pub check_namespace : ModeType → List Text → Text → Option Problem
check_namespace own_mode [] ns = none
check_namespace own_mode (t ∷ ts) ns = if same t ns then none else some (not_own_namespace ns)
check_namespace single_mode [] ns = some index_out_of_range
check_namespace single_mode (t ∷ ts) ns = if same t ns then some (use_own_namespace t) else none
check_namespace _ ts ns = none

-- `CheckCompatibility`
unfoldable pub check_compatibility : InstallMode → List CsvMode → Text → Option Problem
unfolding check_namespace check_supported
check_compatibility i modes ns =
    elim (check_namespace (mode_type i.install_mode_type) i.target_namespaces ns) [
      | some p ↦ some p
      | none ↦ elim modes [
        | [] ↦ some not_installable
        | m ∷ ms ↦ check_supported i.install_mode_type (m ∷ ms)
      ]
    ]

-- `GetSupportedInstallModes`
unfoldable pub get_supported_install_modes : List CsvMode → List Text
get_supported_install_modes [] = []
get_supported_install_modes (m ∷ ms) =
    let rest = get_supported_install_modes ms in if m.supported then m.type ∷ rest else rest
