-- ===== src/Util/K8sutil.antt =====
-- internal/util/k8sutil/k8sutil.go: names of Kubernetes objects, and owner references. A text is
-- the list of its bytes.
pub mod Labels
use operator_sdk.Base.{
  ℕ, suc, ◌+◌, ◌-◌, String, Bool, true, false, not, ◌||◌, ◌&&◌, Option, none, some, List, [], ◌∷◌,
  ◌++◌, length, nat_beq, ltb, leb, if◌then◌else◌,
}
use operator_sdk.Base.Text.{same, to_lower}
use operator_sdk.Base.Split.{Text}
use operator_sdk.Errors.{Error, Result, ok, err}

-- `[a-zA-Z0-9]`
unfoldable pub is_alphanumeric : ℕ → Bool
is_alphanumeric c = (leb 97 c && leb c 122) || ((leb 65 c && leb c 90) || (leb 48 c && leb c 57))

-- `dns1123LabelRegexp.ReplaceAllString(name, "-")`: a run of other characters becomes one dash.
-- The flag says that the character before was such a one.
unfoldable pub replace_runs : Bool → Text → Text
unfolding is_alphanumeric
replace_runs in_run [] = []
replace_runs in_run (c ∷ cs) =
    let kept = replace_runs false cs in
    let run = replace_runs true cs in
    if is_alphanumeric c then c ∷ kept else if in_run then run else b'-' ∷ run

-- `strings.Trim(s, "-")`, from the left and from the right.
unfoldable pub trim_dashes_left : Text → Text
trim_dashes_left [] = []
trim_dashes_left (c ∷ cs) =
    let rest = trim_dashes_left cs in if nat_beq c b'-' then rest else c ∷ cs

unfoldable pub trim_dashes_right : Text → Text
trim_dashes_right [] = []
trim_dashes_right (c ∷ cs) = elim (trim_dashes_right cs) [
  | [] ↦ if nat_beq c b'-' then [] else c ∷ []
  | d ∷ ds ↦ c ∷ d ∷ ds
]

unfoldable pub trim_dashes : Text → Text
unfolding trim_dashes_left trim_dashes_right
trim_dashes s = trim_dashes_right (trim_dashes_left s)

-- `FormatOperatorNameDNS1123`; `validation.IsDNS1123Label` is a parameter.
unfoldable pub format_operator_name_dns1123 : (Text → List String) → Text → Text
unfolding replace_runs trim_dashes to_lower
format_operator_name_dns1123 is_dns1123_label name = elim (is_dns1123_label name) [
  | [] ↦ name
  | reason ∷ reasons ↦ to_lower (trim_dashes (replace_runs false name))
]

abbrev pub dns1123_label_max_length : ℕ
dns1123_label_max_length = 63

-- `label[n:]`
unfoldable pub drop : ℕ → Text → Text
drop n [] = []
drop n (c ∷ cs) = let rest = drop (n - 1) cs in if nat_beq n 0 then c ∷ cs else rest

-- `TrimDNS1123Label`
unfoldable pub trim_dns1123_label : Text → Text
unfolding drop trim_dashes
trim_dns1123_label label =
    if ltb dns1123_label_max_length (length label)
    then trim_dashes (drop (length label - dns1123_label_max_length) label)
    else label

-- An object, as far as the rule on owners reads it: whether its kind is cluster-scoped, an error if
-- the kind has no mapping, and its namespace.
pub record Scoped : Type 0 where
  pub is_cluster_scoped : Result Bool
  pub namespace : Text

-- `SupportsOwnerReference`; the accessors of metadata do not fail on the objects that are passed.
unfoldable pub supports_owner_reference : Scoped → Scoped → Text → Result Bool
supports_owner_reference owner dependent dep_namespace = elim owner.is_cluster_scoped [
  | err e ↦ err e
  | ok owner_scoped ↦ elim dependent.is_cluster_scoped [
    | err e ↦ err e
    | ok dep_scoped ↦
        let ns = if same dep_namespace [] then dependent.namespace else dep_namespace in
        if owner_scoped
        then ok true
        else if dep_scoped
        then ok false
        else if not (same owner.namespace ns)
        then ok false
        else ok true
  ]
]
