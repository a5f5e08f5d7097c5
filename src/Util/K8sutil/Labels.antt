-- ===== src/Util/K8sutil/Labels.antt =====
-- The names that k8sutil.go makes are DNS labels.
use operator_sdk.Base.{
  ℕ, ◌-◌, ◌≤◌, String, Bool, true, false, ◌||◌, ◌&&◌, List, [], ◌∷◌, ◌≡◌, refl, inl, inr, arith,
  length, all, nat_beq, ltb, leb, Bool-cases, List-cases,
}
use operator_sdk.Base.Text.{to_lower, lower_ascii}
use operator_sdk.Base.Split.{Text}
use operator_sdk.Util.K8sutil.{
  is_alphanumeric, replace_runs, trim_dashes_left, trim_dashes_right, trim_dashes,
  format_operator_name_dns1123, dns1123_label_max_length, drop, trim_dns1123_label,
}

-- `[-a-z0-9]`
unfoldable pub is_label_char : ℕ → Bool
is_label_char c = (leb 97 c && leb c 122) || ((leb 48 c && leb c 57) || nat_beq c b'-')

unfoldable pub starts_with_dash : Text → Bool
starts_with_dash [] = false
starts_with_dash (c ∷ cs) = nat_beq c b'-'

unfoldable pub ends_with_dash : Text → Bool
ends_with_dash [] = false
ends_with_dash (c ∷ []) = nat_beq c b'-'
ends_with_dash (c ∷ d ∷ ds) = ends_with_dash (d ∷ ds)

-- A DNS label, or nothing: lower-case letters, digits and dashes, with no dash at an end.
pub record IsLabel (t : Text) : Type 0 where
  pub chars : all is_label_char t ≡ true
  pub start : starts_with_dash t ≡ false
  pub end : ends_with_dash t ≡ false

is_word_char : ℕ → Bool
is_word_char c = is_alphanumeric c || nat_beq c b'-'

replace_runs-words : (b : Bool) (t : Text) → all is_word_char (replace_runs b t) ≡ true
unfolding replace_runs is_word_char
replace_runs-words b [] = refl
replace_runs-words b (c ∷ cs) =
    ground (arith, replace_runs-words false cs, replace_runs-words true cs)

module _ (p : ℕ → Bool) where
  all-trim_dashes_left : (t : Text) → all p t ≡ true → all p (trim_dashes_left t) ≡ true
  unfolding trim_dashes_left
  all-trim_dashes_left [] h = refl
  all-trim_dashes_left (c ∷ cs) h = ground (arith, h, all-trim_dashes_left cs)

  all-trim_dashes_right : (t : Text) → all p t ≡ true → all p (trim_dashes_right t) ≡ true
  unfolding trim_dashes_right
  all-trim_dashes_right [] h = refl
  all-trim_dashes_right (c ∷ cs) h = ground (arith, h, all-trim_dashes_right cs)

  all-drop : (n : ℕ) (t : Text) → all p t ≡ true → all p (drop n t) ≡ true
  unfolding drop
  all-drop n [] h = refl
  all-drop n (c ∷ cs) h = ground (arith, h, all-drop (n - 1) cs)

starts_with_dash-trim_dashes_left : (t : Text) → starts_with_dash (trim_dashes_left t) ≡ false
unfolding trim_dashes_left starts_with_dash
starts_with_dash-trim_dashes_left [] = refl
starts_with_dash-trim_dashes_left (c ∷ cs) = ground (arith, starts_with_dash-trim_dashes_left cs)

starts_with_dash-trim_dashes_right :
    (t : Text) → starts_with_dash t ≡ false → starts_with_dash (trim_dashes_right t) ≡ false
unfolding trim_dashes_right starts_with_dash
starts_with_dash-trim_dashes_right [] h = refl
starts_with_dash-trim_dashes_right (c ∷ cs) h = ground (arith, h)

ends_with_dash-trim_dashes_right : (t : Text) → ends_with_dash (trim_dashes_right t) ≡ false
unfolding trim_dashes_right ends_with_dash
ends_with_dash-trim_dashes_right [] = refl
ends_with_dash-trim_dashes_right (c ∷ cs) = ground (arith, ends_with_dash-trim_dashes_right cs)

trim_dashes-IsLabel : (t : Text) → all is_label_char t ≡ true → IsLabel (trim_dashes t)
unfolding trim_dashes
trim_dashes-IsLabel t h = record {
  chars = all-trim_dashes_right _ (trim_dashes_left t) (all-trim_dashes_left _ t h);
  start =
      starts_with_dash-trim_dashes_right (trim_dashes_left t) (starts_with_dash-trim_dashes_left t);
  end = ends_with_dash-trim_dashes_right (trim_dashes_left t);
}

length-trim_dashes_left : (t : Text) → length (trim_dashes_left t) ≤ length t
unfolding trim_dashes_left
length-trim_dashes_left [] = omega arith
length-trim_dashes_left (c ∷ cs) = ground (arith, length-trim_dashes_left cs)

length-trim_dashes_right : (t : Text) → length (trim_dashes_right t) ≤ length t
unfolding trim_dashes_right
length-trim_dashes_right [] = omega arith
length-trim_dashes_right (c ∷ cs) = ground (arith, length-trim_dashes_right cs)

length-drop : (n : ℕ) (t : Text) → length (drop n t) ≡ length t - n
unfolding drop
length-drop n [] = omega arith
length-drop n (c ∷ cs) = ground (arith, length-drop (n - 1) cs)

-- The trimmed text is not longer than a label may be.
pub length-trim_dns1123_label :
    (t : Text) → length (trim_dns1123_label t) ≤ dns1123_label_max_length
unfolding trim_dns1123_label trim_dashes
length-trim_dns1123_label t =
    let cut = drop (length t - 63) t in
    ground (
      arith,
      length-trim_dashes_right (trim_dashes_left cut),
      length-trim_dashes_left cut,
      length-drop (length t - 63) t,
    )

pub trim_dns1123_label-IsLabel : (t : Text) → IsLabel t → IsLabel (trim_dns1123_label t)
unfolding trim_dns1123_label
trim_dns1123_label-IsLabel t h = elim (Bool-cases (ltb dns1123_label_max_length (length t))) [
  | inl q ↦ rw q (trim_dashes-IsLabel _ (all-drop _ (length t - 63) t h.chars))
  | inr q ↦ rw q h
]

all-to_lower : (t : Text) → all is_word_char t ≡ true → all is_label_char (to_lower t) ≡ true
unfolding to_lower lower_ascii is_word_char is_label_char is_alphanumeric
all-to_lower [] h = refl
all-to_lower (c ∷ cs) h = ground (arith, h, all-to_lower cs)

starts_with_dash-to_lower :
    (t : Text) → starts_with_dash t ≡ false → starts_with_dash (to_lower t) ≡ false
unfolding to_lower lower_ascii starts_with_dash
starts_with_dash-to_lower [] h = refl
starts_with_dash-to_lower (c ∷ cs) h = ground (arith, h)

ends_with_dash-to_lower :
    (t : Text) → ends_with_dash t ≡ false → ends_with_dash (to_lower t) ≡ false
unfolding to_lower lower_ascii ends_with_dash
ends_with_dash-to_lower [] h = refl
ends_with_dash-to_lower (c ∷ []) h = ground (arith, h)
ends_with_dash-to_lower (c ∷ d ∷ ds) h = ends_with_dash-to_lower (d ∷ ds) h

-- What `validation.IsDNS1123Label` says: a text without a reason against it is a label.
abbrev pub IsLabelTest : (Text → List String) → Type 0
IsLabelTest test = (t : Text) → test t ≡ [] → IsLabel t

format_operator_name_dns1123-changed :
    (test : Text → List String) (name : Text) (r : String) (rs : List String)
    → test name ≡ r ∷ rs
    → format_operator_name_dns1123 test name ≡ to_lower (trim_dashes (replace_runs false name))
unfolding format_operator_name_dns1123
format_operator_name_dns1123-changed test name r rs e = ground (arith, e)

format_operator_name_dns1123-kept :
    (test : Text → List String) (name : Text)
    → test name ≡ []
    → format_operator_name_dns1123 test name ≡ name
unfolding format_operator_name_dns1123
format_operator_name_dns1123-kept test name e = ground (arith, e)

to_lower-trim_dashes-IsLabel :
    (t : Text) → all is_word_char t ≡ true → IsLabel (to_lower (trim_dashes t))
unfolding trim_dashes
to_lower-trim_dashes-IsLabel t h =
    let left = trim_dashes_left t in
    let right = trim_dashes_right left in
    record {
      chars = all-to_lower right (all-trim_dashes_right _ left (all-trim_dashes_left _ t h));
      start =
          starts_with_dash-to_lower right
            (starts_with_dash-trim_dashes_right left (starts_with_dash-trim_dashes_left t));
      end = ends_with_dash-to_lower right (ends_with_dash-trim_dashes_right left);
    }

pub format_operator_name_dns1123-IsLabel :
    (test : Text → List String)
    → IsLabelTest test
    → (name : Text) → IsLabel (format_operator_name_dns1123 test name)
format_operator_name_dns1123-IsLabel test T name = elim (List-cases (test name)) [
  | inl e ↦ rw (format_operator_name_dns1123-kept test name e) (T name e)
  | inr (r, rs, e) ↦
      rw (format_operator_name_dns1123-changed test name r rs e)
        (to_lower-trim_dashes-IsLabel (replace_runs false name) (replace_runs-words false name))
]
