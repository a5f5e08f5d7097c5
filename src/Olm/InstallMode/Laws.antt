-- ===== src/Olm/InstallMode/Laws.antt =====
-- install_mode.go: reading back the text of a mode, and the checks of a valid mode.
use operator_sdk.Base.{
  ℕ, String, Bool, true, false, not, ◌||◌, ◌&&◌, none, some, List, [], ◌∷◌, ◌++◌, map, ◌≡◌, ◌≢◌,
  ◌∙◌, refl, sym, ap, nat_beq, nat_beq_iff, length, all, arith, inl, inr, List-cases, leb,
}
use operator_sdk.Base.Text.{same, same-eq, trim_space, trim_left, trim_right}
use operator_sdk.Base.Split.{
  Text, join, has, is_sorted, sort_sorted, split-join, cut-append, cut_whole,
}
use operator_sdk.Olm.InstallMode.{
  InstallMode, all_namespaces, own_namespace, single_namespace, multi_namespace, ModeType, all_mode,
  own_mode, single_mode, multi_mode, empty_mode, unknown_mode, mode_type, index_out_of_range,
  check_labels, check_count, validate, set, to_text, CsvMode, check_namespace, check_supported,
  check_compatibility,
}

-- A character of a DNS-1123 label: a small letter, a digit or a dash.
abbrev pub is_label_char : ℕ → Bool
is_label_char c = (leb b'a' c && leb c b'z') || ((leb b'0' c && leb c b'9') || nat_beq c b'-')

-- The documented behaviour of IsDNS1123Label that matters here: a label that it does not reject
-- consists of small letters, digits and dashes.
abbrev pub IsLabelCheck : (Text → List String) → Type 0
IsLabelCheck check = (s : Text) → check s ≡ [] → all is_label_char s ≡ true

trim_right_label : (s : Text) → all is_label_char s ≡ true → trim_right s ≡ s
unfolding trim_right
trim_right_label [] h = refl
trim_right_label (c ∷ []) h = ground arith
trim_right_label (c ∷ d ∷ s) h = ground (arith, trim_right_label (d ∷ s))

trim_left_label : (s : Text) → all is_label_char s ≡ true → trim_left s ≡ s
unfolding trim_left
trim_left_label [] h = refl
trim_left_label (c ∷ s) h = ground arith

trim_space_label : (s : Text) → all is_label_char s ≡ true → trim_space s ≡ s
unfolding trim_space
trim_space_label s h = ap trim_right (trim_left_label s h) ∙ trim_right_label s h

has_label :
    (sep : ℕ) (s : Text)
    → is_label_char sep ≡ false
    → all is_label_char s ≡ true
    → has sep s ≡ false
has_label sep [] q h = refl
has_label sep (c ∷ s) q h = ground (arith, has_label sep s, nat_beq_iff c sep)

-- A type that Validate knows has no equals sign.
mode_type-no_equals : (t : Text) → mode_type t ≢ unknown_mode → has b'=' t ≡ false
unfolding mode_type
mode_type-no_equals t h = ground (
  arith,
  λ (q : same t all_namespaces ≡ true). ap (has b'=') (same-eq t all_namespaces q),
  λ (q : same t own_namespace ≡ true). ap (has b'=') (same-eq t own_namespace q),
  λ (q : same t single_namespace ≡ true). ap (has b'=') (same-eq t single_namespace q),
  λ (q : same t multi_namespace ≡ true). ap (has b'=') (same-eq t multi_namespace q),
  λ (q : same t [] ≡ true). ap (has b'=') (same-eq t [] q),
)

check_supported_safe :
    (t : Text) (modes : List CsvMode) → check_supported t modes ≢ some index_out_of_range
unfolding check_supported
check_supported_safe t [] h = cc
check_supported_safe t (m ∷ ms) h = ground (arith, h, check_supported_safe t ms)

module _ (check : Text → List String) (L : IsLabelCheck check) where
  -- Facts about the targets of a valid mode.
  check_labels-all :
      (nss : List Text) → check_labels check nss ≡ none → all (all is_label_char) nss ≡ true
  unfolding check_labels
  check_labels-all [] h = refl
  check_labels-all (ns ∷ nss) h = elim (List-cases (check ns)) [
    | inl e ↦ ground (arith, e, h, L ns e, check_labels-all nss)
    | inr (r, rs, e) ↦ absurd (ground (arith, e, h))
  ]

  map_trim_labels :
      (nss : List Text) → all (all is_label_char) nss ≡ true → map trim_space nss ≡ nss
  map_trim_labels [] h = refl
  map_trim_labels (ns ∷ nss) h = ground (arith, trim_space_label ns, map_trim_labels nss)

  no_commas :
      (nss : List Text)
      → all (all is_label_char) nss ≡ true
      → all (λ ns. not (has b',' ns)) nss ≡ true
  no_commas [] h = refl
  no_commas (ns ∷ nss) h = ground (arith, has_label b',' ns refl, no_commas nss)

  abbrev empty_mode_value : InstallMode
  empty_mode_value = record { install_mode_type = []; target_namespaces = [] }

  set_plain :
      (t : Text)
      → has b'=' t ≡ false
      → (set check empty_mode_value t).0 ≡ record { install_mode_type = t; target_namespaces = [] }
  unfolding set
  set_plain t h = rw (cut_whole b'=' t h)

  set_list :
      (t w : Text) (ws : List Text)
      → has b'=' t ≡ false
      → check_labels check (w ∷ ws) ≡ none
      → is_sorted (w ∷ ws) ≡ true
      → (set check empty_mode_value (t ++ (b'=' ∷ join b',' (w ∷ ws)))).0
        ≡ record { install_mode_type = t; target_namespaces = w ∷ ws }
  unfolding set
  set_list t w ws h c o =
      let labels = check_labels-all (w ∷ ws) c in
      rw (
        cut-append b'=' t (join b',' (w ∷ ws)) h,
        split-join b',' w ws (no_commas (w ∷ ws) labels),
        map_trim_labels (w ∷ ws) labels,
        sort_sorted (w ∷ ws) o,
      )

  set_validates :
      (i : InstallMode) (str : Text)
      → validate check i ≡ none
      → (set check empty_mode_value str).0 ≡ i
      → set check empty_mode_value str ≡ (i, none)
  unfolding set
  set_validates i str v e = ground (arith, e, v, ap (validate check) e)

  -- What a mode prints and holds, as the round trip needs it.
  abbrev ReadsBack : InstallMode → Type 0
  ReadsBack i = (set check empty_mode_value (to_text i)).0 ≡ i

  reads_plain :
      (i : InstallMode)
      → has b'=' i.install_mode_type ≡ false
      → to_text i ≡ i.install_mode_type
      → i.target_namespaces ≡ []
      → ReadsBack i
  reads_plain i h p e = rw p (
      set_plain i.install_mode_type h
      ∙ ap (λ (ns : List Text). record i { target_namespaces = ns }) (sym e))

  reads_list :
      (i : InstallMode)
      → has b'=' i.install_mode_type ≡ false
      → to_text i ≡ i.install_mode_type ++ (b'=' ∷ join b',' i.target_namespaces)
      → check_labels check i.target_namespaces ≡ none
      → is_sorted i.target_namespaces ≡ true
      → i.target_namespaces ≢ []
      → ReadsBack i
  reads_list i h p c o n = elim (List-cases i.target_namespaces) [
    | inl e ↦ absurd (n e)
    | inr (w, ws, e) ↦ rw (p, e) (set_list i.install_mode_type w ws h (rw e at c) (rw e at o))
  ]

  length-zero : (nss : List Text) → nat_beq (length nss) 0 ≡ true → nss ≡ []
  length-zero [] h = refl
  length-zero (ns ∷ nss) h = absurd (ground arith)

  reads_back :
      (m : ModeType) (i : InstallMode)
      → mode_type i.install_mode_type ≡ m
      → has b'=' i.install_mode_type ≡ false
      → check_count check m (length i.target_namespaces) ≡ none
      → check_labels check i.target_namespaces ≡ none
      → is_sorted i.target_namespaces ≡ true
      → ReadsBack i
  unfolding to_text check_count
  reads_back all_mode i e h c l o =
      reads_plain i h (ground (arith, e)) (length-zero i.target_namespaces (ground arith))
  reads_back own_mode i e h c l o =
      reads_plain i h (ground (arith, e)) (length-zero i.target_namespaces (ground arith))
  reads_back empty_mode i e h c l o =
      reads_plain i h (ground (arith, e)) (length-zero i.target_namespaces (ground arith))
  reads_back unknown_mode i e h c l o = absurd (cc)
  reads_back single_mode i e h c l o =
      reads_list i h (ground (arith, e)) l o (λ n. ground (arith, ap (length {0}) n))
  reads_back multi_mode i e h c l o =
      reads_list i h (ground (arith, e)) l o (λ n. ground (arith, ap (length {0}) n))

  -- Where the check of labels lets only small letters, digits and dashes through: a valid mode
  -- whose targets are in order is what its text sets an empty value to, with no error.
  pub set-to_text :
      (i : InstallMode)
      → validate check i ≡ none
      → is_sorted i.target_namespaces ≡ true
      → set check (record { install_mode_type = []; target_namespaces = [] }) (to_text i)
        ≡ (i, none)
  unfolding validate
  set-to_text i v o =
      let m = mode_type i.install_mode_type in
      let c : check_count check m (length i.target_namespaces) ≡ none = ground (arith, v) in
      set_validates i (to_text i) v (
        reads_back m i refl (mode_type-no_equals i.install_mode_type (λ u. ground (arith, c, u))) c
          (ground (arith, v, c)) o)

  check_namespace_safe :
      (m : ModeType) (ts : List Text) (ns : Text)
      → check_count check m (length ts) ≡ none
      → check_namespace m ts ns ≢ some index_out_of_range
  unfolding check_count check_namespace
  check_namespace_safe own_mode [] ns c h = cc
  check_namespace_safe own_mode (t ∷ ts) ns c h = ground (arith, h)
  check_namespace_safe single_mode [] ns c h = cc
  check_namespace_safe single_mode (t ∷ ts) ns c h = ground (arith, h)
  check_namespace_safe _ ts ns c h = cc

  -- The checks of a valid mode against a CSV end without the runtime error of an index out of
  -- range.
  pub check_compatibility_safe :
      (i : InstallMode) (modes : List CsvMode) (ns : Text)
      → validate check i ≡ none
      → check_compatibility i modes ns ≢ some index_out_of_range
  unfolding validate check_compatibility
  check_compatibility_safe i modes ns v = ground (
    arith,
    v,
    check_supported_safe i.install_mode_type modes,
    check_namespace_safe (mode_type i.install_mode_type) i.target_namespaces ns,
  )
