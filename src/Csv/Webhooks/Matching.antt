-- ===== src/Csv/Webhooks/Matching.antt =====
-- The deployment that clusterserviceversion_updaters.go finds for a webhook's service.
use mathlib.Core.Path.{subst}
use operator_sdk.Base.{
  String, true, false, some, List, [], ◌∷◌, ◌==◌, ==_iff, arith, ◌≡◌, refl, sym, ap, ◌∙◌, All, Any,
  ◌⊎◌, inl, inr, Option-cases, Bool-cases, List-cases,
}
use operator_sdk.Collector.NameMap.{lookup}
use operator_sdk.Csv.Webhooks.{Deployment, selects, find_matching_dep_name}

abbrev pub IsLabel : List (String × String) → String × String → Type 0
IsLabel labels e = lookup e.0 labels ≡ some e.1

selects-All :
    (sel labels : List (String × String)) → selects sel labels ≡ true → All (IsLabel labels) sel
unfolding selects
selects-All [] labels h = tt
selects-All ((k, v) ∷ sel) labels h = elim (Option-cases (lookup k labels)) [
  | inl e ↦ ground (arith, e)
  | inr (w, e) ↦ (ground (arith, e, ==_iff w v), selects-All sel labels (ground (arith, e)))
]

All-selects :
    (sel labels : List (String × String)) → All (IsLabel labels) sel → selects sel labels ≡ true
unfolding selects
All-selects [] labels h = refl
All-selects ((k, v) ∷ sel) labels (e, h) = ground (arith, e, ==_iff v v, All-selects sel labels h)

-- The deployment has no name, or lacks one of the labels.
abbrev pub IsUnselected : List (String × String) → Deployment → Type 0
IsUnselected sel d = (d.name ≡ "") ⊎ ¬ (All (IsLabel d.labels) sel)

unselected :
    (sel labels : List (String × String))
    → selects sel labels ≡ false
    → ¬ (All (IsLabel labels) sel)
unselected sel labels h a = absurd (ground (arith, h, All-selects sel labels a))

abbrev pub IsSelected : List (String × String) → String → Deployment → Type 0
IsSelected sel name d = (d.name ≡ name) × All (IsLabel d.labels) sel

selects-unlabelled :
    (e : String × String) (es : List (String × String)) → selects (e ∷ es) [] ≡ false
unfolding selects lookup
selects-unlabelled e es = refl

find_matching_dep_name-step :
    (e : String × String) (es : List (String × String)) (d : Deployment) (ds : List Deployment)
    → (IsUnselected (e ∷ es) d
        × (find_matching_dep_name (e ∷ es) (d ∷ ds) ≡ find_matching_dep_name (e ∷ es) ds))
      ⊎ ((selects (e ∷ es) d.labels ≡ true)
          × (((d.name == "") ≡ false) × (find_matching_dep_name (e ∷ es) (d ∷ ds) ≡ d.name)))
unfolding find_matching_dep_name selects lookup
find_matching_dep_name-step s es d ds = elim (List-cases d.labels) [
  | inl e ↦ inl (
    inr (unselected (s ∷ es) d.labels (ground (arith, e, selects-unlabelled s es))),
    ground (arith, e),
  )
  | inr (l, ls, e) ↦ elim (Bool-cases (selects (s ∷ es) d.labels)) [
    | inr f ↦ inl (inr (unselected (s ∷ es) d.labels f), ground (arith, e, f))
    | inl f ↦ elim (Bool-cases (d.name == "")) [
      | inl g ↦ inl (inl (ground (arith, g, ==_iff d.name "")), ground (arith, e, g))
      | inr g ↦ inr (f, (g, ground (arith, e, f, g)))
    ]
  ]
]

found_none : (sel : List (String × String)) → find_matching_dep_name sel [] ≡ ""
unfolding find_matching_dep_name
found_none sel = refl

-- The deployment that is found for a selector with entries has every entry among its labels, and
-- its name is not empty; where no name is found, each deployment has no name or lacks one of them.
pub find_matching_dep_name-IsSelected :
    (e : String × String) (es : List (String × String)) (ds : List Deployment)
    → ((find_matching_dep_name (e ∷ es) ds ≡ "") × All (IsUnselected (e ∷ es)) ds)
      ⊎ (((find_matching_dep_name (e ∷ es) ds == "") ≡ false)
          × Any (IsSelected (e ∷ es) (find_matching_dep_name (e ∷ es) ds)) ds)
find_matching_dep_name-IsSelected e es [] = inl (found_none (e ∷ es), tt)
find_matching_dep_name-IsSelected e es (d ∷ ds) = elim (find_matching_dep_name-step e es d ds) [
  | inr (f, (g, h)) ↦ inr (ap (λ r. r == "") h ∙ g, inl (sym h, selects-All (e ∷ es) d.labels f))
  | inl (u, h) ↦ elim (find_matching_dep_name-IsSelected e es ds) [
    | inl (k, all) ↦ inl (h ∙ k, (u, all))
    | inr (k, found) ↦
        inr
          (ap (λ r. r == "") h ∙ k, inr (subst (λ r. Any (IsSelected (e ∷ es) r) ds) (sym h) found))
  ]
]
