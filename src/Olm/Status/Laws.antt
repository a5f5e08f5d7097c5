-- ===== src/Olm/Status/Laws.antt =====
-- HasInstalledResources: the answer does not depend on the order of the resources.
use mathlib.Core.List.{Permᴰ}
use operator_sdk.Base.{
  ◌==◌, ==_iff, ◌⊎◌, some, Any, All, String, Bool, true, false, not, ◌||◌, none, List, [], ◌∷◌, ◌≡◌,
  ◌↔◌, refl, ◌∙◌, arith, any, all, is_some, inl, inr, Bool-cases, Option-cases,
}
use operator_sdk.Errors.{Error, is_not_found, ok, Result-cases}
use operator_sdk.Olm.Status.{
  Gvk, ResourceStatus, has_no_match, get_crd_kind_set, counted, find_installed, aggregate,
  has_installed_resources,
}

find_installed-any :
    (kinds : List String) (rs : List ResourceStatus)
    → (find_installed kinds rs).0 ≡ any (λ r. r.found) rs
unfolding find_installed
find_installed-any kinds [] = refl
find_installed-any kinds (r ∷ rs) = ground (arith, find_installed-any kinds rs)

-- No error of a resource that is not there counts.
abbrev pub no_errors : List String → List ResourceStatus → Bool
no_errors kinds rs = all (λ r. not (is_some (counted kinds r))) rs

aggregate-find_installed :
    (kinds : List String) (rs : List ResourceStatus)
    → (aggregate (find_installed kinds rs).1 ≡ none)
      ↔ ((any (λ r. r.found) rs || no_errors kinds rs) ≡ true)
unfolding find_installed aggregate
aggregate-find_installed kinds [] = ground arith
aggregate-find_installed kinds (r ∷ rs) = elim (Bool-cases r.found) [
  | inl f ↦ ground (arith, f)
  | inr f ↦ elim (Bool-cases (find_installed kinds rs).0) [
    | inl i ↦ ground (arith, f, i, find_installed-any kinds rs)
    | inr i ↦ elim (Option-cases (counted kinds r)) [
      | inl c ↦
          ground (arith, f, i, c, find_installed-any kinds rs, aggregate-find_installed kinds rs)
      | inr (e, c) ↦ ground (arith, f, i, c, find_installed-any kinds rs)
    ]
  ]
]

any-Perm :
    {xs ys : List ResourceStatus} (p : ResourceStatus → Bool) → Permᴰ xs ys → any p xs ≡ any p ys
any-Perm p Permᴰ.nil = refl
any-Perm p (Permᴰ.cons e d) = ground (arith, e, any-Perm p d)
any-Perm p (Permᴰ.swap e f) = ground (arith, e, f)
any-Perm p (Permᴰ.trans d e) = any-Perm p d ∙ any-Perm p e

all-Perm :
    {xs ys : List ResourceStatus} (p : ResourceStatus → Bool) → Permᴰ xs ys → all p xs ≡ all p ys
all-Perm p Permᴰ.nil = refl
all-Perm p (Permᴰ.cons e d) = ground (arith, e, all-Perm p d)
all-Perm p (Permᴰ.swap e f) = ground (arith, e, f)
all-Perm p (Permᴰ.trans d e) = all-Perm p d ∙ all-Perm p e

-- What is relied on: sorting keeps the elements.
abbrev pub IsSort : (List ResourceStatus → List ResourceStatus) → Type 0
IsSort sorted = (rs : List ResourceStatus) → Permᴰ (sorted rs) rs

has_installed_resources-answer :
    (sorted : List ResourceStatus → List ResourceStatus) (rs : List ResourceStatus)
    (kinds : List String) (installed : Bool)
    → get_crd_kind_set rs ≡ ok kinds
    → (has_installed_resources sorted rs ≡ ok installed) ↔ (
        (any (λ r. r.found) (sorted rs) ≡ installed)
        × ((any (λ r. r.found) (sorted rs) || no_errors kinds (sorted rs)) ≡ true))
unfolding has_installed_resources
has_installed_resources-answer sorted rs kinds installed k =
    elim (Option-cases (aggregate (find_installed kinds (sorted rs)).1)) [
      | inl a ↦ ground (
        arith,
        k,
        a,
        find_installed-any kinds (sorted rs),
        aggregate-find_installed kinds (sorted rs),
      )
      | inr (e, a) ↦ ground (
        arith,
        k,
        a,
        find_installed-any kinds (sorted rs),
        aggregate-find_installed kinds (sorted rs),
      )
    ]

has_installed_resources-no_errors :
    (sorted : List ResourceStatus → List ResourceStatus)
    → IsSort sorted
    → (rs : List ResourceStatus) (kinds : List String) → get_crd_kind_set rs ≡ ok kinds
    → ((has_installed_resources sorted rs ≡ ok true) ↔ (any (λ r. r.found) rs ≡ true))
      × ((has_installed_resources sorted rs ≡ ok false)
          ↔ ((any (λ r. r.found) rs ≡ false) × (no_errors kinds rs ≡ true)))
has_installed_resources-no_errors sorted S rs kinds k = ground (
  arith,
  has_installed_resources-answer sorted rs kinds true k,
  has_installed_resources-answer sorted rs kinds false k,
  any-Perm (λ r. r.found) (S rs),
  all-Perm (λ r. not (is_some (counted kinds r))) (S rs),
)

-- The resource is a CRD of the kind.
abbrev pub IsCrdOf : String → ResourceStatus → Type 0
IsCrdOf kind r = (r.object.gvk.kind ≡ "CustomResourceDefinition") × (r.object.crd_kind ≡ ok kind)

-- The error does not count: the resource was not found, or its kind is unknown and one of the CRDs
-- defines it.
abbrev pub IsIgnored : List ResourceStatus → Gvk → Error → Type 0
IsIgnored rs gvk e = (is_not_found e ≡ true) ⊎ ((has_no_match e ≡ true) × Any (IsCrdOf gvk.kind) rs)

-- No error of the resource counts.
abbrev pub IsClean : List ResourceStatus → ResourceStatus → Type 0
IsClean rs r = (r.error ≡ none) ⊎ ((e : Error) × (r.error ≡ some e) × IsIgnored rs r.object.gvk e)

kind_set-Any :
    (rs : List ResourceStatus) (kinds : List String) (kind : String)
    → get_crd_kind_set rs ≡ ok kinds
    → any (λ k. k == kind) kinds ≡ true
    → Any (IsCrdOf kind) rs
unfolding get_crd_kind_set
kind_set-Any [] kinds kind g h = absurd (ground (arith, g, h))
kind_set-Any (r ∷ rs) kinds kind g h =
    elim (Bool-cases (r.object.gvk.kind == "CustomResourceDefinition")) [
      | inr c ↦ inr (kind_set-Any rs kinds kind (ground (arith, c, g)) h)
      | inl c ↦ elim (Result-cases r.object.crd_kind) [
        | inr (x, e) ↦ absurd (ground (arith, c, e, g))
        | inl (k, e) ↦ elim (Result-cases (get_crd_kind_set rs)) [
          | inr (x, f) ↦ absurd (ground (arith, c, e, f, g))
          | inl (ks, f) ↦ elim (Bool-cases (k == kind)) [
            | inl q ↦ inl (
              ground (arith, c, ==_iff r.object.gvk.kind "CustomResourceDefinition"),
              ground (arith, e, q, ==_iff k kind),
            )
            | inr q ↦ inr (kind_set-Any rs ks kind f (ground (arith, c, e, f, g, h, q)))
          ]
        ]
      ]
    ]

Any-kind_set :
    (rs : List ResourceStatus) (kinds : List String) (kind : String)
    → get_crd_kind_set rs ≡ ok kinds
    → Any (IsCrdOf kind) rs
    → any (λ k. k == kind) kinds ≡ true
unfolding get_crd_kind_set
Any-kind_set [] kinds kind g h = absurd h
Any-kind_set (r ∷ rs) kinds kind g (inl (c, d)) = elim (Result-cases (get_crd_kind_set rs)) [
  | inr (x, f) ↦
      absurd (ground (arith, c, d, f, g, ==_iff r.object.gvk.kind "CustomResourceDefinition"))
  | inl (ks, f) ↦
      ground
        (arith, c, d, f, g, ==_iff r.object.gvk.kind "CustomResourceDefinition", ==_iff kind kind)
]
Any-kind_set (r ∷ rs) kinds kind g (inr h) =
    elim (Bool-cases (r.object.gvk.kind == "CustomResourceDefinition")) [
      | inr c ↦ Any-kind_set rs kinds kind (ground (arith, c, g)) h
      | inl c ↦ elim (Result-cases r.object.crd_kind) [
        | inr (x, e) ↦ absurd (ground (arith, c, e, g))
        | inl (k, e) ↦ elim (Result-cases (get_crd_kind_set rs)) [
          | inr (x, f) ↦ absurd (ground (arith, c, e, f, g))
          | inl (ks, f) ↦ ground (arith, c, e, f, g, Any-kind_set rs ks kind f h)
        ]
      ]
    ]

counted-IsClean :
    (rs : List ResourceStatus) (kinds : List String) (r : ResourceStatus)
    → get_crd_kind_set rs ≡ ok kinds
    → (counted kinds r ≡ none) ↔ IsClean rs r
unfolding counted
counted-IsClean rs kinds r g = elim (Option-cases r.error) [
  | inl e ↦ (λ h. inl e, λ h. ground (arith, e))
  | inr (x, e) ↦ elim (Bool-cases (is_not_found x)) [
    | inl n ↦ (λ h. inr (x, e, inl n), λ h. ground (arith, e, n))
    | inr n ↦ (
      λ h. inr (
        x,
        e,
        inr (
          ground (arith, e, n, h),
          kind_set-Any rs kinds r.object.gvk.kind g (ground (arith, e, n, h)),
        ),
      ),
      clean x e n,
    )
  ]
]
  where
    clean :
        (x : Error)
        → r.error ≡ some x
        → is_not_found x ≡ false
        → IsClean rs r
        → counted kinds r ≡ none
    clean x e n (inl f) = ground (arith, e, f)
    clean x e n (inr (y, f, inl m)) = ground (arith, e, f, n, m)
    clean x e n (inr (y, f, inr (m, a))) =
        ground (arith, e, f, n, m, Any-kind_set rs kinds r.object.gvk.kind g a)

no_errors-IsClean :
    (all_rs : List ResourceStatus) (kinds : List String) (rs : List ResourceStatus)
    → get_crd_kind_set all_rs ≡ ok kinds
    → (no_errors kinds rs ≡ true) ↔ All (IsClean all_rs) rs
no_errors-IsClean all_rs kinds [] g = (λ h. tt, λ h. refl)
no_errors-IsClean all_rs kinds (r ∷ rs) g =
    let (to, from) = counted-IsClean all_rs kinds r g in
    let (tos, froms) = no_errors-IsClean all_rs kinds rs g in
    elim (Option-cases (counted kinds r)) [
      | inl c ↦ (λ h. (to c, tos (ground (arith, c, h))), λ (a, b). ground (arith, c, froms b))
      | inr (x, c) ↦
          (λ h. absurd (ground (arith, c, h)), λ (a, b). absurd (ground (arith, c, from a)))
    ]

-- In whatever order the resources are sorted, and where the CRDs among them can be converted,
-- HasInstalledResources answers with true exactly if a resource was found, whatever errors the
-- others have, and with false exactly if none was found and each error is that the resource was not
-- found, or that its kind is unknown and one of the CRDs defines it.
pub has_installed_resources_iff :
    (sorted : List ResourceStatus → List ResourceStatus)
    → IsSort sorted
    → (rs : List ResourceStatus) (kinds : List String) → get_crd_kind_set rs ≡ ok kinds
    → ((has_installed_resources sorted rs ≡ ok true) ↔ (any (λ r. r.found) rs ≡ true))
      × ((has_installed_resources sorted rs ≡ ok false)
          ↔ ((any (λ r. r.found) rs ≡ false) × All (IsClean rs) rs))
has_installed_resources_iff sorted S rs kinds k =
    let (to, from) = no_errors-IsClean rs kinds rs k in
    let (found, (none_to, none_from)) = has_installed_resources-no_errors sorted S rs kinds k in
    (found, (λ h. let (a, b) = none_to h in (a, to b), λ (a, b). none_from (a, from b)))
