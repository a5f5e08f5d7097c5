-- ===== src/Olm/OlmInstaller/Missing.antt =====
-- What the first checks of InstallVersion say of the objects: which were missing.
use mathlib.Core.Path.{subst}
use operator_sdk.Base.{
  ◌⊎◌, Any, Bool-cases, filter, ==_iff, String, Bool, true, false, Option, some, List, [], ◌∷◌, any,
  All, ◌≡◌, sym, ap, ◌∙◌, arith, inl, inr, Option-cases,
}
use operator_sdk.Errors.{is_not_found, wrap, Error, ok}
use operator_sdk.Olm.Status.{
  has_no_match, Object, ResourceStatus, object_status, get_objects_status,
}
use operator_sdk.Olm.Status.Laws.{IsCrdOf, IsClean}
use operator_sdk.Olm.OlmInstaller.{olm_group, is_not_olm, filter_resources}

-- The object was not found, or its kind is unknown and one of the objects is the CRD that defines
-- it.
abbrev pub IsMissing : (Object → Option Error) → List Object → Object → Type 0
IsMissing get objs o =
    (e : Error) × (get o ≡ some e)
    × ((is_not_found e ≡ true)
        ⊎ ((has_no_match e ≡ true)
            × Any (λ d. (d.gvk.kind ≡ "CustomResourceDefinition") × (d.crd_kind ≡ ok o.gvk.kind))
                objs))

object_status-object : (get : Object → Option Error) (o : Object) → (object_status get o).object ≡ o
unfolding object_status
object_status-object get o = elim (Option-cases (get o)) [
  | inl e ↦ ground (arith, e)
  | inr (x, e) ↦ ground (arith, e)
]

crd_object :
    (get : Object → Option Error) (kind : String) (objs : List Object)
    → Any (IsCrdOf kind) (get_objects_status get objs)
    → Any (λ d. (d.gvk.kind ≡ "CustomResourceDefinition") × (d.crd_kind ≡ ok kind)) objs
unfolding get_objects_status
crd_object get kind [] h = absurd h
crd_object get kind (o ∷ os) (inl (k, c)) =
    let e = object_status-object get o in
    inl (ap (λ (d : Object). d.gvk.kind) (sym e) ∙ k, ap (λ (d : Object). d.crd_kind) (sym e) ∙ c)
crd_object get kind (o ∷ os) (inr h) = inr (crd_object get kind os h)

-- The status of an object that could not be read.
abbrev unread : Object → Error → ResourceStatus
unread o x = record { object = o; found = false; error = some (wrap "error getting resource" x) }

clean_unread :
    (get : Object → Option Error) (objs : List Object) (o : Object) (x : Error)
    → get o ≡ some x
    → IsClean (get_objects_status get objs) (unread o x)
    → IsMissing get objs o
unfolding is_not_found has_no_match
clean_unread get objs o x e (inl f) = absurd (ground (arith, f))
clean_unread get objs o x e (inr (y, f, inl n)) = (x, e, inl (ground (arith, f, n)))
clean_unread get objs o x e (inr (y, f, inr (m, a))) =
    (x, e, inr (ground (arith, f, m), crd_object get o.gvk.kind objs a))

pub IsClean-IsMissing :
    (get : Object → Option Error) (objs : List Object) (o : Object)
    → (object_status get o).found ≡ false
    → IsClean (get_objects_status get objs) (object_status get o)
    → IsMissing get objs o
unfolding object_status
IsClean-IsMissing get objs o f c = elim (Option-cases (get o)) [
  | inl e ↦ absurd (ground (arith, e, f))
  | inr (x, e) ↦
      let same : object_status get o ≡ unread o x = ground (arith, e) in
      clean_unread get objs o x e (subst (IsClean (get_objects_status get objs)) same c)
]

pub found_none :
    (get : Object → Option Error) (whole objs : List Object)
    → any (λ r. r.found) (get_objects_status get objs) ≡ false
    → All (IsClean (get_objects_status get whole)) (get_objects_status get objs)
    → All (IsMissing get whole) objs
unfolding get_objects_status
found_none get whole [] h c = tt
found_none get whole (o ∷ os) h (c, cs) = (
  IsClean-IsMissing get whole o (ground (arith, h)) c,
  found_none get whole os (ground (arith, h)) cs,
)

-- An object of OLM's own API.
abbrev pub IsOlm : Object → Type 0
IsOlm o = (o.gvk.group ≡ olm_group) × ((o.gvk.version ≡ "v1") ⊎ (o.gvk.version ≡ "v1alpha1"))

is_not_olm-IsOlm : (o : Object) → is_not_olm o ≡ false → IsOlm o
unfolding is_not_olm
is_not_olm-IsOlm o h = ground (
  arith,
  h,
  ==_iff o.gvk.group olm_group,
  ==_iff o.gvk.version "v1",
  ==_iff o.gvk.version "v1alpha1",
)

filter-kept :
    (p : Object → Bool) (o : Object) (os : List Object)
    → p o ≡ true
    → filter p (o ∷ os) ≡ o ∷ filter p os
filter-kept p o os e = ground (arith, e)

filter-dropped :
    (p : Object → Bool) (o : Object) (os : List Object)
    → p o ≡ false
    → filter p (o ∷ os) ≡ filter p os
filter-dropped p o os e = ground (arith, e)

Any-filter :
    (p : Object → Bool) (Q : Object → Type 0) (os : List Object) → Any Q (filter p os) → Any Q os
Any-filter p Q [] h = absurd h
Any-filter p Q (o ∷ os) h = elim (Bool-cases (p o)) [
  | inl e ↦ elim (subst (Any Q) (filter-kept p o os e) h) as (λ x. Q o ⊎ Any Q os) [
    | inl q ↦ inl q
    | inr q ↦ inr (Any-filter p Q os q)
  ]
  | inr e ↦ inr (Any-filter p Q os (subst (Any Q) (filter-dropped p o os e) h))
]

-- Each object is one of OLM's own API, or was missing.
abbrev pub AreMissing : (Object → Option Error) → List Object → List Object → Type 0
AreMissing get whole os = All (λ o. IsOlm o ⊎ IsMissing get whole o) os

pub missing_of_filtered :
    (get : Object → Option Error) (whole os : List Object)
    → All (IsMissing get (filter_resources whole is_not_olm)) (filter_resources os is_not_olm)
    → AreMissing get whole os
unfolding filter_resources
missing_of_filtered get whole [] h = tt
missing_of_filtered get whole (o ∷ os) h =
    let Q = IsMissing get (filter is_not_olm whole) in
    elim (Bool-cases (is_not_olm o)) [
      | inl e ↦
          let (m, ms) = subst (All Q) (filter-kept is_not_olm o os e) h in
          (inr (missing_of_whole m), missing_of_filtered get whole os ms)
      | inr e ↦ (
        inl (is_not_olm-IsOlm o e),
        missing_of_filtered get whole os (subst (All Q) (filter-dropped is_not_olm o os e) h),
      )
    ]
  where
    missing_of_whole : IsMissing get (filter is_not_olm whole) o → IsMissing get whole o
    missing_of_whole (x, e, inl n) = (x, e, inl n)
    missing_of_whole (x, e, inr (m, a)) = (x, e, inr (m, Any-filter is_not_olm _ whole a))
