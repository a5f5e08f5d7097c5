-- ===== src/Olm/Uninstall/Laws.antt =====
-- uninstall.go: the order of deletion, and the objects that are found.
use operator_sdk.Base.{
  String, Bool, true, false, ◌||◌, Option, none, some, List, [], ◌∷◌, ◌++◌, ◌<>◌, ◌≡◌, refl, arith,
  sym, ap, ◌∙◌, map, contains, inl, inr, Option-cases, Bool-cases, List-cases, if◌then◌else◌,
}
use mathlib.Core.List.{append-nil, append_assoc}
use operator_sdk.Errors.{Error, failure, message, ok, err, Result-cases}
use operator_sdk.Olm.Uninstall.{
  Csv, Key, Subscription, Requirement, Object, subscription, csv, catalog_source, crd,
  operator_group, Uninstall, Outcome, return, and_then, delete_object, delete_objects, is_chosen,
  delete_groups, delete_operator_group,
}
use operator_sdk.Olm.Uninstall.Plan.{
  Found, find_subscription, find, optional, owners, check_found, delete_found, run,
}

-- What was deleted is the beginning of the plan, and all of it if there was no error.
abbrev pub Follows : Outcome → List Object → Type 0
Follows o plan = (rest : List Object) × (o.deleted ++ rest ≡ plan) × (o.error ≡ none → rest ≡ [])

Follows-and_then :
    (a b : Outcome) (p q : List Object)
    → Follows a p
    → Follows b q
    → Follows (and_then a b) (p ++ q)
unfolding and_then
Follows-and_then a b p q (r, e, n) (r', e', n') = elim (Option-cases a.error) [
  | inr (x, f) ↦
      (r ++ q, ground (arith, f, e, append_assoc a.deleted r q), λ h. absurd (ground (arith, f, h)))
  | inl f ↦ (
    r',
    ground (arith, f, e, e', n f, append-nil a.deleted, append_assoc a.deleted b.deleted r'),
    λ h. n' (ground (arith, f, h)),
  )
]

Follows-nil : (e : Option Error) → Follows (return e) []
Follows-nil e = ([], refl, λ h. refl)

Follows-by :
    {a : Outcome} {p : List Object} (a' : Outcome) (p' : List Object)
    → a ≡ a'
    → p ≡ p'
    → Follows a' p'
    → Follows a p
Follows-by a' p' e f h = rw (e, f) h

-- The objects of a list with nils.
abbrev pub present : List (Option Object) → List Object
present [] = []
present (none ∷ objs) = present objs
present (some obj ∷ objs) = obj ∷ present objs

module _ (u : Uninstall) where
  delete_object-Follows :
      (wait : Bool) (obj : Object) → Follows (delete_object u wait obj) (obj ∷ [])
  unfolding delete_object
  delete_object-Follows wait obj = elim (Option-cases (u.object_kinds obj)) [
    | inr (x, k) ↦ (obj ∷ [], ground (arith, k), λ h. absurd (ground (arith, k, h)))
    | inl k ↦ ([], ground (arith, k), λ h. refl)
  ]

  delete_objects-Follows :
      (wait : Bool) (objs : List (Option Object))
      → Follows (delete_objects u wait objs) (present objs)
  unfolding delete_objects
  delete_objects-Follows wait [] = Follows-nil none
  delete_objects-Follows wait (none ∷ objs) = delete_objects-Follows wait objs
  delete_objects-Follows wait (some obj ∷ objs) =
      Follows-and_then (delete_object u wait obj) (delete_objects u wait objs) (obj ∷ [])
        (present objs) (delete_object-Follows wait obj) (delete_objects-Follows wait objs)

  abbrev is_nil : List String → Bool
  is_nil [] = true
  is_nil (x ∷ xs) = false

  -- The operator groups that may be deleted: all, or those of the given names.
  abbrev pub chosen : List String → List Object
  chosen [] = []
  chosen (og ∷ ogs) =
      let rest = chosen ogs in
      if is_nil u.delete_operator_group_names || contains u.delete_operator_group_names og
      then operator_group og ∷ rest
      else rest

  is_chosen_iff :
      (og : String)
      → is_chosen u.delete_operator_group_names og
        ≡ (is_nil u.delete_operator_group_names || contains u.delete_operator_group_names og)
  unfolding is_chosen
  is_chosen_iff og = elim (List-cases u.delete_operator_group_names) [
    | inl e ↦ ground (arith, e)
    | inr (n, ns, e) ↦ ground (arith, e)
  ]

  delete_groups-Follows : (ogs : List String) → Follows (delete_groups u ogs) (chosen ogs)
  unfolding delete_groups
  delete_groups-Follows [] = Follows-nil none
  delete_groups-Follows (og ∷ ogs) =
      let rest = delete_groups-Follows ogs in
      let both =
        Follows-and_then (delete_object u false (operator_group og)) (delete_groups u ogs)
          (operator_group og ∷ []) (chosen ogs) (delete_object-Follows false (operator_group og))
          rest in
      elim (Bool-cases (is_chosen u.delete_operator_group_names og)) [
        | inl q ↦ rw (q, sym (is_chosen_iff og) ∙ q, delete_groups) both
        | inr q ↦ rw (q, sym (is_chosen_iff og) ∙ q, delete_groups) rest
      ]

  -- The groups are deleted only if they could be listed and no subscription is left.
  abbrev pub groups : List Object
  groups =
      if u.delete_all || u.delete_operator_groups
      then elim u.list_subscriptions_again [
        | ok [] ↦ elim u.list_operator_groups [ ok ogs ↦ chosen ogs | err e ↦ [] ]
        | _ ↦ []
      ]
      else []

  -- The part of `Run` for the operator groups.
  abbrev group_part : Outcome
  group_part =
      if u.delete_all || u.delete_operator_groups then delete_operator_group u else return none

  group_part-Follows : Follows group_part groups
  unfolding delete_operator_group
  group_part-Follows = elim (Bool-cases (u.delete_all || u.delete_operator_groups)) [
    | inr q ↦ nothing none (ground (arith, q)) (ground (arith, q))
    | inl q ↦ elim (Result-cases u.list_subscriptions_again) [
      | inr (x, e) ↦
          nothing (some (failure ("list subscriptions: " <> message x))) (ground (arith, q, e))
            (ground (arith, q, e))
      | inl (subs, e) ↦ elim (List-cases subs) [
        | inr (s, ss, n) ↦ nothing none (ground (arith, q, e, n)) (ground (arith, q, e, n))
        | inl n ↦ elim (Result-cases u.list_operator_groups) [
          | inr (x, g) ↦
              nothing (some (failure ("list operatorgroups: " <> message x)))
                (ground (arith, q, e, n, g)) (ground (arith, q, e, n, g))
          | inl (ogs, g) ↦
              Follows-by (delete_groups u ogs) (chosen ogs) (ground (arith, q, e, n, g))
                (ground (arith, q, e, n, g)) (delete_groups-Follows ogs)
        ]
      ]
    ]
  ]
    where
      nothing : (x : Option Error) → group_part ≡ return x → groups ≡ [] → Follows group_part groups
      nothing x e f = Follows-by (return x) [] e f (Follows-nil x)

  check_found-Follows : (f : Found) → Follows (check_found u f) []
  unfolding check_found
  check_found-Follows f = ([], ground arith, λ h. refl)

  abbrev pub one : {A : Type 0} → (A → Object) → Option A → List Object
  one f none = []
  one f (some a) = f a ∷ []

  -- The CRDs if they are to be deleted, the CSV and the catalog source.
  abbrev pub owned : Found → List Object
  owned f =
      (if u.delete_all || u.delete_crds then map crd f.crds else [])
      ++ (one csv f.csv_obj ++ one catalog_source f.catalog_obj)

  -- The subscription, then the CRDs if they are to be deleted, the CSV and the catalog source, and
  -- last the operator groups.
  abbrev pub plan : Found → List Object
  plan f = one subscription f.sub_obj ++ (owned f ++ groups)

  present-optional :
      {A : Type 0} (g : A → Object) (o : Option A) (objs : List (Option Object))
      → present (optional u g o ∷ objs) ≡ one g o ++ present objs
  present-optional g none objs = refl
  present-optional g (some a) objs = refl

  present-crds :
      (rs : List Requirement) (objs : List (Option Object))
      → present (map (λ r. some (crd r)) rs ++ objs) ≡ map crd rs ++ present objs
  present-crds [] objs = refl
  present-crds (r ∷ rs) objs = ap (λ xs. crd r ∷ xs) (present-crds rs objs)

  present-pair :
      (c : Option Csv) (k : Option Key)
      → present (optional u csv c ∷ optional u catalog_source k ∷ [])
        ≡ one csv c ++ one catalog_source k
  present-pair none none = refl
  present-pair none (some k) = refl
  present-pair (some c) none = refl
  present-pair (some c) (some k) = refl

  present-owned :
      (b : Bool) (rs : List Requirement) (c : Option Csv) (k : Option Key)
      → present (
          (if b then map (λ r. some (crd r)) rs else [])
          ++ (optional u csv c ∷ optional u catalog_source k ∷ []))
        ≡ (if b then map crd rs else []) ++ (one csv c ++ one catalog_source k)
  present-owned true rs c k =
      present-crds rs (optional u csv c ∷ optional u catalog_source k ∷ [])
      ∙ ap (λ xs. map crd rs ++ xs) (present-pair c k)
  present-owned false rs c k = present-pair c k

  present-owners : (f : Found) → present (owners u f) ≡ owned f
  unfolding owners
  present-owners f = present-owned (u.delete_all || u.delete_crds) f.crds f.csv_obj f.catalog_obj

  present-plan :
      (f : Found)
      → present (optional u subscription f.sub_obj ∷ []) ++ (present (owners u f) ++ groups)
        ≡ plan f
  present-plan f = cc (
    present-optional subscription f.sub_obj [],
    append-nil (one subscription f.sub_obj),
    present-owners f,
  )

  Follows-delete_found :
      (f : Found)
      → Follows
          (delete_found u f)
          (present (optional u subscription f.sub_obj ∷ []) ++ (present (owners u f) ++ groups))
  unfolding delete_found
  Follows-delete_found f =
      let owned = present (owners u f) in
      rw (← append-nil groups) (
        Follows-and_then _ _ _ _
          (delete_objects-Follows false (optional u subscription f.sub_obj ∷ []))
          (Follows-and_then _ _ owned (groups ++ []) (delete_objects-Follows true (owners u f))
            (Follows-and_then _ _ groups [] group_part-Follows (check_found-Follows f))))

  run-delete_found :
      (subs : List Subscription) (f : Found)
      → u.list_subscriptions ≡ ok subs
      → find u (find_subscription u subs) ≡ ok f
      → run u ≡ delete_found u f
  unfolding run
  run-delete_found subs f l g = ground (arith, l, g)

  -- Where the subscriptions can be listed and the reads succeed, `Run` deletes what it found in
  -- this order: the subscription, the CRDs if they are to be deleted, the CSV, the catalog source,
  -- and the chosen operator groups if they are to be deleted and no subscription is left. What it
  -- deletes is the beginning of that list, and the whole list if it ends without an error.
  pub run-plan :
      (subs : List Subscription) (f : Found)
      → u.list_subscriptions ≡ ok subs
      → find u (find_subscription u subs) ≡ ok f
      → Follows (run u) (plan f)
  run-plan subs f l g =
      Follows-by (delete_found u f) _ (run-delete_found subs f l g) (sym (present-plan f))
        (Follows-delete_found f)
