-- ===== src/Olm/Registry/Installer/Groups.antt =====
-- ensureOperatorGroup: which namespaces the operator group has.
use mathlib.Core.Path.{subst}
use operator_sdk.Base.{
  true, false, Any, all, ◌↔◌, Bool-cases, Option, none, some, List, [], ◌∷◌, ◌≡◌, refl, arith, ◌⊎◌,
  inl, inr,
}
use operator_sdk.Base.Split.{Text}
use operator_sdk.Base.Text.{same, same-eq}
use operator_sdk.Errors.{Result, ok, err, Result-cases}
use operator_sdk.Olm.InstallMode.{ModeType, own_mode, single_mode, multi_mode, mode_type}
use operator_sdk.Olm.Registry.Installer.{
  OperatorGroup, create_group, OperatorInstaller, Env, is_empty, supports, only, same_set,
  new_sdk_operator_group, get_target_namespaces, chosen_modes, is_operator_group_compatible,
  get_operator_group, use_group, ensure_operator_group,
}

-- The namespaces that an install mode means, in an operator namespace.
unfoldable pub meant : ModeType → List Text → Text → List Text
meant own_mode targets ns = ns ∷ []
meant single_mode targets ns = targets
meant multi_mode targets ns = targets
meant _ targets ns = []

module _ (o : OperatorInstaller) where
  chosen_modes-only :
      (supported : List Text)
      → is_empty o.install_mode ≡ false
      → chosen_modes o ≡ ok supported
      → (supported ≡ o.install_mode.install_mode_type ∷ [])
        × (supports o.supported_install_modes o.install_mode.install_mode_type ≡ true)
  unfolding chosen_modes only
  chosen_modes-only supported e h = ground (arith, e, h)

  get_target_namespaces-meant :
      (targets : List Text)
      → get_target_namespaces o (o.install_mode.install_mode_type ∷ []) ≡ ok targets
      → targets
        ≡ meant
            (mode_type o.install_mode.install_mode_type)
            o.install_mode.target_namespaces
            o.namespace
  unfolding get_target_namespaces meant mode_type
  get_target_namespaces-meant targets h = ground (arith, h)

-- The lists have the same texts.
abbrev pub IsSameSet : List Text → List Text → Type 0
IsSameSet xs ys = (t : Text) → Any (λ x. x ≡ t) xs ↔ Any (λ y. y ≡ t) ys

-- The namespaces of a new group for the targets: a first target that is empty means all namespaces.
abbrev pub IsFor : List Text → List Text → Type 0
IsFor [] namespaces = namespaces ≡ []
IsFor ([] ∷ ts) namespaces = namespaces ≡ []
IsFor ((c ∷ cs) ∷ ts) namespaces = namespaces ≡ (c ∷ cs) ∷ ts

supports-Any : (xs : List Text) (t : Text) → supports xs t ≡ true → Any (λ x. x ≡ t) xs
supports-Any [] t h = absurd (ground (arith, h))
supports-Any (x ∷ xs) t h = elim (Bool-cases (same x t)) [
  | inl e ↦ inl (same-eq x t e)
  | inr e ↦ inr (supports-Any xs t (ground (arith, e, h)))
]

all-supports :
    (ys xs : List Text) (t : Text)
    → all (supports ys) xs ≡ true
    → Any (λ x. x ≡ t) xs
    → Any (λ y. y ≡ t) ys
all-supports ys [] t h a = absurd a
all-supports ys (x ∷ xs) t h (inl e) =
    supports-Any ys t (subst (λ u. supports ys u ≡ true) e (ground (arith, h)))
all-supports ys (x ∷ xs) t h (inr a) = all-supports ys xs t (ground (arith, h)) a

same_set-IsSameSet : (xs ys : List Text) → same_set xs ys ≡ true → IsSameSet xs ys
unfolding same_set
same_set-IsSameSet xs ys h t =
    (all-supports ys xs t (ground (arith, h)), all-supports xs ys t (ground (arith, h)))

new_sdk_operator_group-IsFor :
    (ns : Text) (targets : List Text)
    → ((new_sdk_operator_group ns targets).namespace ≡ ns)
      × IsFor targets (new_sdk_operator_group ns targets).target_namespaces
unfolding new_sdk_operator_group
new_sdk_operator_group-IsFor ns [] = (refl, refl)
new_sdk_operator_group-IsFor ns ([] ∷ ts) = (refl, refl)
new_sdk_operator_group-IsFor ns ((c ∷ cs) ∷ ts) = (refl, refl)

module _ (E : Env) (o : OperatorInstaller) where
  -- The namespace has a group: the only one that was listed, which is for exactly the targets, or
  -- one that was created for them where there was none.
  unfoldable pub HasGroup : List Text → Type 0
  HasGroup targets =
      ((og : OperatorGroup) × (E.groups ≡ ok (og ∷ []))
        × IsSameSet og.target_namespaces targets
        × ((ensure_operator_group E o).0 ≡ []))
      ⊎ ((E.groups ≡ ok [])
          × (og : OperatorGroup) × ((ensure_operator_group E o).0 ≡ create_group og ∷ [])
          × (og.namespace ≡ o.namespace)
          × IsFor targets og.target_namespaces)

  ensure_operator_group-found :
      (found : Option OperatorGroup) (supported targets : List Text)
      → get_operator_group E.groups ≡ ok found
      → chosen_modes o ≡ ok supported
      → get_target_namespaces o supported ≡ ok targets
      → ensure_operator_group E o ≡ use_group E o found targets
  unfolding ensure_operator_group
  ensure_operator_group-found found supported targets g c t = ground (arith, g, c, t)

  ensure_operator_group-ok :
      (ensure_operator_group E o).1 ≡ none
      → (found : Option OperatorGroup) × (supported : List Text) × (targets : List Text)
        × (get_operator_group E.groups ≡ ok found)
        × (chosen_modes o ≡ ok supported)
        × (get_target_namespaces o supported ≡ ok targets)
  unfolding ensure_operator_group
  ensure_operator_group-ok h = elim (Result-cases (get_operator_group E.groups)) [
    | inr (x, e) ↦ absurd (ground (arith, e, h))
    | inl (found, e) ↦ elim (Result-cases (chosen_modes o)) [
      | inr (x, c) ↦ absurd (ground (arith, e, c, h))
      | inl (supported, c) ↦ elim (Result-cases (get_target_namespaces o supported)) [
        | inr (x, t) ↦ absurd (ground (arith, e, c, t, h))
        | inl (targets, t) ↦ (found, supported, targets, e, c, t)
      ]
    ]
  ]

  get_operator_group-none :
      (answer : Result (List OperatorGroup)) → get_operator_group answer ≡ ok none → answer ≡ ok []
  unfolding get_operator_group
  get_operator_group-none (err e) h = absurd (cc)
  get_operator_group-none (ok []) h = refl
  get_operator_group-none (ok (g ∷ [])) h = absurd (ground (arith, h))
  get_operator_group-none (ok (g ∷ g' ∷ gs)) h = absurd (cc)

  get_operator_group-some :
      (answer : Result (List OperatorGroup)) (og : OperatorGroup)
      → get_operator_group answer ≡ ok (some og)
      → answer ≡ ok (og ∷ [])
  unfolding get_operator_group
  get_operator_group-some (err e) og h = absurd (cc)
  get_operator_group-some (ok []) og h = absurd (ground (arith, h))
  get_operator_group-some (ok (g ∷ [])) og h = ground (arith, h)
  get_operator_group-some (ok (g ∷ g' ∷ gs)) og h = absurd (cc)

  use_group-HasGroup :
      (found : Option OperatorGroup) (targets : List Text)
      → get_operator_group E.groups ≡ ok found
      → ensure_operator_group E o ≡ use_group E o found targets
      → (ensure_operator_group E o).1 ≡ none
      → is_empty o.install_mode ≡ false
      → HasGroup targets
  unfolding HasGroup use_group is_operator_group_compatible
  use_group-HasGroup none targets g e h n =
      let og = new_sdk_operator_group o.namespace targets in
      let (ns, ts) = new_sdk_operator_group-IsFor o.namespace targets in
      inr (get_operator_group-none E.groups g, og, ground (arith, e, h), ns, ts)
  use_group-HasGroup (some og) targets g e h n = inl (
    og,
    get_operator_group-some E.groups og g,
    same_set-IsSameSet og.target_namespaces targets (ground (arith, e, h, n)),
    ground (arith, e),
  )

  -- Where ensureOperatorGroup succeeds for an install mode that was given, the operator supports the
  -- mode, and the namespace has an operator group for the namespaces that the mode means: the only
  -- one that is there, with exactly these, or where there was none, one that was created for them
  -- in the operator's namespace. A first namespace that is empty means all of them.
  pub ensure_operator_group-HasGroup :
      (ensure_operator_group E o).1 ≡ none
      → is_empty o.install_mode ≡ false
      → (supports o.supported_install_modes o.install_mode.install_mode_type ≡ true)
        × HasGroup (
            meant
              (mode_type o.install_mode.install_mode_type)
              o.install_mode.target_namespaces
              o.namespace)
  ensure_operator_group-HasGroup h given =
      let (found, supported, targets, g, c, t) = ensure_operator_group-ok h in
      let (only, has) = chosen_modes-only o supported given c in
      let t' = subst (λ ms. get_target_namespaces o ms ≡ ok targets) only t in
      (
        has,
        subst HasGroup (get_target_namespaces-meant o targets t') (
            use_group-HasGroup found targets g
              (ensure_operator_group-found found supported targets g c t) h given),
      )
