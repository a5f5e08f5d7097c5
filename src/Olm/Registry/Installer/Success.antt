-- ===== src/Olm/Registry/Installer/Success.antt =====
-- InstallOperator and UpgradeOperator: what holds when they succeed.
use mathlib.Core.Path.{subst}
use operator_sdk.Base.{
  refl, sym, All, Bool-cases, none, some, List, [], ◌∷◌, ◌++◌, ◌≡◌, ap, ◌∙◌, arith, inl, inr,
  Option-cases, List-cases,
}
use operator_sdk.Base.Split.{Text}
use operator_sdk.Base.Text.{codes, same, same-eq, same_self}
use operator_sdk.Errors.{ok, Result-cases}
use operator_sdk.Olm.Client.Wait.{WaitedCsv}
use operator_sdk.Olm.Registry.Installer.{
  Subscription, Call, create_catalog, update_catalog, create_sub, OperatorInstaller, Env,
  ensure_operator_group, new_subscription, create_subscription, finish, subscribe, install_operator,
  find_subscription, upgrade_subscription, upgrade_operator,
}
use operator_sdk.Olm.Registry.Installer.Steps.{IsPolled, IsFinished, finish-IsFinished}

module _ (E : Env) (L : IsPolled E) (o : OperatorInstaller) where
  create_subscription-ok :
      (cs : Text) (s : Subscription)
      → (create_subscription E o cs).1 ≡ ok s
      → (s ≡ new_subscription E o cs)
        × (E.sub_created s ≡ none)
        × ((create_subscription E o cs).0 ≡ create_sub s ∷ [])
  unfolding create_subscription
  create_subscription-ok cs s h = elim (Option-cases (E.sub_created (new_subscription E o cs))) [
    | inl e ↦ ground (arith, e, h)
    | inr (x, e) ↦ absurd (ground (arith, e, h))
  ]

  subscribe-ok :
      (cs : Text) (csv : WaitedCsv)
      → (subscribe E o cs).1 ≡ ok csv
      → (s : Subscription) × ((create_subscription E o cs).1 ≡ ok s)
        × ((finish E o s).1 ≡ ok csv)
        × ((subscribe E o cs).0 ≡ (create_subscription E o cs).0 ++ (finish E o s).0)
  unfolding subscribe
  subscribe-ok cs csv h = elim (Result-cases (create_subscription E o cs).1) [
    | inl (s, e) ↦ (s, e, ground (arith, e, h), ground (arith, e))
    | inr (x, e) ↦ absurd (ground (arith, e, h))
  ]

  install_operator-steps :
      (csv : WaitedCsv)
      → (install_operator E o).1 ≡ ok csv
      → (cs : Text) × (E.catalog_created o.catalog_source_name ≡ ok cs)
        × ((ensure_operator_group E o).1 ≡ none)
        × ((subscribe E o cs).1 ≡ ok csv)
        × ((install_operator E o).0
            ≡ create_catalog o.catalog_source_name
              ∷ ((ensure_operator_group E o).0 ++ (subscribe E o cs).0))
  unfolding install_operator
  install_operator-steps csv h = elim (Result-cases (E.catalog_created o.catalog_source_name)) [
    | inr (x, e) ↦ absurd (ground (arith, e, h))
    | inl (cs, e) ↦ elim (Option-cases (ensure_operator_group E o).1) [
      | inl g ↦ (cs, e, g, ground (arith, e, g, h), ground (arith, e, g))
      | inr (x, g) ↦ absurd (ground (arith, e, g, h))
    ]
  ]

  -- The subscription is of the package and its channel to the catalog, from the starting CSV on, in
  -- the operator's namespace, and wants its plans to be approved.
  pub record IsNew (cs : Text) (s : Subscription) : Type 0 where
    pub namespace : s.namespace ≡ o.namespace
    pub package_name : s.package_name ≡ o.package_name
    pub channel : s.channel ≡ o.channel
    pub starting_csv : s.starting_csv ≡ o.starting_csv
    pub catalog_source : s.catalog_source ≡ cs
    pub catalog_source_namespace : s.catalog_source_namespace ≡ o.namespace
    pub approval : s.approval ≡ codes "Manual"

  new_subscription-IsNew : (cs : Text) → IsNew cs (new_subscription E o cs)
  unfolding new_subscription
  new_subscription-IsNew cs = record {
    namespace = refl;
    package_name = refl;
    channel = refl;
    starting_csv = refl;
    catalog_source = refl;
    catalog_source_namespace = refl;
    approval = refl;
  }

  -- Where InstallOperator returns a CSV, it has, in this order, created the catalog, ensured the
  -- operator group, created the subscription of the package and its channel to that catalog, with
  -- manual approval, and approved an install plan of the subscription; the CSV was seen in the
  -- phase Succeeded.
  pub install_operator-IsFinished :
      (csv : WaitedCsv)
      → (install_operator E o).1 ≡ ok csv
      → (cs : Text) × (s : Subscription) × (calls : List Call) × (E.catalog_created
            o.catalog_source_name
          ≡ ok cs)
        × ((ensure_operator_group E o).1 ≡ none)
        × (s ≡ new_subscription E o cs)
        × IsNew cs s
        × (E.sub_created s ≡ none)
        × ((install_operator E o).0
            ≡ create_catalog o.catalog_source_name
              ∷ ((ensure_operator_group E o).0 ++ (create_sub s ∷ calls)))
        × IsFinished E L o s calls csv
  install_operator-IsFinished csv h =
      let (cs, created, ensured, sub, calls) = install_operator-steps csv h in
      let (s, c, f, made) = subscribe-ok cs csv sub in
      let (new, accepted, sent) = create_subscription-ok cs s c in
      (
        cs,
        s,
        (finish E o s).0,
        created,
        ensured,
        new,
        subst (IsNew cs) (sym new) (new_subscription-IsNew cs),
        accepted,
        ground (arith, calls, made, sent),
        finish-IsFinished E L o s csv f,
      )

  upgrade_subscription-ok :
      (s : Subscription) (csv : WaitedCsv)
      → (upgrade_subscription E o s).1 ≡ ok csv
      → (cs : Text) × (E.catalog s.catalog_source_namespace s.catalog_source ≡ ok cs)
        × (E.catalog_updated cs s ≡ none)
        × ((finish E o s).1 ≡ ok csv)
        × ((upgrade_subscription E o s).0 ≡ update_catalog cs s ∷ (finish E o s).0)
  unfolding upgrade_subscription
  upgrade_subscription-ok s csv h =
      elim (Result-cases (E.catalog s.catalog_source_namespace s.catalog_source)) [
        | inr (x, e) ↦ absurd (ground (arith, e, h))
        | inl (cs, e) ↦ elim (Option-cases (E.catalog_updated cs s)) [
          | inl u ↦ (cs, e, u, ground (arith, e, u, h), ground (arith, e, u))
          | inr (x, u) ↦ absurd (ground (arith, e, u, h))
        ]
      ]

  upgrade_operator-steps :
      (csv : WaitedCsv)
      → (upgrade_operator E o).1 ≡ ok csv
      → (ss : List Subscription) × (s : Subscription) × (E.subscriptions ≡ ok ss)
        × (find_subscription E o ss ≡ some s)
        × (upgrade_operator E o ≡ upgrade_subscription E o s)
  unfolding upgrade_operator
  upgrade_operator-steps csv h = elim (Result-cases E.subscriptions) [
    | inr (x, e) ↦ absurd (ground (arith, e, h))
    | inl (ss, e) ↦ elim (List-cases ss) [
      | inl n ↦ absurd (ground (arith, e, n, h))
      | inr (t, ts, n) ↦ elim (Option-cases (find_subscription E o (t ∷ ts))) [
        | inl f ↦ absurd (ground (arith, e, n, f, h))
        | inr (s, f) ↦ (t ∷ ts, s, ground (arith, e, n), f, ground (arith, e, n, f))
      ]
    ]
  ]

  -- The first of the subscriptions that is of the package.
  abbrev pub IsFirst : List Subscription → Subscription → Type 0
  IsFirst ss s =
      (pre post : List Subscription) × (ss ≡ pre ++ (s ∷ post))
      × (o.package_name ≡ s.package_name)
      × All (λ (t : Subscription). ¬ (o.package_name ≡ t.package_name)) pre

  find_subscription-IsFirst :
      (ss : List Subscription) (s : Subscription) → find_subscription E o ss ≡ some s → IsFirst ss s
  unfolding find_subscription
  find_subscription-IsFirst [] s h = absurd (ground (arith, h))
  find_subscription-IsFirst (t ∷ ss) s h = elim (Bool-cases (same o.package_name t.package_name)) [
    | inl e ↦
        let is : t ≡ s = ground (arith, e, h) in
        (
          [],
          ss,
          ap (λ u. u ∷ ss) is,
          same-eq o.package_name t.package_name e ∙ ap (λ (u : Subscription). u.package_name) is,
          tt,
        )
    | inr e ↦
        let (pre, post, split, is, others) =
          find_subscription-IsFirst ss s (ground (arith, e, h)) in
        (
          t ∷ pre,
          post,
          ap (λ us. t ∷ us) split,
          is,
          (
            λ q.
                absurd (
                  ground
                    (arith, e, q, ap (λ p. same p t.package_name) q, same_self t.package_name)),
            others,
          ),
        )
  ]

  -- Where UpgradeOperator returns a CSV, it has updated the catalog that the first subscription of
  -- the package names, and then approved an install plan that is not the one that the subscription had
  -- before; the CSV was seen in the phase Succeeded.
  pub upgrade_operator-IsFinished :
      (csv : WaitedCsv)
      → (upgrade_operator E o).1 ≡ ok csv
      → (ss : List Subscription) × (s : Subscription) × (cs : Text) × (calls : List Call)
        × (E.subscriptions ≡ ok ss)
        × IsFirst ss s
        × (E.catalog s.catalog_source_namespace s.catalog_source ≡ ok cs)
        × (E.catalog_updated cs s ≡ none)
        × ((upgrade_operator E o).0 ≡ update_catalog cs s ∷ calls)
        × IsFinished E L o s calls csv
  upgrade_operator-IsFinished csv h =
      let (ss, s, listed, found, same_run) = upgrade_operator-steps csv h in
      let (cs, read, updated, f, made) =
        upgrade_subscription-ok s csv (subst (λ r. r.1 ≡ ok csv) same_run h) in
      (
        ss,
        s,
        cs,
        (finish E o s).0,
        listed,
        find_subscription-IsFirst ss s found,
        read,
        updated,
        ap (λ r. r.0) same_run ∙ made,
        finish-IsFinished E L o s csv f,
      )
