-- ===== src/Olm/Registry/Installer/Order.antt =====
-- The order of the calls of InstallOperator and UpgradeOperator, on every branch.
use operator_sdk.Base.{
  ℕ, zero, suc, Bool, true, ◌&&◌, Option, none, some, List, [], ◌∷◌, ◌++◌, ◌≡◌, refl, arith, all,
  leb, ◌⊎◌, inl, inr, Option-cases,
}
use operator_sdk.Base.Split.{Text}
use operator_sdk.Errors.{Result-cases}
use operator_sdk.Olm.Registry.Installer.{
  OperatorGroup, PlanRef, Subscription, new_sdk_operator_group, get_operator_group, chosen_modes,
  get_target_namespaces, new_subscription, wait_for_install_plan, Call, create_catalog,
  update_catalog, create_group, create_sub, update_plan, OperatorInstaller, Env, use_group,
  ensure_operator_group, create_subscription, approve_attempt, approve_calls, approve_install_plan,
  approve_and_wait, finish, subscribe, install_operator,
}

-- The stage that a call belongs to.
unfoldable pub stage : Call → ℕ
stage (create_catalog n) = 0
stage (update_catalog n s) = 0
stage (create_group g) = 1
stage (create_sub s) = 2
stage (update_plan p) = 3

-- No call comes before one of an earlier stage; the number is the stage so far.
unfoldable pub in_order : ℕ → List Call → Bool
in_order n [] = true
in_order n (c ∷ cs) = leb n (stage c) && in_order (stage c) cs

-- All calls are of the last stage.
abbrev approvals : List Call → Bool
approvals cs = all (λ c. leb 3 (stage c) && leb (stage c) 3) cs

in_order-approvals :
    (n : ℕ) (cs : List Call) → leb n 3 ≡ true → approvals cs ≡ true → in_order n cs ≡ true
unfolding in_order
in_order-approvals n [] l h = refl
in_order-approvals n (c ∷ cs) l h = ground (arith, l, h, in_order-approvals (stage c) cs)

approvals-append :
    (xs ys : List Call) → approvals xs ≡ true → approvals ys ≡ true → approvals (xs ++ ys) ≡ true
approvals-append [] ys hx hy = hy
approvals-append (x ∷ xs) ys hx hy = ground (arith, hx, approvals-append xs ys, hy)

module _ (E : Env) (o : OperatorInstaller) where
  approvals-approve_attempt :
      (ref : PlanRef) (k : ℕ) → approvals (approve_attempt E o ref k).0 ≡ true
  unfolding approve_attempt stage
  approvals-approve_attempt ref k = ground arith

  approvals-approve_calls : (ref : PlanRef) (k : ℕ) → approvals (approve_calls E o ref k) ≡ true
  unfolding approve_calls
  approvals-approve_calls ref zero = approvals-approve_attempt ref 0
  approvals-approve_calls ref (suc k) =
      approvals-append (approve_calls E o ref k) _ (approvals-approve_calls ref k)
        (approvals-approve_attempt ref (suc k))

  approvals-approve_and_wait : (s : Subscription) → approvals (approve_and_wait E o s).0 ≡ true
  unfolding approve_and_wait approve_install_plan
  approvals-approve_and_wait s = elim (Option-cases s.install_plan_ref) [
    | inl e ↦ ground (arith, e)
    | inr (ref, e) ↦
        let n = E.last_try (λ k. (approve_attempt E o ref k).1) in
        ground (arith, e, approvals-approve_calls ref n)
  ]

  approvals-finish : (before : Subscription) → approvals (finish E o before).0 ≡ true
  unfolding finish
  approvals-finish before = elim (Result-cases (wait_for_install_plan E o before)) [
    | inl (s, e) ↦ ground (arith, e, approvals-approve_and_wait s)
    | inr (x, e) ↦ ground (arith, e)
  ]

  in_order-subscribe : (n : ℕ) (cs : Text) → leb n 2 ≡ true → in_order n (subscribe E o cs).0 ≡ true
  unfolding subscribe create_subscription in_order stage
  in_order-subscribe n cs l =
      let s = new_subscription E o cs in
      elim (Option-cases (E.sub_created s)) [
        | inl e ↦
            ground (arith, l, e, in_order-approvals 2 (finish E o s).0 refl (approvals-finish s))
        | inr (x, e) ↦ ground (arith, l, e)
      ]

  use_group-calls :
      (found : Option OperatorGroup) (targets : List Text)
      → ((use_group E o found targets).0 ≡ [])
        ⊎ ((g : OperatorGroup) × ((use_group E o found targets).0 ≡ create_group g ∷ []))
  unfolding use_group
  use_group-calls (some og) targets = inl refl
  use_group-calls none targets = inr (new_sdk_operator_group o.namespace targets, ground arith)

  ensure_operator_group-calls :
      ((ensure_operator_group E o).0 ≡ [])
      ⊎ ((g : OperatorGroup) × ((ensure_operator_group E o).0 ≡ create_group g ∷ []))
  unfolding ensure_operator_group
  ensure_operator_group-calls = elim (Result-cases (get_operator_group E.groups)) [
    | inr (x, e) ↦ inl (ground (arith, e))
    | inl (found, e) ↦ elim (Result-cases (chosen_modes o)) [
      | inr (x, c) ↦ inl (ground (arith, e, c))
      | inl (supported, c) ↦ elim (Result-cases (get_target_namespaces o supported)) [
        | inr (x, t) ↦ inl (ground (arith, e, c, t))
        | inl (targets, t) ↦ elim (use_group-calls found targets) [
          | inl u ↦ inl (ground (arith, e, c, t, u))
          | inr (g, u) ↦ inr (g, ground (arith, e, c, t, u))
        ]
      ]
    ]
  ]

  -- On every branch, InstallOperator makes its calls by stages: the catalog, the operator group, the
  -- subscription, the install plan.
  pub install_operator-in_order : in_order 0 (install_operator E o).0 ≡ true
  unfolding install_operator in_order stage
  install_operator-in_order = elim (Result-cases (E.catalog_created o.catalog_source_name)) [
    | inr (x, e) ↦ ground (arith, e)
    | inl (cs, e) ↦ elim (Option-cases (ensure_operator_group E o).1) [
      | inr (x, g) ↦ elim ensure_operator_group-calls [
        | inl u ↦ ground (arith, e, g, u)
        | inr (og, u) ↦ ground (arith, e, g, u)
      ]
      | inl g ↦ elim ensure_operator_group-calls [
        | inl u ↦ ground (arith, e, g, u, in_order-subscribe 0 cs refl)
        | inr (og, u) ↦ ground (arith, e, g, u, in_order-subscribe 1 cs refl)
      ]
    ]
  ]
