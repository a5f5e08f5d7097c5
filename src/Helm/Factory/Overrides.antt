-- ===== src/Helm/Factory/Overrides.antt =====
-- manager_factory.go: the manager that NewManager makes.
use operator_sdk.Base.{String, true, some, List, ◌≡◌, arith, inl, inr, Option-cases, ap, ◌∙◌}
use operator_sdk.Errors.{Result, ok, err, Result-cases}
use operator_sdk.Helm.Factory.{
  Fields, Inputs, NewManager, new_manager, named_manager, merge_values, merge_maps,
  get_release_name,
}
use operator_sdk.Helm.Factory.Laws.{
  get_leaf, get_leaf-merge_maps, get_release_name_iff, has_unique_keys,
}

named_manager-ok :
    (i : Inputs) (r : Result String) (m : NewManager)
    → named_manager i r ≡ ok m
    → (spec overrides : Fields) × (i.spec ≡ some spec)
      × (i.parse_overrides ≡ ok overrides)
      × (r ≡ ok m.release_name)
      × (m.values ≡ merge_maps spec overrides)
unfolding named_manager merge_values
named_manager-ok i (err e) m h = absurd (ground (arith, h))
named_manager-ok i (ok name) m h = elim (Option-cases i.spec) [
  | inl n ↦ absurd (ground (arith, h, n))
  | inr (spec, n) ↦ elim (Result-cases i.parse_overrides) [
    | inr (e, p) ↦ absurd (ground (arith, h, n, p))
    | inl (overrides, p) ↦ (spec, overrides, n, p, ground (arith, h, n, p), ground (arith, h, n, p))
  ]
]

new_manager-named :
    (i : Inputs) (name : String) (m : NewManager)
    → new_manager i name ≡ ok m
    → (chart : String) × (i.load_chart ≡ ok chart)
      × (named_manager i (get_release_name i.history chart name) ≡ ok m)
unfolding new_manager
new_manager-named i name m h = elim (Option-cases i.action_config) [
  | inr (e, a) ↦ absurd (ground (arith, h, a))
  | inl a ↦ elim (Result-cases i.load_chart) [
    | inr (e, l) ↦ absurd (ground (arith, h, a, l))
    | inl (chart, l) ↦ (chart, l, ground (arith, h, a, l))
  ]
]

-- A manager that `NewManager` makes is for the release with the name of the resource, and every
-- leaf of the overrides, which have no key twice, is the leaf of its values at that path.
pub new_manager_lem :
    (i : Inputs) (name : String) (m : NewManager)
    → new_manager i name ≡ ok m
    → (m.release_name ≡ name)
      × ((overrides : Fields) (path : List String) (s : String)
          → i.parse_overrides ≡ ok overrides
          → has_unique_keys overrides ≡ true
          → get_leaf path overrides ≡ some s
          → get_leaf path m.values ≡ some s)
new_manager_lem i name m h =
    let (chart, l, n) = new_manager-named i name m h in
    let (spec, over, a, p, r, v) = named_manager-ok i (get_release_name i.history chart name) m n in
    (
      ((get_release_name_iff i.history chart name m.release_name).0 r).0,
      λ overrides path s q u g.
          let e : over ≡ overrides = ground (arith, p, q) in
          ap (get_leaf path) (v ∙ ap (merge_maps spec) e)
          ∙ get_leaf-merge_maps path spec overrides u g,
    )
