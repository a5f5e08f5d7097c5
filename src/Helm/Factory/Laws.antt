-- ===== src/Helm/Factory/Laws.antt =====
-- manager_factory.go: the merged values read at a path, and the name of a release.
use operator_sdk.Base.{
  String, Bool, true, false, not, ◌&&◌, Option, none, some, List, [], ◌∷◌, ◌≡◌, ◌↔◌, ◌⊎◌, refl, ap,
  ◌==◌, ==_iff, arith, is_some, if◌then◌else◌, inl, inr, Option-cases, Bool-cases,
}
use operator_sdk.Errors.{Result, ok, Result-cases}
use operator_sdk.Helm.Release.{Release}
use operator_sdk.Helm.Factory.{
  Value, leaf, table, Fields, end, field, get, put, merge_maps, merge_value, release_history,
  get_release_name,
}

-- A map has each key once, and so have the maps in it.
unfoldable mutual
  pub has_unique_keys : Fields → Bool
  has_unique_keys end = true
  has_unique_keys (field k v fs) =
      (not (is_some (get k fs)) && has_unique_values v) && has_unique_keys fs

  pub has_unique_values : Value → Bool
  has_unique_values (leaf s) = true
  has_unique_values (table fs) = has_unique_keys fs

get-put :
    (k j : String) (v : Value) (fs : Fields)
    → get j (put k v fs) ≡ (if k == j then some v else get j fs)
unfolding get put
get-put k j v end = refl
get-put k j v (field i w fs) = ground (arith, get-put k j v fs, ==_iff i k, ==_iff k j, ==_iff i j)

-- What stands at a key after the merge, from what stood there in both maps.
abbrev merged : Option Value → Option Value → Option Value
merged old none = old
merged old (some v) = some (merge_value old v)

get-merge_maps :
    (k : String) (a b : Fields)
    → has_unique_keys b ≡ true
    → get k (merge_maps a b) ≡ merged (get k a) (get k b)
unfolding get merge_maps has_unique_keys
get-merge_maps k a end u = refl
get-merge_maps k a (field j v b) u = elim (Bool-cases (j == k)) [
  | inl q ↦
      let e : j ≡ k = (==_iff j k).0 q in
      ground (
        arith,
        q,
        e,
        get-merge_maps k (put j (merge_value (get j a) v) a) b,
        get-put j k (merge_value (get j a) v) a,
        Option-cases (get j b),
        ap (λ (t : String). get t b) e,
        ap (λ (t : String). get t a) e,
      )
  | inr q ↦ ground (
    arith,
    q,
    get-merge_maps k (put j (merge_value (get j a) v) a) b,
    get-put j k (merge_value (get j a) v) a,
  )
]

-- The leaf at the end of a path of keys.
unfoldable pub get_leaf : List String → Fields → Option String
get_leaf [] fs = none
get_leaf (k ∷ []) fs = elim (get k fs) [
  | none ↦ none
  | some v ↦ elim v [ leaf s ↦ some s | table ts ↦ none ]
]
get_leaf (k ∷ j ∷ ks) fs = elim (get k fs) [
  | none ↦ none
  | some v ↦ elim v [ leaf s ↦ none | table ts ↦ get_leaf (j ∷ ks) ts ]
]

-- The map holds nothing on the way to the end of the path, nor there.
unfoldable pub leaves_alone : List String → Fields → Bool
leaves_alone [] fs = true
leaves_alone (k ∷ []) fs = not (is_some (get k fs))
leaves_alone (k ∷ j ∷ ks) fs = elim (get k fs) [
  | none ↦ true
  | some v ↦ elim v [ leaf s ↦ false | table ts ↦ leaves_alone (j ∷ ks) ts ]
]

-- A map at a key of a map with unique keys has unique keys.
get-has_unique_keys :
    (k : String) (b : Fields) {ts : Fields}
    → has_unique_keys b ≡ true
    → get k b ≡ some (table ts)
    → has_unique_keys ts ≡ true
unfolding get has_unique_keys has_unique_values
get-has_unique_keys k end u h = cc
get-has_unique_keys k (field j v b) {ts} u h = elim (Bool-cases (j == k)) [
  | inl q ↦ let e : v ≡ table ts = ground (arith, q, h) in ground (arith, u, ap has_unique_values e)
  | inr q ↦ get-has_unique_keys k b {ts = ts} (ground (arith, u)) (ground (arith, q, h))
]

-- What can stand at a key.
value_cases :
    (o : Option Value)
    → (o ≡ none) ⊎ (((s : String) × (o ≡ some (leaf s))) ⊎ ((ts : Fields) × (o ≡ some (table ts))))
value_cases none = inl refl
value_cases (some (leaf s)) = inr (inl (s, refl))
value_cases (some (table ts)) = inr (inr (ts, refl))

-- Where the overrides have no key twice, a leaf of the overrides is the leaf of the merged values
-- at its path.
pub get_leaf-merge_maps :
    (path : List String) (a b : Fields) {s : String}
    → has_unique_keys b ≡ true
    → get_leaf path b ≡ some s
    → get_leaf path (merge_maps a b) ≡ some s
unfolding get_leaf merge_value
get_leaf-merge_maps [] a b u h = cc
get_leaf-merge_maps (k ∷ []) a b u h = elim (value_cases (get k b)) [
  | inl g ↦ absurd (ground (arith, g, h))
  | inr (inl (s, g)) ↦ ground (arith, g, h, get-merge_maps k a b u)
  | inr (inr (ts, g)) ↦ absurd (ground (arith, g, h))
]
get_leaf-merge_maps (k ∷ j ∷ ks) a b {s} u h = elim (value_cases (get k b)) [
  | inl g ↦ absurd (ground (arith, g, h))
  | inr (inl (t, g)) ↦ absurd (ground (arith, g, h))
  | inr (inr (ts, g)) ↦ elim (value_cases (get k a)) [
    | inl f ↦ ground (arith, f, g, h, get-merge_maps k a b u)
    | inr (inl (t, f)) ↦ ground (arith, f, g, h, get-merge_maps k a b u)
    | inr (inr (fs, f)) ↦ ground (
      arith,
      f,
      g,
      h,
      get-merge_maps k a b u,
      get-has_unique_keys k b u g,
      get_leaf-merge_maps (j ∷ ks) fs ts {s = s},
    )
  ]
]

-- A path that a map leaves alone has no leaf in it.
get_leaf_alone :
    (path : List String) (b : Fields) → leaves_alone path b ≡ true → get_leaf path b ≡ none
unfolding get_leaf leaves_alone
get_leaf_alone [] b h = refl
get_leaf_alone (k ∷ []) b h = ground arith
get_leaf_alone (k ∷ j ∷ ks) b h = elim (value_cases (get k b)) [
  | inl g ↦ ground (arith, g)
  | inr (inl (s, g)) ↦ ground (arith, g)
  | inr (inr (ts, g)) ↦ ground (arith, g, get_leaf_alone (j ∷ ks) ts)
]

-- Where the overrides have no key twice, a path on which they hold nothing has in the merged
-- values the leaf that it had in the resource's, or none if it had none.
pub get_leaf-merge_maps_alone :
    (path : List String) (a b : Fields)
    → has_unique_keys b ≡ true
    → leaves_alone path b ≡ true
    → get_leaf path (merge_maps a b) ≡ get_leaf path a
unfolding get_leaf leaves_alone merge_value
get_leaf-merge_maps_alone [] a b u h = refl
get_leaf-merge_maps_alone (k ∷ []) a b u h = elim (value_cases (get k b)) [
  | inl g ↦ ground (arith, g, get-merge_maps k a b u)
  | inr (inl (s, g)) ↦ absurd (ground (arith, g, h))
  | inr (inr (ts, g)) ↦ absurd (ground (arith, g, h))
]
get_leaf-merge_maps_alone (k ∷ j ∷ ks) a b u h = elim (value_cases (get k b)) [
  | inl g ↦ ground (arith, g, get-merge_maps k a b u)
  | inr (inl (s, g)) ↦ absurd (ground (arith, g, h))
  | inr (inr (ts, g)) ↦ elim (value_cases (get k a)) [
    | inl f ↦ ground (arith, f, g, h, get-merge_maps k a b u, get_leaf_alone (j ∷ ks) ts)
    | inr (inl (s, f)) ↦ ground (arith, f, g, h, get-merge_maps k a b u, get_leaf_alone (j ∷ ks) ts)
    | inr (inr (fs, f)) ↦ ground (
      arith,
      f,
      g,
      h,
      get-merge_maps k a b u,
      get-has_unique_keys k b u g,
      get_leaf-merge_maps_alone (j ∷ ks) fs ts,
    )
  ]
]

-- A name is given exactly if it is the name of the resource and there is no release of that name,
-- or the latest one has the chart of this operator.
pub get_release_name_iff :
    (history : Result (List Release)) (chart name given : String)
    → (get_release_name history chart name ≡ ok given) ↔ (
        (given ≡ name)
        × ((release_history history ≡ ok none)
            ⊎ ((rel : Release) × (release_history history ≡ ok (some rel))
                × (rel.chart_name ≡ some chart))))
unfolding get_release_name
get_release_name_iff history chart name given = (
  λ h. elim (Result-cases (release_history history)) [
    | inr (e, g) ↦ absurd (ground (arith, g, h))
    | inl (o, g) ↦ elim (Option-cases o) [
      | inl n ↦ (ground (arith, g, n, h), inl (ground (arith, g, n)))
      | inr (rel, n) ↦ (
        ground (arith, g, n, h),
        inr (
          rel,
          ground (arith, g, n),
          elim (Option-cases rel.chart_name) [
            | inl c ↦ absurd (ground (arith, g, n, c, h))
            | inr (c, q) ↦ ground (arith, g, n, q, h, ==_iff c chart)
          ],
        ),
      )
    ]
  ],
  λ (e, h). elim h [
    | inl g ↦ ground (arith, e, g)
    | inr (rel, g, c) ↦ ground (arith, e, g, c, ==_iff chart chart)
  ],
)
