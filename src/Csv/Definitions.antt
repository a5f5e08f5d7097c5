-- ===== src/Csv/Definitions.antt =====
-- The roles by name and the owned CRDs of clusterserviceversion_updaters.go.
use mathlib.Core.Path.{subst}
use operator_sdk.Base.{
  Bool, false, ap, sym, All, ◌⊎◌, filter, List-cases, String, true, none, some, List, [], ◌∷◌, ◌++◌,
  map, ==_iff, arith, if◌then◌else◌, ◌≡◌, refl, inl, inr, Option-cases, Bool-cases, Any, ◌∙◌,
}
use operator_sdk.Csv.{
  CrdVersion, Crd, version_keys, definitions_v1, definitions_v1beta1, CrdDescription, DefinitionKey,
  has_key, described, apply_crd, apply_custom_resource_definitions,
}

-- The key of a description.
unfoldable pub key_of : CrdDescription → DefinitionKey
key_of d = record { name = d.name; version = d.version; kind = d.kind }

described-key :
    (k : DefinitionKey) (ds : List CrdDescription) (d : CrdDescription)
    → described k ds ≡ some d
    → has_key k d ≡ true
unfolding described
described-key k [] d h = ground arith
described-key k (c ∷ ds) d h = elim (Option-cases (described k ds)) [
  | inl e ↦ ground (arith, e)
  | inr (x, e) ↦ ground (arith, e, described-key k ds d)
]

apply_crd-key : (owned : List CrdDescription) (k : DefinitionKey) → key_of (apply_crd owned k) ≡ k
unfolding apply_crd key_of has_key
apply_crd-key owned k = elim (Option-cases (described k owned)) [
  | inl e ↦ ground (arith, e)
  | inr (d, e) ↦ ground (
    arith,
    e,
    described-key k owned d e,
    ==_iff d.name k.name,
    ==_iff d.version k.version,
    ==_iff d.kind k.kind,
  )
]

has_key-key : (k : DefinitionKey) (d : CrdDescription) → has_key k d ≡ true → key_of d ≡ k
unfolding has_key key_of
has_key-key k d h =
    ground (arith, h, ==_iff d.name k.name, ==_iff d.version k.version, ==_iff d.kind k.kind)

key-has_key : (k : DefinitionKey) (d : CrdDescription) → key_of d ≡ k → has_key k d ≡ true
unfolding has_key key_of
key-has_key k d h =
    ground (arith, h, ==_iff d.name k.name, ==_iff d.version k.version, ==_iff d.kind k.kind)

module _ (owned : List CrdDescription) where
  described-applied :
      (k : DefinitionKey) (ks : List DefinitionKey) (d : CrdDescription)
      → described k (map (apply_crd owned) ks) ≡ some d
      → d ≡ apply_crd owned k
  unfolding described
  described-applied k [] d h = ground arith
  described-applied k (j ∷ ks) d h = elim (Option-cases (described k (map (apply_crd owned) ks))) [
    | inl e ↦ elim (Bool-cases (has_key k (apply_crd owned j))) [
      | inl f ↦
          let same = has_key-key k (apply_crd owned j) f in
          ground (arith, e, f, same, apply_crd-key owned j)
      | inr f ↦ ground (arith, e, f)
    ]
    | inr (x, e) ↦ ground (arith, e, described-applied k ks x e)
  ]

  described-listed :
      (k : DefinitionKey) (ks : List DefinitionKey)
      → Any (λ j. j ≡ k) ks
      → described k (map (apply_crd owned) ks) ≡ some (apply_crd owned k)
  unfolding described
  described-listed k [] h = absurd h
  described-listed k (j ∷ ks) h = elim (Option-cases (described k (map (apply_crd owned) ks))) [
    | inr (x, e) ↦ ground (arith, e, described-applied k ks x e)
    | inl e ↦ elim h [
      | inl same ↦
          let key = key-has_key k (apply_crd owned j) (apply_crd-key owned j ∙ same) in
          ground (arith, e, key, same)
      | inr h' ↦ ground (arith, e, described-listed k ks h')
    ]
  ]

  apply_crd-listed :
      (k : DefinitionKey) (ks : List DefinitionKey)
      → Any (λ j. j ≡ k) ks
      → apply_crd (map (apply_crd owned) ks) k ≡ apply_crd owned k
  unfolding apply_crd
  apply_crd-listed k ks h = ground (arith, described-listed k ks h)

  map-apply_crd :
      (ks js : List DefinitionKey)
      → ((j : DefinitionKey) → Any (λ i. i ≡ j) js → Any (λ i. i ≡ j) ks)
      → map (apply_crd (map (apply_crd owned) ks)) js ≡ map (apply_crd owned) js
  map-apply_crd ks [] within = refl
  map-apply_crd ks (j ∷ js) within =
      cc
        (apply_crd-listed j ks (within j (inl refl)), map-apply_crd ks js (λ i h. within i (inr h)))

  keys-map : (ks : List DefinitionKey) → map key_of (map (apply_crd owned) ks) ≡ ks
  keys-map [] = refl
  keys-map (k ∷ ks) = cc (apply_crd-key owned k, keys-map ks)

-- The description is the last one of its key among the owned ones, as the user wrote it, or a new
-- one where none of them has the key.
abbrev pub IsKept : List CrdDescription → CrdDescription → Type 0
IsKept owned d =
    ((pre post : List CrdDescription) × (owned ≡ pre ++ (d ∷ post))
      × All (λ e. ¬ (key_of e ≡ key_of d)) post)
    ⊎ (All (λ e. ¬ (key_of e ≡ key_of d)) owned × (d.rest ≡ ""))

described-none :
    (k : DefinitionKey) (ds : List CrdDescription)
    → described k ds ≡ none
    → All (λ e. ¬ (key_of e ≡ k)) ds
unfolding described
described-none k [] h = tt
described-none k (d ∷ ds) h = elim (Option-cases (described k ds)) [
  | inr (x, e) ↦ absurd (ground (arith, e, h))
  | inl e ↦ (λ q. absurd (ground (arith, e, h, key-has_key k d q)), described-none k ds e)
]

described-last :
    (k : DefinitionKey) (ds : List CrdDescription) (d : CrdDescription)
    → described k ds ≡ some d
    → (pre post : List CrdDescription) × (ds ≡ pre ++ (d ∷ post)) × All (λ e. ¬ (key_of e ≡ k)) post
unfolding described
described-last k [] d h = absurd (ground (arith, h))
described-last k (c ∷ ds) d h = elim (Option-cases (described k ds)) [
  | inr (x, e) ↦
      let (pre, post, split, others) = described-last k ds x e in
      let is : x ≡ d = ground (arith, e, h) in
      (c ∷ pre, post, ap (λ us. c ∷ us) (split ∙ ap (λ u. pre ++ (u ∷ post)) is), others)
  | inl e ↦
      let is : c ≡ d = ground (arith, e, h) in ([], ds, ap (λ u. u ∷ ds) is, described-none k ds e)
]

apply_crd-new :
    (owned : List CrdDescription) (k : DefinitionKey)
    → described k owned ≡ none
    → (apply_crd owned k).rest ≡ ""
unfolding apply_crd
apply_crd-new owned k h = ground (arith, h)

apply_crd-found :
    (owned : List CrdDescription) (k : DefinitionKey) (d : CrdDescription)
    → described k owned ≡ some d
    → d ≡ apply_crd owned k
unfolding apply_crd
apply_crd-found owned k d h = ground (arith, h)

apply_crd-IsKept :
    (owned : List CrdDescription) (k : DefinitionKey) → IsKept owned (apply_crd owned k)
apply_crd-IsKept owned k =
    let key : k ≡ key_of (apply_crd owned k) = sym (apply_crd-key owned k) in
    elim (Option-cases (described k owned)) [
      | inl e ↦ inr (
        subst (λ j. All (λ x. ¬ (key_of x ≡ j)) owned) key (described-none k owned e),
        apply_crd-new owned k e,
      )
      | inr (d, e) ↦
          let (pre, post, split, others) = described-last k owned d e in
          inl (
            pre,
            post,
            split ∙ ap (λ u. pre ++ (u ∷ post)) (apply_crd-found owned k d e),
            subst (λ j. All (λ x. ¬ (key_of x ≡ j)) post) key others,
          )
    ]

All-IsKept :
    (owned : List CrdDescription) (ks : List DefinitionKey)
    → All (IsKept owned) (map (apply_crd owned) ks)
All-IsKept owned [] = tt
All-IsKept owned (k ∷ ks) = (apply_crd-IsKept owned k, All-IsKept owned ks)

-- The keys of the versions of a CRD, and of CRDs of either kind: of the served versions, and of a
-- v1beta1 CRD with no list of versions, of its one version.
abbrev pub version_key : Crd → String → DefinitionKey
version_key crd v = record { name = crd.name; version = v; kind = crd.kind }

abbrev pub served_keys : Crd → List DefinitionKey
served_keys crd =
    map (λ (v : CrdVersion). version_key crd v.name)
      (filter (λ (v : CrdVersion). v.served) crd.versions)

abbrev pub is_nil : List CrdVersion → Bool
is_nil [] = true
is_nil (v ∷ vs) = false

abbrev pub v1_keys : List Crd → List DefinitionKey
v1_keys [] = []
v1_keys (crd ∷ crds) = served_keys crd ++ v1_keys crds

abbrev pub v1beta1_keys : List Crd → List DefinitionKey
v1beta1_keys [] = []
v1beta1_keys (crd ∷ crds) =
    (if is_nil crd.versions then version_key crd crd.version ∷ [] else served_keys crd)
    ++ v1beta1_keys crds

version_keys-served :
    (crd : Crd) (vs : List CrdVersion)
    → version_keys crd vs
      ≡ map (λ (v : CrdVersion). version_key crd v.name) (filter (λ (v : CrdVersion). v.served) vs)
unfolding version_keys
version_keys-served crd [] = refl
version_keys-served crd (v ∷ vs) = ground (arith, version_keys-served crd vs)

definitions_v1-v1_keys : (crds : List Crd) → definitions_v1 crds ≡ v1_keys crds
unfolding definitions_v1
definitions_v1-v1_keys [] = refl
definitions_v1-v1_keys (crd ∷ crds) =
    cc (version_keys-served crd crd.versions, definitions_v1-v1_keys crds)

definitions_v1beta1-v1beta1_keys : (crds : List Crd) → definitions_v1beta1 crds ≡ v1beta1_keys crds
unfolding definitions_v1beta1
definitions_v1beta1-v1beta1_keys [] = refl
definitions_v1beta1-v1beta1_keys (crd ∷ crds) = elim (List-cases crd.versions) [
  | inl e ↦ ground (arith, e, definitions_v1beta1-v1beta1_keys crds)
  | inr (v, vs, e) ↦
      ground (arith, e, version_keys-served crd (v ∷ vs), definitions_v1beta1-v1beta1_keys crds)
]

-- The owned CRDs of the CSV are those of the served versions of the collected CRDs, in their order,
-- each with the last description that the user had written for it, or a new one where there was
-- none; and to generate the CSV again from the same CRDs leaves its owned CRDs as they are.
pub apply_custom_resource_definitions-IsKept :
    (owned : List CrdDescription) (v1 v1beta1 : List Crd)
    → let described_crds = apply_custom_resource_definitions owned v1 v1beta1 in
      (map key_of described_crds ≡ v1_keys v1 ++ v1beta1_keys v1beta1)
      × All (IsKept owned) described_crds
      × (apply_custom_resource_definitions described_crds v1 v1beta1 ≡ described_crds)
unfolding apply_custom_resource_definitions
apply_custom_resource_definitions-IsKept owned v1 v1beta1 =
    let ks = definitions_v1 v1 ++ definitions_v1beta1 v1beta1 in
    (
      keys-map owned ks ∙ cc (definitions_v1-v1_keys v1, definitions_v1beta1-v1beta1_keys v1beta1),
      All-IsKept owned ks,
      map-apply_crd owned ks ks (λ j h. h),
    )
