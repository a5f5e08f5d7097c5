-- ===== src/Helm/Manager/Patch/Laws.antt =====
-- manager.go: the resources after reconcileRelease, and the operations of a JSON patch.
use operator_sdk.Base.{
  String, Bool, true, not, ◌&&◌, ◌||◌, none, some, List, [], ◌∷◌, ◌≡◌, ◌↔◌, refl, ◌==◌, is_some,
  arith, all, inl, inr, Option-cases, List-cases,
}
use operator_sdk.Errors.{ok, Result-cases}
use operator_sdk.Helm.Manager.Patch.{
  Operation, PatchType, Patching, applied, create_json_merge_patch, create_patch, patch_type,
  ResourceHelper, create_missing, patch_existing, reconcile_resource, visit, reconcile_release,
}

module _ {Object Info State : Type 0} (P : Patching Object Info)
    (H : ResourceHelper Object Info State) where
  -- The documented behaviour of the API server that matters here, told of whether it has an
  -- object: one that is read is there, a creation that succeeds makes it so, and neither a
  -- creation nor a patch removes an object.
  pub record IsApiServer : Type 0 where
    pub has : Info → State → Bool
    pub get_has : (i : Info) (s : State) (x : Object) → H.get i s ≡ ok x → has i s ≡ true
    pub create_has :
        (i : Info) (s : State) → (H.create i s).0 ≡ none → has i (H.create i s).1 ≡ true
    pub create_keeps : (i j : Info) (s : State) → has j s ≡ true → has j (H.create i s).1 ≡ true
    pub patch_keeps :
        (i j : Info) (t : PatchType) (p : String) (s : State)
        → has j s ≡ true
        → has j (H.patch i t p s).1 ≡ true

  module _ (L : IsApiServer) where
    patch_existing-keeps :
        (x : Object) (i j : Info) (s : State)
        → L.has j s ≡ true
        → L.has j (patch_existing P H x i s).1 ≡ true
    unfolding patch_existing
    patch_existing-keeps x i j s h = elim (Result-cases (create_patch P x i)) [
      | inr (e, c) ↦ ground (arith, c)
      | inl (p, c) ↦ elim (Option-cases p) [
        | inl n ↦ ground (arith, c, n)
        | inr (text, n) ↦ ground (arith, c, n, L.patch_keeps i j (patch_type P i) text s h)
      ]
    ]

    create_missing-keeps :
        (i j : Info) (s : State) → L.has j s ≡ true → L.has j (create_missing P H i s).1 ≡ true
    unfolding create_missing
    create_missing-keeps i j s h = ground (arith, L.create_keeps i j s h)

    create_missing-has :
        (i : Info) (s : State)
        → (create_missing P H i s).0 ≡ none
        → L.has i (create_missing P H i s).1 ≡ true
    unfolding create_missing
    create_missing-has i s e = ground (arith, L.create_has i s)

    reconcile_resource-has :
        (i : Info) (s : State)
        → (reconcile_resource P H i s).0 ≡ none
        → L.has i (reconcile_resource P H i s).1 ≡ true
    unfolding reconcile_resource
    reconcile_resource-has i s e = elim (Result-cases (H.get i s)) [
      | inl (x, g) ↦ ground (arith, g, patch_existing-keeps x i i s (L.get_has i s x g))
      | inr (x, g) ↦ ground (arith, g, e, create_missing-has i s)
    ]

    reconcile_resource-keeps :
        (i j : Info) (s : State) → L.has j s ≡ true → L.has j (reconcile_resource P H i s).1 ≡ true
    unfolding reconcile_resource
    reconcile_resource-keeps i j s h = elim (Result-cases (H.get i s)) [
      | inl (x, g) ↦ ground (arith, g, patch_existing-keeps x i j s h)
      | inr (x, g) ↦ ground (arith, g, create_missing-keeps i j s h)
    ]

    visit-keeps :
        (infos : List Info) (j : Info) (s : State)
        → L.has j s ≡ true
        → L.has j (visit P H infos s).1 ≡ true
    unfolding visit
    visit-keeps [] j s h = h
    visit-keeps (i ∷ infos) j s h = ground (
      arith,
      reconcile_resource-keeps i j s h,
      visit-keeps infos j (reconcile_resource P H i s).1,
    )

    visit-cons :
        (i : Info) (infos : List Info) (s : State)
        → (visit P H (i ∷ infos) s).0 ≡ none
        → ((reconcile_resource P H i s).0 ≡ none)
          × (visit P H (i ∷ infos) s ≡ visit P H infos (reconcile_resource P H i s).1)
    unfolding visit
    visit-cons i infos s e = ground (arith, e)

    visit-has :
        (infos : List Info) (s : State)
        → (visit P H infos s).0 ≡ none
        → all (λ i. L.has i (visit P H infos s).1) infos ≡ true
    visit-has [] s e = refl
    visit-has (i ∷ infos) s e =
        let (f, q) = visit-cons i infos s e in
        let s' = (reconcile_resource P H i s).1 in
        simp q (
          ground (
            arith,
            visit-keeps infos i s' (reconcile_resource-has i s f),
            visit-has infos s' (rw q at e),
          ))

    -- Over an API server that behaves as documented, a reconciliation of a manifest that ends
    -- without an error leaves every resource that was built from the manifest in the cluster.
    pub reconcile_release-has :
        (infos : List Info) (s : State)
        → (reconcile_release P H (ok infos) s).0 ≡ none
        → all (λ i. L.has i (reconcile_release P H (ok infos) s).1) infos ≡ true
    unfolding reconcile_release
    reconcile_release-has infos s e = visit-has infos s e

-- An operation that createJSONMergePatch must not send: a removal, or an addition of null.
abbrev pub is_dropped : Operation → Bool
is_dropped op = op.operation == "remove" || (op.operation == "add" && not (is_some op.value))

applied-all : (ops : List Operation) → all (λ op. not (is_dropped op)) (applied ops) ≡ true
unfolding applied
applied-all [] = refl
applied-all (op ∷ ops) = ground (arith, applied-all ops)

applied-nil : (ops : List Operation) → applied ops ≡ [] → all is_dropped ops ≡ true
unfolding applied
applied-nil [] h = refl
applied-nil (op ∷ ops) h = ground (arith, applied-nil ops)

applied-eq-nil : (ops : List Operation) → all is_dropped ops ≡ true → applied ops ≡ []
unfolding applied
applied-eq-nil [] h = refl
applied-eq-nil (op ∷ ops) h = ground (arith, applied-eq-nil ops)

module _ {Object Info : Type 0} (P : Patching Object Info) where
  -- Where the difference could be computed: there is no patch exactly if every operation is to be
  -- dropped, and a patch that is sent is the encoding of operations of which none removes a field
  -- or adds a null.
  pub create_json_merge_patch_lem :
      (existing expected : String) (ops : List Operation)
      → P.create_json_patch existing expected ≡ ok ops
      → ((create_json_merge_patch P existing expected ≡ ok none) ↔ (all is_dropped ops ≡ true))
        × ((patch : String)
            → create_json_merge_patch P existing expected ≡ ok (some patch)
            → (sent : List Operation) × (P.marshal_operations sent ≡ ok patch)
              × (all (λ op. not (is_dropped op)) sent ≡ true))
  unfolding create_json_merge_patch
  create_json_merge_patch_lem existing expected ops c = elim (List-cases (applied ops)) [
    | inl n ↦ (
      (λ e. applied-nil ops n, λ d. ground (arith, c, n)),
      λ patch e. absurd (ground (arith, c, n, e)),
    )
    | inr (op, rest, n) ↦ elim (Result-cases (P.marshal_operations (op ∷ rest))) [
      | inr (x, b) ↦ (
        (
          λ e. absurd (ground (arith, c, n, b, e)),
          λ d. absurd (ground (arith, n, applied-eq-nil ops d)),
        ),
        λ patch e. absurd (ground (arith, c, n, b, e)),
      )
      | inl (text, b) ↦ (
        (
          λ e. absurd (ground (arith, c, n, b, e)),
          λ d. absurd (ground (arith, n, applied-eq-nil ops d)),
        ),
        λ patch e. (op ∷ rest, ground (arith, c, n, b, e), rw n at (applied-all ops)),
      )
    ]
  ]
