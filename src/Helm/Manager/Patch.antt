-- ===== src/Helm/Manager/Patch.antt =====
-- manager.go: reconcileRelease, createPatch and createJSONMergePatch. The cluster, and the
-- libraries that compute and encode patches, are parameters.
pub mod Laws
use operator_sdk.Base.{
  String, Bool, true, not, ◌&&◌, ◌||◌, Option, none, some, List, [], ◌∷◌, ◌≡◌, ◌↔◌, refl, ◌==◌,
  ◌<>◌, is_some, arith, all, if◌then◌else◌, inl, inr, Option-cases, List-cases,
}
use operator_sdk.Errors.{Error, failure, wrap, message, is_not_found, Result, ok, err, Result-cases}

-- `jsonpatch.JsonPatchOperation`; a nil value is `none`.
pub record Operation : Type 0 where
  pub operation : String
  pub path : String
  pub value : Option String

pub data PatchType : Type 0 where
  strategic_merge json_patch : PatchType

-- The objects of a release, as `createPatch` tells them apart, and the libraries it calls.
pub record Patching (Object Info : Type 0) : Type 0 where
  pub marshal : Object → Result String
  pub expected_object : Info → Object
  pub is_unstructured : Info → Bool
  pub is_crd : Info → Bool
  pub create_json_patch : String → String → Result (List Operation)
  pub marshal_operations : List Operation → Result String
  pub patch_meta : Info → Option Error
  pub three_way_patch : String → String → String → Result String

-- The filter of createJSONMergePatch.
unfoldable pub is_applied : Operation → Bool
is_applied op =
    not (op.operation == "remove") && not (op.operation == "add" && not (is_some op.value))

unfoldable pub applied : List Operation → List Operation
unfolding is_applied
applied [] = []
applied (op ∷ ops) = let rest = applied ops in if is_applied op then op ∷ rest else rest

module _ {Object Info : Type 0} (P : Patching Object Info) where
  -- `createJSONMergePatch`; a nil patch is `none`.
  unfoldable pub create_json_merge_patch : String → String → Result (Option String)
  create_json_merge_patch existing expected = elim (P.create_json_patch existing expected) [
    | err e ↦ err e
    | ok ops ↦ elim (applied ops) [
      | [] ↦ ok none
      | op ∷ rest ↦ elim (P.marshal_operations (op ∷ rest)) [ err e ↦ err e | ok b ↦ ok (some b) ]
    ]
  ]

  unfoldable pub create_strategic_patch : Info → String → String → Result (Option String)
  create_strategic_patch info existing expected = elim (P.patch_meta info) [
    | some e ↦ err e
    | none ↦ elim (P.three_way_patch expected expected existing) [
      | err e ↦ err e
      | ok patch ↦ if patch == "" || patch == "{}" then ok none else ok (some patch)
    ]
  ]

  unfoldable pub patch_type : Info → PatchType
  patch_type info = if P.is_unstructured info || P.is_crd info then json_patch else strategic_merge

  -- `createPatch`, without the type of the patch, which is `patch_type`.
  unfoldable pub create_patch : Object → Info → Result (Option String)
  unfolding create_json_merge_patch create_strategic_patch
  create_patch existing info = elim (P.marshal existing) [
    | err e ↦ err e
    | ok e₁ ↦ elim (P.marshal (P.expected_object info)) [
      | err e ↦ err e
      | ok e₂ ↦
          if P.is_unstructured info || P.is_crd info
          then create_json_merge_patch e₁ e₂
          else create_strategic_patch info e₁ e₂
    ]
  ]

-- The resource helper of kubectl over a cluster's state.
pub record ResourceHelper (Object Info State : Type 0) : Type 0 where
  pub get : Info → State → Result Object
  pub create : Info → State → Option Error × State
  pub patch : Info → PatchType → String → State → Option Error × State

module _ {Object Info State : Type 0} (P : Patching Object Info)
    (H : ResourceHelper Object Info State) where
  unfoldable pub create_missing : Info → State → Option Error × State
  create_missing info s =
      let (e, s') = H.create info s in
      elim e [ none ↦ (none, s') | some e' ↦ (some (failure ("create error: " <> message e')), s') ]

  unfoldable pub patch_existing : Object → Info → State → Option Error × State
  patch_existing existing info s = elim (create_patch P existing info) [
    | err e ↦ (some (wrap "error creating patch" e), s)
    | ok none ↦ (none, s)
    | ok (some patch) ↦
        let (e, s') = H.patch info (patch_type P info) patch s in
        elim e [ none ↦ (none, s') | some e' ↦ (some (wrap "patch error" e'), s') ]
  ]

  -- The function that is handed to `Visit`.
  unfoldable pub reconcile_resource : Info → State → Option Error × State
  reconcile_resource info s = elim (H.get info s) [
    | ok existing ↦ patch_existing existing info s
    | err e ↦
        if is_not_found e then create_missing info s else (some (wrap "could not get object" e), s)
  ]

  -- `Visit` stops at the first error.
  unfoldable pub visit : List Info → State → Option Error × State
  visit [] s = (none, s)
  visit (info ∷ infos) s =
      let (e, s') = reconcile_resource info s in
      let rest = visit infos s' in elim e [ some e' ↦ (some e', s') | none ↦ rest ]

  -- `reconcileRelease`; `built` is what `Build` makes of the expected manifest.
  unfoldable pub reconcile_release : Result (List Info) → State → Option Error × State
  unfolding visit
  reconcile_release built s = elim built [ err e ↦ (some e, s) | ok infos ↦ visit infos s ]
