-- ===== src/Helm/Manager/Cleanup.antt =====
-- manager.go: CleanupRelease, with FilterManifestsToKeep of
-- internal/helm/manifestutil/resource_policy.go. The parsing of manifests and the cluster are
-- parameters.
use operator_sdk.Base.{
  String, Bool, true, false, not, Option, none, some, List, [], ◌∷◌, ◌≡◌, ◌<>◌, refl, is_some,
  arith, all, filter, Any, inl, inr, Option-cases, Bool-cases, List-cases, if◌then◌else◌,
}
use operator_sdk.Base.Text.{codes, trim_space, to_lower, same}
use operator_sdk.Errors.{Error, failure, wrap, is_not_found, Result, ok, err}

-- A sorted manifest: its text, and the resource-policy annotation of its head, if it has one.
pub record Manifest : Type 0 where
  pub content : String
  pub resource_policy : Option String

-- `strings.ToLower(strings.TrimSpace(policy)) == "keep"`
unfoldable pub is_keep : String → Bool
unfolding trim_space to_lower
is_keep policy = same (to_lower (trim_space (codes policy))) (codes "keep")

-- `FilterManifestsToKeep`
unfoldable pub filter_manifests_to_keep : List Manifest → List Manifest × List Manifest
filter_manifests_to_keep [] = ([], [])
filter_manifests_to_keep (m ∷ ms) =
    let (keep, remaining) = filter_manifests_to_keep ms in
    elim m.resource_policy [
      | none ↦ (keep, m ∷ remaining)
      | some policy ↦ if is_keep policy then (m ∷ keep, remaining) else (keep, remaining)
    ]

-- The manifests are sorted, and the contents of those to delete joined: what `Build` is given.
unfoldable pub join_contents : List Manifest → String
join_contents [] = ""
join_contents (m ∷ ms) = "\n---\n" <> m.content <> join_contents ms

-- The cluster and Helm's parsers. `get` is nil if the resource is there; `delete_all` gives the
-- errors of the deletion of all resources.
pub record Cluster (Resource : Type 0) : Type 0 where
  pub api_versions : Option Error
  pub sort_manifests : String → Result (List Manifest)
  pub build : String → Result (List Resource)
  pub get : Resource → Option Error
  pub delete_all : List Resource → List Error

-- What `CleanupRelease` returns, and the deletion that it asks for.
pub record CleanedUp (Resource : Type 0) : Type 0 where
  pub deleted : List Resource
  pub result : Result Bool

-- A manifest with a resource policy, and whether it is `keep`.
abbrev pub keeps : Manifest → Bool
keeps m = elim m.resource_policy [ none ↦ false | some policy ↦ is_keep policy ]

abbrev pub has_policy : Manifest → Bool
has_policy m = is_some m.resource_policy

-- Kept are exactly the manifests whose policy is `keep`, and the rest to delete are exactly those
-- with no policy at all, both in their order.
pub filter_manifests_to_keep_lem :
    (ms : List Manifest)
    → filter_manifests_to_keep ms ≡ (filter keeps ms, filter (λ m. not (has_policy m)) ms)
unfolding filter_manifests_to_keep
filter_manifests_to_keep_lem [] = refl
filter_manifests_to_keep_lem (m ∷ ms) = ground (arith, filter_manifests_to_keep_lem ms)

module _ {Resource : Type 0} (C : Cluster Resource) where
  -- The deletion of everything again; of the aggregated errors only the prefix is kept.
  unfoldable pub delete_again : List Resource → CleanedUp Resource
  delete_again resources = elim (C.delete_all resources) [
    | [] ↦ record { deleted = resources; result = ok false }
    | e ∷ es ↦ record { deleted = resources; result = err (failure "failed to delete resources") }
  ]

  -- The loop over the resources: `rest` of `resources` is still to be asked for.
  unfoldable pub check_resources : List Resource → List Resource → CleanedUp Resource
  unfolding delete_again
  check_resources resources [] = record { deleted = []; result = ok true }
  check_resources resources (r ∷ rest) =
      let further = check_resources resources rest in
      elim (C.get r) [
        | none ↦ delete_again resources
        | some e ↦
            if is_not_found e
            then further
            else record { deleted = []; result = err (wrap "failed to get resource" e) }
      ]

  unfoldable pub cleanup_manifests : List Manifest → CleanedUp Resource
  cleanup_manifests files = elim (C.build (join_contents (filter_manifests_to_keep files).1)) [
    | err e ↦ record {
      deleted = [];
      result = err (wrap "failed to build resources from manifests" e);
    }
    | ok resources ↦ check_resources resources resources
  ]

  -- `CleanupRelease`; `api_versions` is the error of the discovery, if it is one that counts.
  unfoldable pub cleanup_release : String → CleanedUp Resource
  unfolding cleanup_manifests
  cleanup_release manifest = elim C.api_versions [
    | some e ↦ record { deleted = []; result = err e }
    | none ↦ elim (C.sort_manifests manifest) [
      | err e ↦ record { deleted = []; result = err (wrap "failed to sort manifests" e) }
      | ok files ↦ cleanup_manifests files
    ]
  ]

  -- The resource is not in the cluster.
  abbrev pub is_gone : Resource → Bool
  is_gone r = elim (C.get r) [ none ↦ false | some e ↦ is_not_found e ]

  abbrev pub has_result : Result Bool → Bool → Bool
  has_result (ok true) b = b
  has_result (ok false) b = not b
  has_result (err e) b = false

  check_resources_lem :
      (resources rest : List Resource)
      → ((check_resources resources rest).result ≡ ok true → all is_gone rest ≡ true)
        × (all is_gone rest ≡ true
            → check_resources resources rest ≡ record { deleted = []; result = ok true })
        × ((check_resources resources rest).result ≡ ok false
            → Any (λ r. C.get r ≡ none) rest
              × ((check_resources resources rest).deleted ≡ resources)
              × (C.delete_all resources ≡ []))
  unfolding check_resources
  check_resources_lem resources [] = (λ h. refl, λ h. refl, λ h. absurd (ground (arith, h)))
  check_resources_lem resources (r ∷ rest) =
      let (a, b, c) = check_resources_lem resources rest in
      elim (Option-cases (C.get r)) [
        | inl e ↦ elim (List-cases (C.delete_all resources)) [
          | inl d ↦ (
            λ h. absurd (ground (arith, e, d, h)),
            λ h. absurd (ground (arith, e, h)),
            λ h. (inl e, ground (arith, e, d), d),
          )
          | inr (x, xs, d) ↦ (
            λ h. absurd (ground (arith, e, d, h)),
            λ h. absurd (ground (arith, e, h)),
            λ h. absurd (ground (arith, e, d, h)),
          )
        ]
        | inr (x, e) ↦ elim (Bool-cases (is_not_found x)) [
          | inl n ↦ (
            λ h. ground (arith, e, n, a (ground (arith, e, n, h))),
            λ h. ground (arith, e, n, b (ground (arith, e, n, h))),
            λ h. let (l, d, f) = c (ground (arith, e, n, h)) in (inr l, ground (arith, e, n, d), f),
          )
          | inr n ↦ (
            λ h. absurd (ground (arith, e, n, h)),
            λ h. absurd (ground (arith, e, n, h)),
            λ h. absurd (ground (arith, e, n, h)),
          )
        ]
      ]

  -- The resources that are built of the manifests with no resource policy.
  abbrev pub Builds : String → List Resource → Type 0
  Builds manifest resources =
      (files : List Manifest) × (C.api_versions ≡ none)
      × (C.sort_manifests manifest ≡ ok files)
      × (C.build (join_contents (filter (λ m. not (has_policy m)) files)) ≡ ok resources)

  cleanup_release-eq :
      (manifest : String) (resources : List Resource)
      → Builds manifest resources
      → cleanup_release manifest ≡ check_resources resources resources
  unfolding cleanup_release
  cleanup_release-eq manifest resources (files, a, b, c) =
      ground (arith, a, b, c, filter_manifests_to_keep_lem files)

  -- Where the manifest can be read, and the resources with no resource policy can be built of it: the
  -- cleanup reports that all is deleted exactly if none of these resources is found in the cluster,
  -- and then it deletes nothing; and if it reports that some are left, one of them was found, and
  -- the deletion of all of them was asked for and had no error.
  pub cleanup_release_lem :
      (manifest : String) (resources : List Resource)
      → Builds manifest resources
      → ((cleanup_release manifest).result ≡ ok true → all is_gone resources ≡ true)
        × (all is_gone resources ≡ true
            → cleanup_release manifest ≡ record { deleted = []; result = ok true })
        × ((cleanup_release manifest).result ≡ ok false
            → Any (λ r. C.get r ≡ none) resources
              × ((cleanup_release manifest).deleted ≡ resources)
              × (C.delete_all resources ≡ []))
  cleanup_release_lem manifest resources b =
      rw (cleanup_release-eq manifest resources b) (check_resources_lem resources resources)
