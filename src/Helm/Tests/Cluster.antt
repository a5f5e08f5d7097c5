-- ===== src/Helm/Tests/Cluster.antt =====
-- The theorems on the cluster of manager.go and on resource_policy.go at concrete clusters.
use operator_sdk.Base.{
  Any, String, Bool, true, false, not, none, some, List, [], ◌∷◌, ◌≡◌, refl, all, any,
  if◌then◌else◌, ◌==◌, filter, arith, ==_self,
}
use operator_sdk.Errors.{is_not_found, ok, err, api_not_found}
use operator_sdk.Helm.Manager.Patch.{
  Patching, ResourceHelper, reconcile_release, reconcile_resource, patch_existing, create_patch,
  applied, create_missing,
}
use operator_sdk.Helm.Manager.Patch.Laws.{IsApiServer, reconcile_release-has}
use operator_sdk.Helm.Manager.Cleanup.{
  Manifest, Cluster, filter_manifests_to_keep, cleanup_release, is_gone, Builds, keeps, has_policy,
  cleanup_release_lem, filter_manifests_to_keep_lem,
}

-- Objects are their texts, and a cluster is the list of those it has.
abbrev patching : Patching String String
patching = record {
  marshal = λ o. ok o;
  expected_object = λ i. i;
  is_unstructured = λ i. true;
  is_crd = λ i. false;
  create_json_patch =
      λ e x. ok (record { operation = "remove"; path = "/spec/x"; value = none } ∷ []);
  marshal_operations = λ ops. ok "[]";
  patch_meta = λ i. none;
  three_way_patch = λ a b c. ok "{}";
}

abbrev lives : String → List String → Bool
lives i s = any (λ x. x == i) s

abbrev helper : ResourceHelper String String (List String)
helper = record {
  get = λ i s. if lives i s then ok i else err (api_not_found i);
  create = λ i s. (none, i ∷ s);
  patch = λ i t p s. (none, s);
}

helper-IsApiServer : IsApiServer patching helper
helper-IsApiServer = record {
  has = lives;
  get_has = λ i s x h. ground (arith, h);
  create_has = λ i s h. ground (arith, ==_self i);
  create_keeps = λ i j s h. ground (arith, h);
  patch_keeps = λ i j t p s h. h;
}

reconcile_ends :
    (reconcile_release patching helper (ok ("pod" ∷ "service" ∷ [])) ("pod" ∷ [])).0 ≡ none
unfolding reconcile_release reconcile_resource patch_existing create_patch applied is_not_found
    create_missing
reconcile_ends = refl

reconcile_release-has_example :
    all
      (λ i.
        helper-IsApiServer.has i
          (reconcile_release patching helper (ok ("pod" ∷ "service" ∷ [])) ("pod" ∷ [])).1)
      ("pod" ∷ "service" ∷ [])
    ≡ true
reconcile_release-has_example =
    reconcile_release-has patching helper helper-IsApiServer ("pod" ∷ "service" ∷ []) ("pod" ∷ [])
      reconcile_ends

-- A cluster that still has the resource `pod`.
abbrev cluster : Cluster String
cluster = record {
  api_versions = none;
  sort_manifests = λ m. ok (
      record { content = m; resource_policy = none }
      ∷ record { content = "pvc"; resource_policy = some "keep" }
      ∷ []);
  build = λ text. ok ("pod" ∷ []);
  get = λ r. none;
  delete_all = λ rs. [];
}

cluster-Builds : Builds cluster "kind: Pod" ("pod" ∷ [])
cluster-Builds = (
  record { content = "kind: Pod"; resource_policy = none }
      ∷ record { content = "pvc"; resource_policy = some "keep" }
      ∷ [],
  refl,
  refl,
  refl,
)

cleanup_release_lem_example :
    ((cleanup_release cluster "kind: Pod").result ≡ ok true
      → all (is_gone cluster) ("pod" ∷ []) ≡ true)
    × (all (is_gone cluster) ("pod" ∷ []) ≡ true
        → cleanup_release cluster "kind: Pod" ≡ record { deleted = []; result = ok true })
    × ((cleanup_release cluster "kind: Pod").result ≡ ok false
        → Any (λ r. cluster.get r ≡ none) ("pod" ∷ [])
          × ((cleanup_release cluster "kind: Pod").deleted ≡ "pod" ∷ [])
          × (cluster.delete_all ("pod" ∷ []) ≡ []))
cleanup_release_lem_example = cleanup_release_lem cluster "kind: Pod" ("pod" ∷ []) cluster-Builds

abbrev manifests : List Manifest
manifests =
    record { content = "pvc"; resource_policy = some " Keep " }
    ∷ record { content = "pod"; resource_policy = none }
    ∷ record { content = "job"; resource_policy = some "delete" }
    ∷ []

filter_manifests_to_keep_lem_example :
    filter_manifests_to_keep manifests
    ≡ (filter keeps manifests, filter (λ m. not (has_policy m)) manifests)
filter_manifests_to_keep_lem_example = filter_manifests_to_keep_lem manifests
