-- ===== src/Helm/Reconcile/Deletion/Laws.antt =====
-- reconcile.go: the writes of a resource under deletion.
use operator_sdk.Base.{
  Bool, true, false, not, none, some, ◌≡◌, ◌⊎◌, arith, any, all, inl, inr, Option-cases, ==_iff,
}
use operator_sdk.Errors.{Error, is_release_not_found, ok}
use operator_sdk.Helm.Status.{HelmAppStatus, DeployedRelease, set_condition, remove_condition}
use operator_sdk.Helm.Release.{Manager}
use operator_sdk.Helm.Reconcile.Annotations.{
  CustomResource, Duration, uninstall_finalizer, uninstall_finalizer_legacy,
  helm_uninstall_wait_annotation, has_annotation,
}
use operator_sdk.Helm.Reconcile.Env.{Env, IsControllerutil, Call, Outcome, update}
use operator_sdk.Helm.Reconcile.Deletion.{
  has_finalizer, without_finalizers, uninstalled_status, reconcile_deletion,
}

module _ {Raw : Type 0} (E : Env Raw) where
  -- The call is no write of the resource that leaves one of the finalizers.
  abbrev pub releases : Call Raw → Bool
  releases (update o) = not (has_finalizer E o)
  releases _ = true

  without_finalizers_lem :
      (o : CustomResource Raw)
      → IsControllerutil E
      → has_finalizer E (without_finalizers E o) ≡ false
  without_finalizers_lem o L = ground (
    arith,
    L.contains-remove (E.remove_finalizer o uninstall_finalizer) uninstall_finalizer_legacy
        uninstall_finalizer,
    L.contains-remove (E.remove_finalizer o uninstall_finalizer) uninstall_finalizer_legacy
        uninstall_finalizer_legacy,
    L.contains-remove o uninstall_finalizer uninstall_finalizer,
  )

module _ {Raw : Type 0} where
  -- The call writes the resource, which is how finalizers are changed.
  abbrev pub is_update : Call Raw → Bool
  is_update (update o) = true
  is_update _ = false

  abbrev pub writes_resource : Outcome Raw → Bool
  writes_resource o = any is_update o.calls

-- The release is gone: Helm uninstalled it, or found none.
abbrev pub IsGone : Manager → Type 0
IsGone m =
    (m.uninstall_release ≡ none)
    ⊎ ((e : Error) × (m.uninstall_release ≡ some e) × (is_release_not_found e ≡ true))

-- With the wait annotation, the resources of the release that the status names are all deleted.
abbrev pub AreResourcesGone : Manager → HelmAppStatus → Bool → Type 0
AreResourcesGone m s wait =
    (rel : DeployedRelease)
    → wait ≡ true
    → s.deployed_release ≡ some rel
    → (rel.manifest ≡ "") ⊎ (m.cleanup_release rel.manifest ≡ ok true)

module _ {Raw : Type 0} (E : Env Raw) where
  -- A resource under deletion is written, which is how it loses its finalizers, only if it had
  -- one of them, Helm has uninstalled the release or found none, and, where the annotation asks
  -- to wait and the status names a release with a manifest, every resource of that manifest was
  -- found to be deleted.
  pub update_needs_uninstall :
      (m : Manager) (o : CustomResource Raw) (s : HelmAppStatus) (period : Duration)
      → writes_resource (reconcile_deletion E m o s period) ≡ true
      → (has_finalizer E o ≡ true)
        × IsGone m
        × AreResourcesGone m s (has_annotation helm_uninstall_wait_annotation o.annotations)
  unfolding reconcile_deletion set_condition remove_condition
  update_needs_uninstall m o s period h =
      (ground arith, ground arith, λ rel w d. ground (arith, ==_iff rel.manifest ""))

  -- Where the finalizer functions behave as documented, every write of a resource under deletion
  -- is of the resource without its two finalizers.
  pub update_without_finalizers :
      (m : Manager) (o : CustomResource Raw) (s : HelmAppStatus) (period : Duration)
      → IsControllerutil E
      → all (releases E) (reconcile_deletion E m o s period).calls ≡ true
  unfolding reconcile_deletion
  update_without_finalizers m o s period L = ground (arith, without_finalizers_lem E o L)

  -- For a resource under deletion that has a finalizer: where the uninstall succeeded or found
  -- nothing, every write of the status succeeds and nothing is left to wait for, the resource is
  -- written.
  pub update_of_uninstall :
      (m : Manager) (o : CustomResource Raw) (s : HelmAppStatus) (period : Duration)
      → has_finalizer E o ≡ true
      → IsGone m
      → ((t : HelmAppStatus) → E.update_status t ≡ none)
      → AreResourcesGone m s (has_annotation helm_uninstall_wait_annotation o.annotations)
      → writes_resource (reconcile_deletion E m o s period) ≡ true
  unfolding reconcile_deletion set_condition remove_condition
  update_of_uninstall m o s period f g u a =
      let wait = has_annotation helm_uninstall_wait_annotation o.annotations in
      elim (Option-cases s.deployed_release) [
        | inl e ↦
            ground
              (arith, u (uninstalled_status E s true wait), u (uninstalled_status E s false wait))
        | inr (rel, e) ↦ ground (
          arith,
          u (uninstalled_status E s true wait),
          u (uninstalled_status E s false wait),
          a rel,
          ==_iff rel.manifest "",
        )
      ]
