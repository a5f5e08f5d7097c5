-- ===== src/Helm/Connected.antt =====
-- internal/helm/release/manager.go: the methods of one manager over one state of Helm and of the
-- cluster, as the answers that the reconciler gets from them.
pub mod Laws
use operator_sdk.Base.{String, Bool, true, false, Option, none, some, List}
use operator_sdk.Errors.{Error, failure, Result, ok, err}
use operator_sdk.Helm.Release.{Release, Manager}
use operator_sdk.Helm.Manager.Sync.{Storage, ManagerState, sync}
use operator_sdk.Helm.Manager.Actions.{
  HelmActions, install_release, upgrade_release, roll_back, uninstall_release,
}
use operator_sdk.Helm.Manager.Patch.{Patching, ResourceHelper, reconcile_release}
use operator_sdk.Helm.Manager.Cleanup.{Cluster, cleanup_release}

-- What a manager is connected to. The state is that of Helm's storage and of the API server.
pub record Backend (State Object Info Resource : Type 0) : Type 0 where
  pub storage : Storage State
  pub actions : HelmActions State
  pub patching : Patching Object Info
  pub helper : ResourceHelper Object Info State
  pub build : String → Result (List Info)
  pub cluster : State → Cluster Resource

-- The manager that `NewManager` makes.
abbrev pub new_manager : String → ManagerState
new_manager name = record {
  release_name = name;
  is_installed = false;
  is_upgrade_required = false;
  deployed_release = none;
}

-- A release and an error as one answer; the use of a nil release with no error is a run-time
-- error.
unfoldable pub answer : Option Release → Option Error → Result Release
answer rel (some e) = err e
answer (some rel) none = ok rel
answer none none = err (failure "nil pointer dereference")

module _ {State Object Info Resource : Type 0} (B : Backend State Object Info Resource) where
  -- The state after `Sync`, and the manager's fields then.
  abbrev pub state_after_sync : String → State → State
  state_after_sync name s = (sync B.storage (new_manager name) s).2

  abbrev pub synced : String → State → ManagerState
  synced name s = (sync B.storage (new_manager name) s).1

  -- `ReconcileRelease`: the deployed release, if its resources could be reconciled.
  unfoldable pub reconcile_deployed : Option Release → State → Result Release
  reconcile_deployed none s = err (failure "nil pointer dereference")
  reconcile_deployed (some rel) s =
      elim (reconcile_release B.patching B.helper (B.build rel.manifest) s).0 [
        | some e ↦ err e
        | none ↦ ok rel
      ]

  -- The manager of the release `name`; `force` is how an upgrade is called, after which a rollback
  -- would be. The deletion of a resource makes no call of `Sync`.
  unfoldable pub manager_of : String → Bool → State → Manager
  unfolding answer
  manager_of name force s =
      let m = synced name s in
      let s' = state_after_sync name s in
      record {
        sync = (sync B.storage (new_manager name) s).0;
        is_installed = m.is_installed;
        is_upgrade_required = m.is_upgrade_required;
        install_release = let (rel, e, t) = install_release B.actions s' in answer rel e;
        upgrade_release = λ f.
            let (old, new, e, t) = upgrade_release B.actions m.deployed_release f s' in
            answer new e;
        roll_back = λ f.
            let (old, new, e, t) = upgrade_release B.actions m.deployed_release force s' in
            (roll_back B.actions f t).0;
        reconcile_release = reconcile_deployed m.deployed_release s';
        uninstall_release = let (rel, e, t) = uninstall_release B.actions s in e;
        cleanup_release = λ manifest.
            let (rel, e, t) = uninstall_release B.actions s in
            (cleanup_release (B.cluster t) manifest).result;
      }
