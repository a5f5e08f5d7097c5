-- ===== src/Helm/Tests/Release.antt =====
-- The theorems on the release of manager.go and on manager_factory.go at concrete releases.
use operator_sdk.Base.{
  ℕ, String, Bool, true, false, not, none, some, List, [], ◌∷◌, ◌≡◌, ◌⊎◌, refl, all, ◌==◌, filter,
  arith,
}
use operator_sdk.Errors.{Error, ok, failure, is_upgrade_failed}
use operator_sdk.Helm.Release.{Release}
use operator_sdk.Helm.Manager.Sync.{
  Storage, ManagerState, is_stale, sync, load_history, delete_stale, fatal, delete_if_stale,
  load_deployed, get_deployed_release,
}
use operator_sdk.Helm.Manager.Sync.Laws.{
  has_version, IsStorage, IsMissing, sync_deletes_stale, sync_decides,
}
use operator_sdk.Helm.Manager.Actions.{HelmActions}
use operator_sdk.Helm.Factory.{
  get, new_manager, Inputs, NewManager, leaf, table, Fields, end, field, merge_maps,
  get_release_name, release_history,
}
use operator_sdk.Helm.Factory.Overrides.{new_manager_lem}
use operator_sdk.Helm.Factory.Laws.{get_leaf, leaves_alone, has_unique_keys}
use operator_sdk.Helm.Tests.World.{nginx}

-- A storage that is the list of the releases named `nginx`.
abbrev ReleasesOfNginx : Type 0
ReleasesOfNginx = (rels : List Release) × (all (λ r. r.name == "nginx") rels ≡ true)

abbrev stale : Release
stale = record nginx { version = 2; info = some (record { status = "failed"; notes = "" }) }

filter-names :
    (v : ℕ) (rels : List Release)
    → all (λ r. r.name == "nginx") rels ≡ true
    → all (λ r. r.name == "nginx") (filter (λ r. not (has_version v r)) rels) ≡ true
filter-names v [] h = refl
filter-names v (r ∷ rels) h = ground (arith, filter-names v rels)

abbrev storage : Storage ReleasesOfNginx
storage = record {
  history = λ name s. ok s.0;
  delete = λ name v s. (none, (filter (λ r. not (has_version v r)) s.0, filter-names v s.0 s.1));
  deployed = λ name s. ok nginx;
  candidate = λ name s. ok stale;
}

storage-IsStorage : IsStorage storage "nginx"
storage-IsStorage = record {
  view = λ s. s.0;
  names = λ s. s.1;
  history_ok = λ s rels e. ground (arith, e);
  history_err = λ s e h n. absurd (ground (arith, h));
  delete_ok = λ s v h. refl;
  delete_err = λ s v e h n. absurd (ground (arith, h));
}

abbrev unsynced : ManagerState
unsynced = record {
  release_name = "nginx";
  is_installed = false;
  is_upgrade_required = false;
  deployed_release = none;
}

abbrev stored : ReleasesOfNginx
stored = (nginx ∷ stale ∷ [], refl)

sync_ends : (sync storage unsynced stored).0 ≡ none
unfolding sync load_history delete_stale fatal delete_if_stale is_stale load_deployed
    get_deployed_release
sync_ends = refl

sync_deletes_stale_example :
    all (λ x. not (is_stale x)) (storage-IsStorage.view (sync storage unsynced stored).2) ≡ true
sync_deletes_stale_example =
    sync_deletes_stale storage "nginx" storage-IsStorage unsynced stored refl sync_ends

sync_decides_example :
    let (e, m', s') = sync storage unsynced stored in
    (IsMissing storage "nginx" s' × (m' ≡ unsynced))
    ⊎ ((rel cand : Release) × (storage.deployed "nginx" s' ≡ ok rel)
        × (storage.candidate "nginx" s' ≡ ok cand)
        × (m' ≡ record unsynced {
          deployed_release = some rel;
          is_installed = true;
          is_upgrade_required = not (rel.manifest == cand.manifest);
        }))
sync_decides_example = sync_decides storage unsynced stored refl sync_ends

-- Helm with an installation that fails after it has recorded its release; the state is whether
-- one is recorded.
abbrev helm : HelmActions Bool
helm = record {
  run_install = λ s. (some nginx, some (failure "timed out"), true);
  run_upgrade = λ force s. (some nginx, some (failure "timed out"), s);
  run_rollback = λ force s. (none, s);
  run_uninstall = λ s. (some nginx, none, false);
}

timed_out-no_rollback :
    (e : Error) → some (failure "timed out") ≡ some e → is_upgrade_failed e ≡ false
unfolding is_upgrade_failed
timed_out-no_rollback e h = ground (arith, h)

abbrev chart_values : Fields
chart_values = field "image" (table (field "tag" (leaf "v1") (field "repo" (leaf "r") end))) end

abbrev overrides : Fields
overrides = field "image" (table (field "tag" (leaf "v2") end)) end

overrides-has_unique_keys : has_unique_keys overrides ≡ true
unfolding has_unique_keys get
overrides-has_unique_keys = refl

overrides-leaves_alone : leaves_alone ("image" ∷ "repo" ∷ []) overrides ≡ true
unfolding leaves_alone get
overrides-leaves_alone = refl

abbrev inputs : Inputs
inputs = record {
  action_config = none;
  load_chart = ok "nginx";
  history = ok (nginx ∷ []);
  spec = some chart_values;
  parse_overrides = ok overrides;
}

abbrev made : NewManager
made = record { release_name = "web"; values = merge_maps chart_values overrides }

makes : new_manager inputs "web" ≡ ok made
unfolding new_manager get_release_name release_history
makes = refl

new_manager_lem_example :
    (made.release_name ≡ "web")
    × ((values : Fields) (path : List String) (s : String)
        → inputs.parse_overrides ≡ ok values
        → has_unique_keys values ≡ true
        → get_leaf path values ≡ some s
        → get_leaf path made.values ≡ some s)
new_manager_lem_example = new_manager_lem inputs "web" made makes
