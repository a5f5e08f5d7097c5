-- ===== src/Helm/Manager/Sync.antt =====
-- manager.go: Sync, and what it calls. The storage backend and Helm's actions are parameters.
pub mod Laws
use operator_sdk.Base.{
  ℕ, String, Bool, true, false, not, Option, none, some, List, [], ◌∷◌, ◌==◌, if◌then◌else◌,
}
use operator_sdk.Errors.{
  Error, release_not_found, wrap, is_release_not_found, mentions, Result, ok, err,
}
use operator_sdk.Helm.Release.{Release}

-- `storage.Storage` of Helm over an unknown state, and the dry run of an upgrade that computes
-- the candidate release.
pub record Storage (State : Type 0) : Type 0 where
  pub history : String → State → Result (List Release)
  pub delete : String → ℕ → State → Option Error × State
  pub deployed : String → State → Result Release
  pub candidate : String → State → Result Release

-- The fields of `manager` that `Sync` reads and sets.
pub record ManagerState : Type 0 where
  pub release_name : String
  pub is_installed : Bool
  pub is_upgrade_required : Bool
  pub deployed_release : Option Release

-- `notFoundErr`
unfoldable pub not_found_err : Error → Bool
not_found_err e = mentions e "not found"

-- `err != nil && !notFoundErr(err)`
unfoldable pub fatal : Option Error → Option Error
unfolding not_found_err
fatal none = none
fatal (some e) = if not_found_err e then none else some e

-- `rel.Info != nil && rel.Info.Status != rpb.StatusDeployed`
unfoldable pub is_stale : Release → Bool
is_stale rel = elim rel.info [ none ↦ false | some i ↦ not (i.status == "deployed") ]

module _ {State : Type 0} (S : Storage State) where
  -- The body of the loop: a release that is not deployed is deleted.
  unfoldable pub delete_if_stale : Release → State → Option Error × State
  delete_if_stale rel s = if is_stale rel then S.delete rel.name rel.version s else (none, s)

  -- The loop over the history.
  unfoldable pub delete_stale : List Release → State → Option Error × State
  delete_stale [] s = (none, s)
  delete_stale (rel ∷ rels) s =
      let (e, s') = delete_if_stale rel s in
      let rest = delete_stale rels s' in
      elim (fatal e) [
        | some e' ↦ (some (wrap "failed to delete stale release version" e'), s')
        | none ↦ rest
      ]

  unfoldable pub get_deployed_release : String → State → Result Release
  get_deployed_release name s = elim (S.deployed name s) [
    | ok rel ↦ ok rel
    | err e ↦ if mentions e "has no deployed releases" then err release_not_found else err e
  ]

  -- `Sync` from the loading of the deployed release on.
  unfoldable pub load_deployed : ManagerState → State → Option Error × ManagerState
  load_deployed m s = elim (get_deployed_release m.release_name s) [
    | err e ↦
        if is_release_not_found e
        then (none, m)
        else (some (wrap "failed to get deployed release" e), m)
    | ok rel ↦
        let m' : ManagerState = record m { deployed_release = some rel; is_installed = true } in
        elim (S.candidate m.release_name s) [
          | err e ↦ (some (wrap "failed to get candidate release" e), m')
          | ok cand ↦
              if rel.manifest == cand.manifest
              then (none, m')
              else (none, record m' { is_upgrade_required = true })
        ]
  ]

  -- `history, err := …; if err != nil && !notFoundErr(err)`; with an error the list is nil.
  unfoldable pub load_history : String → State → Result (List Release)
  unfolding not_found_err
  load_history name s = elim (S.history name s) [
    | ok rels ↦ ok rels
    | err e ↦ if not_found_err e then ok [] else err (wrap "failed to retrieve release history" e)
  ]

  -- `Sync`: the error, the manager and the storage afterwards.
  unfoldable pub sync : ManagerState → State → Option Error × ManagerState × State
  sync m s = elim (load_history m.release_name s) [
    | err e ↦ (some e, m, s)
    | ok rels ↦
        let (e, s') = delete_stale rels s in
        elim e [
          | some e' ↦ (some e', m, s')
          | none ↦ let (e'', m') = load_deployed m s' in (e'', m', s')
        ]
  ]
