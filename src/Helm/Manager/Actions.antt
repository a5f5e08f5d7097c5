-- ===== src/Helm/Manager/Actions.antt =====
-- manager.go: InstallRelease, UpgradeRelease, RollBack and UninstallRelease over Helm's actions,
-- which are parameters. The options that the reconciler passes always apply.
use operator_sdk.Base.{
  Bool, false, ◌<>◌, Option, none, some, ◌≡◌, is_some, arith, Option-cases, inl, inr, if◌then◌else◌,
}
use operator_sdk.Errors.{Error, wrap, upgrade_failed, message, is_upgrade_failed}
use operator_sdk.Helm.Release.{Release}
use operator_sdk.Helm.Manager.Sync.{fatal}

-- Helm's actions on one release: what they return, and the state after them.
pub record HelmActions (State : Type 0) : Type 0 where
  pub run_install : State → Option Release × Option Error × State
  pub run_upgrade : Bool → State → Option Release × Option Error × State
  pub run_rollback : Bool → State → Option Error × State
  pub run_uninstall : State → Option Release × Option Error × State

module _ {State : Type 0} (H : HelmActions State) where
  -- The undoing of a failed installation, and the error that is returned for it.
  unfoldable pub undo_install : Error → State → Error × State
  unfolding fatal
  undo_install e s =
      let (_, e', s') = H.run_uninstall s in
      elim (fatal e') [
        | some e'' ↦
            (wrap ("failed installation (" <> message e <> ") and failed rollback") e'', s')
        | none ↦ (wrap "failed to install release" e, s')
      ]

  -- `InstallRelease`
  unfoldable pub install_release : State → Option Release × Option Error × State
  unfolding undo_install
  install_release s =
      let (rel, e, s') = H.run_install s in
      elim e [
        | none ↦ (rel, none, s')
        | some e' ↦ elim rel [
          | none ↦ (none, some (wrap "failed to install release" e'), s')
          | some _ ↦ let (e'', s'') = undo_install e' s' in (none, some e'', s'')
        ]
      ]

  -- `UpgradeRelease`; the release that the manager had deployed is returned beside the new one.
  unfoldable pub upgrade_release :
      Option Release → Bool → State → Option Release × Option Release × Option Error × State
  upgrade_release previous force s =
      let (rel, e, s') = H.run_upgrade force s in
      elim e [
        | none ↦ (previous, rel, none, s')
        | some e' ↦ elim rel [
          | some _ ↦ (none, none, some upgrade_failed, s')
          | none ↦ (none, none, some (wrap "failed to upgrade release" e'), s')
        ]
      ]

  -- `RollBack`
  unfoldable pub roll_back : Bool → State → Option Error × State
  roll_back force s =
      let (e, s') = H.run_rollback force s in
      elim e [ none ↦ (none, s') | some e' ↦ (some (wrap "rollback failed" e'), s') ]

  -- `UninstallRelease`
  unfoldable pub uninstall_release : State → Option Release × Option Error × State
  uninstall_release s = H.run_uninstall s

  -- The state in which an installation leaves Helm: that of the install action, or, if the
  -- action failed and yet returned a release, that of the uninstall action after it.
  abbrev pub state_after_install : State → State
  state_after_install s =
      let (rel, e, s') = H.run_install s in
      if is_some e then if is_some rel then (H.run_uninstall s').2 else s' else s'

  -- An installation returns an error exactly if Helm's action does, and then no release. If it
  -- returns none, the release is the action's. In all cases the state is the action's, but for
  -- the undoing of a failed installation that had recorded a release.
  pub install_release_undoes :
      (s : State)
      → let (rel, e, s') = H.run_install s in
        let (rel', e', s'') = install_release s in
        (is_some e' ≡ is_some e)
        × (rel' ≡ (if is_some e then none else rel))
        × (s'' ≡ state_after_install s)
  unfolding install_release
  install_release_undoes s = ground arith

  -- Where the error of Helm's upgrade action, if any, is not `ErrUpgradeFailed` itself: an upgrade
  -- fails exactly if the action does, and it reports `ErrUpgradeFailed` exactly if the action
  -- returned a release with its error. No release is returned with an error, the previous and the
  -- new release are returned with none, and the state is the action's.
  pub upgrade_release_reports :
      (previous : Option Release) (force : Bool) (s : State)
      → ((e : Error) → (H.run_upgrade force s).1 ≡ some e → is_upgrade_failed e ≡ false)
      → let (rel, e, s') = H.run_upgrade force s in
        let (old, new, e', s'') = upgrade_release previous force s in
        (s'' ≡ s')
        × ((x : Error)
            → e ≡ some x
            → (y : Error) × (e' ≡ some y)
              × (is_upgrade_failed y ≡ is_some rel)
              × (old ≡ none)
              × (new ≡ none))
        × (e ≡ none → (e' ≡ none) × (old ≡ previous) × (new ≡ rel))
  unfolding upgrade_release is_upgrade_failed
  upgrade_release_reports previous force s h = (
    ground arith,
    λ x e. elim (Option-cases (H.run_upgrade force s).0) [
      | inl r ↦ (
        wrap "failed to upgrade release" x,
        ground (arith, e, r),
        ground (arith, e, r, h x e),
        ground (arith, e, r),
        ground (arith, e, r),
      )
      | inr (rel, r) ↦ (
        upgrade_failed,
        ground (arith, e, r),
        ground (arith, e, r),
        ground (arith, e, r),
        ground (arith, e, r),
      )
    ],
    λ e. ground (arith, e),
  )
