-- ===== src/Helm/Release.antt =====
-- Helm releases, and the interface `Manager` of internal/helm/release/manager.go as the
-- reconciler sees it.
use operator_sdk.Base.{ℕ, String, Bool, Option}
use operator_sdk.Errors.{Error, Result}

-- `release.Info`, as far as it is read.
pub record Info : Type 0 where
  pub status : String
  pub notes : String

-- `release.Release`, as far as it is read; the nil pointers are `none`.
pub record Release : Type 0 where
  pub name : String
  pub version : ℕ
  pub manifest : String
  pub info : Option Info
  pub chart_name : Option String

-- The answers that a manager gives in one reconciliation, in which each method is called once at
-- most. `is_installed` and `is_upgrade_required` are read after `sync`.
pub record Manager : Type 0 where
  pub sync : Option Error
  pub is_installed : Bool
  pub is_upgrade_required : Bool
  pub install_release : Result Release
  pub upgrade_release : Bool → Result Release
  pub roll_back : Bool → Option Error
  pub reconcile_release : Result Release
  pub uninstall_release : Option Error
  pub cleanup_release : String → Result Bool
