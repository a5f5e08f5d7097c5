-- ===== src/Helm/Manager.antt =====
-- internal/helm/release/manager.go: the manager of one release over Helm's storage.
pub mod Sync
pub mod Actions
pub mod Patch
pub mod Cleanup
