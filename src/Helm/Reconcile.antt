-- ===== src/Helm/Reconcile.antt =====
-- internal/helm/controller/reconcile.go: one reconciliation of a custom resource.
pub mod Annotations
pub mod Env
pub mod Deletion
pub mod Passes
pub mod Run
