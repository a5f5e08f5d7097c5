-- ===== src/Helm.antt =====
-- The Helm operator (internal/helm): the status block of a custom resource, the interface of
-- the release manager, its implementation, and the reconciler that uses it.
pub mod Status
pub mod Release
pub mod Manager
pub mod Factory
pub mod Connected
pub mod Watches
pub mod Reconcile
mod Tests
