-- ===== src/Helm/Tests.antt =====
-- Concrete inputs for the theorems on the Helm operator.
mod World
mod Reconciliation
mod Release
mod Cluster
mod Connected
mod Watches
