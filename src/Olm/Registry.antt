-- ===== src/Olm/Registry.antt =====
-- internal/olm/operator/registry: the catalog that serves a bundle, and the installation from it.
pub mod ConfigMaps
pub mod FbcPod
pub mod Installer
