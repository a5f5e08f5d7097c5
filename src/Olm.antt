-- ===== src/Olm.antt =====
-- The parts of the SDK that talk to the Operator Lifecycle Manager (internal/olm).
pub mod Client
pub mod InstallMode
pub mod OlmInstaller
pub mod Registry
pub mod Status
pub mod Uninstall
mod Tests
