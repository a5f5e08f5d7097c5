-- ===== src/Olm/Tests.antt =====
-- Concrete inputs for the theorems on OLM.
mod Client
mod Operator
mod Registry
mod FbcPod
mod Installer
mod Olm
