-- ===== src/Util.antt =====
-- internal/util: small functions that several parts share.
pub mod K8sutil
