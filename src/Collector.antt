-- ===== src/Collector.antt =====
-- The collection of manifests for a bundle (internal/generate/collector, and the related images
-- of internal/cmd/operator-sdk/generate/internal).
pub mod FormatName
pub mod NameMap
pub mod Permissions
pub mod RelatedImages
mod Tests
