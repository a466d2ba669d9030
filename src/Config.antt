-- ===== src/Config.antt =====
-- internal/config: the configuration and its merge.
pub mod Types
pub mod Slices
pub mod Routing
pub mod Merge
pub mod Upstream
