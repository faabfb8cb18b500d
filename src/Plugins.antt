-- ===== src/Plugins.antt =====
-- The plugin platform, packages/plugins/src: registry, lifecycle and dependency checks.
pub mod Types
pub mod Registry
pub mod Lifecycle
pub mod Dependencies
mod Tests
