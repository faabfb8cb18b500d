-- ===== src/Hermes.antt =====
-- The Hermes kernel, packages/hermes/src: the lifecycle of the process and its registry of modules.
pub mod Lifecycle
pub mod Modules
