-- ===== src/Runtime.antt =====
-- packages/runtime/src: the start, the health and the shutdown of the process.
pub mod Startup
pub mod Shutdown
pub mod Health
