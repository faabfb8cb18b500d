-- ===== src/Planning.antt =====
-- Plans and their validation, packages/llm/src/planning.
pub mod Types
pub mod Validator
