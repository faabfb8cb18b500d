-- ===== src/Memory.antt =====
-- packages/memory/src: the records that are remembered, with their filters and policies, the
-- index of their content, and the registry of the stores behind them.
pub mod Types
pub mod Indexer
pub mod Registry
pub mod Policies
pub mod Filters
mod Tests
