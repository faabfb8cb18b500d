-- ===== src/Runtime/Startup/Sorting.antt =====
-- The order of the startup.
pub mod Total
pub mod Order
pub mod Acyclic
pub mod Whole
