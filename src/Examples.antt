-- ===== src/Examples.antt =====
-- The programs under examples/: what their remote functions and classes compute.
pub mod WordCount
pub mod Counter
pub mod Chain
pub mod Lineage
