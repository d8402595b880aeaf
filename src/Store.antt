-- ===== src/Store.antt =====
-- store/kv.go and store/sqlite.go: the table, the operations on it, and what they guarantee.
pub mod Table
pub mod Like
pub mod Kv
pub mod Open
pub mod Lookup
pub mod Uniqueness
pub mod Abstract
pub mod Cells
pub mod Counting
pub mod Refinement
pub mod Spared
pub mod Sweep
pub mod SingleUse
