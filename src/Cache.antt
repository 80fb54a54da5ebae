-- ===== src/Cache.antt =====
-- cache.go: the store that drivers use, and its implementation in memory.
pub mod Glob
pub mod Interface
pub mod Memory
