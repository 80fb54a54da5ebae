-- ===== src/Cache/Memory.antt =====
-- cache.go, `memoryCache`: the definitions, and what they do to the view that a reader has.
mod Defs
pub mod Keys
pub mod View
pub mod Listing
pub mod Refines
unfoldable pub use Defs.{
  new_memory_cache, expired, evict_expired, new_entry, store, set, set_if_absent, get,
  matching_keys, get_all_keys, delete,
}
pub use Defs.{MemoryEntry, Entries, answered_true}
