-- ===== src/Flush.antt =====
-- rabbitmq/common.go and rabbitmq/lease.go: the messages that wait in the cache.
mod Defs
pub mod Laws
pub mod Lease
pub mod Signal
pub mod Memory
pub mod Kept
pub mod Safety
pub mod Replicas
pub mod Order
pub mod Turn
pub mod Drained
pub mod Delivers
unfoldable pub use Defs.{
  double, publish_attempt_timeout, publish_lease_ttl, signal_pending, cache_message,
  reserve_cached_message, release_cached_message, read_cached_message, flush_key, flush_keys,
  flush_cached_messages, end_flush,
}
pub use Defs.{
  cached_message_ttl, min_publish_lease_ttl, Codec, World, Verdict, reserved_elsewhere, gone,
  delivered, no_queue, broken, put_cache, set_flushing, decoded,
}
