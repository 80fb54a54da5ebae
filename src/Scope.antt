-- ===== src/Scope.antt =====
-- The keys under which a client keeps things in a shared store: `cacheScope`, `cacheKey`,
-- `msgIDFromCacheKey` (rabbitmq/common.go), `leaseKey` (rabbitmq/lease.go), `handlerInfoCacheKey`
-- (rabbitmq/consumer.go), and the patterns with which a client lists its own.
mod Defs
pub mod Segments
pub mod Isolation
unfoldable pub use Defs.{
  cached_message_prefix, publish_lease_prefix, handler_info_cache_prefix, cache_scope, cache_key,
  lease_key, handler_info_cache_key, handlers_map_key, msg_id_from_cache_key,
  cached_message_pattern, handler_info_pattern,
}
