-- ===== src/Consumer.antt =====
-- rabbitmq/consumer.go: what becomes of a delivery, and the handlers of a client.
mod Defs
pub mod Retry
pub mod Dispatch
pub mod Loop
pub mod Pool
pub mod Shutdown
unfoldable pub use Defs.{
  handler_for, find_handler, retry_count, next_int, stamp_origin_exchange, republish_message,
  retry_headers, republish_message_to_retry_exchange, process_message, handle_message_safely,
  origin_of, origin_exchange, should_retry, next_count, retry_copy,
}
pub use Defs.{
  Settlement, acked, dead_lettered, Outcome, retry_count_header_key, origin_exchange_header_key,
  table_of,
}
