-- ===== src/Setup.antt =====
-- rabbitmq/rabbitmq.go: the setup of a client and its options.
mod Defs
pub mod Validity
mod Wrapped
pub use Defs.{Setup, second, default_reconnect_delay, default_publish_confirm_timeout}
unfoldable pub use Defs.{
  new_setup, with_consumer, with_reconnect_delay, with_dial_timeout, with_publish_confirm_timeout,
  with_retry_policy, with_prefetch_count, with_concurrency, setup_fault, validate,
}
