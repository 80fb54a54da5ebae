-- ===== src/Publish.antt =====
-- rabbitmq/publisher.go: `Publish`, and rabbitmq/common.go: `reconnect`.
mod Defs
pub mod Kept
unfoldable pub use Defs.{
  reconnect, after_connect, after_attempt, attempt, after_reconnect, publish_prepared,
  publish_message,
}
pub use Defs.{Link}
