-- ===== src/Boot.antt =====
-- rabbitmq/rabbitmq.go: `Setup.Connect`, which makes a client.
mod Defs
pub mod Claims
unfoldable pub use Defs.{close_client, after_boot, after_claim, connect_setup}
