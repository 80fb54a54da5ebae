-- ===== src/Connection.antt =====
-- rabbitmq/rabbitmq.go: the connection of a client.
mod Defs
pub mod Dial
pub mod Dialled
pub mod Connect
pub mod Steady
pub mod Balance
pub mod Accepted
pub mod Refused
pub mod Channels
pub mod Threads
unfoldable pub use Defs.{
  closed, open_conn, live, connected, drop_connection, pending_err, swap_dialing, try_dial, recheck,
  dial_broker, rejected_topology, failed_dial, failed_setup, establish, end_failed_dial,
  end_connect, set_connected,
}
pub use Defs.{is_set, end_dialing}
