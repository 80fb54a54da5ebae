-- ===== src/Carrier.antt =====
-- gorabbit.go: the contract of a header carrier, and where the client calls it.
mod Defs
pub mod Carried
unfoldable pub use Defs.{noop_header_carrier, with_header_carrier, ambient_headers, handler_context}
pub use Defs.{HeaderCarrier}
