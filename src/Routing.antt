-- ===== src/Routing.antt =====
-- rabbitmq/routing.go: the routing key of a message, and the encoder of routes.
mod Defs
pub mod Encoding
pub mod Keys
unfoldable pub use Defs.{
  max_routing_key_bytes, reserved_route_chars, all_routes_suffix, has_byte, contains_any,
  encode_char, encode_loop, encode_route, routed_key, check_routing_key_length, publish_routing_key,
  type_name_of,
}
