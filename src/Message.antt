-- ===== src/Message.antt =====
-- msg.go: the markers that a message type embeds, and what a driver asks of a message.
use gorabbit.Prelude.{Bytes, Bool, true, false, Option, none}

-- `Msg[E]` and `RoutedMsg[E]`: a message type embeds exactly one.
pub data Marker : Type 0 where
  msg routed_msg : Marker

-- A value of a message type: the name of its concrete type (pointers dereferenced), the name of
-- the exchange E of its marker, the marker, and the answer of `RouteBy` if the type has one.
pub record Message : Type 0 where
  pub type_name : Bytes
  pub exchange : Bytes
  pub marker : Marker
  pub route_by : Option Bytes

-- `ExchangeOf`, which calls the marker's `exchangeName`.
unfoldable pub exchange_of : Message → Bytes
exchange_of m = m.exchange

abbrev has_routed_msg : Marker → Bool
has_routed_msg msg = false
has_routed_msg routed_msg = true

-- `IsRouted`: the type assertion to `interface{ routedMsg() }`.
unfoldable pub is_routed : Message → Bool
is_routed m = has_routed_msg m.marker

-- The type assertion to `RoutedMessage`, which wants both `routedMsg` and `RouteBy`.
abbrev as_routed_message : Marker → Option Bytes → Option Bytes
as_routed_message msg r = none
as_routed_message routed_msg r = r

-- `RouteOf`: `none` is the answer `"", false`.
unfoldable pub route_of : Message → Option Bytes
route_of m = as_routed_message m.marker m.route_by
