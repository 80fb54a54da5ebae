-- ===== src/Routing/Defs.antt =====
-- The definitions of rabbitmq/routing.go.
use gorabbit.Prelude.{
  ℕ, ◌/◌, ◌%◌, Bytes, Bool, false, ◌||◌, Option, none, some, [], ◌∷◌, ◌++◌, ltb, ◌==◌,
  if◌then◌else◌, length, get_or, take, codes, not,
}
use gorabbit.Errors.{routing_key_too_long, missing_route_by, Result, ok, err}
use gorabbit.Message.{Message, is_routed, route_of}

abbrev pub max_routing_key_bytes : ℕ
max_routing_key_bytes = 255

abbrev pub reserved_route_chars : Bytes
reserved_route_chars = codes ".*#%"

abbrev pub upperhex : Bytes
upperhex = codes "0123456789ABCDEF"

abbrev pub all_routes_suffix : Bytes
all_routes_suffix = codes ".#"

-- `strings.IndexByte(s, c) >= 0`
abbrev pub has_byte : Bytes → ℕ → Bool
has_byte [] c = false
has_byte (x ∷ s) c = x == c || has_byte s c

-- `strings.ContainsAny(s, chars)`
unfoldable pub contains_any : Bytes → Bytes → Bool
contains_any [] chars = false
contains_any (c ∷ s) chars = has_byte chars c || contains_any s chars

-- What one round of the loop writes.
unfoldable pub encode_char : ℕ → Bytes
encode_char char =
    if not (has_byte reserved_route_chars char)
    then char ∷ []
    else b'%' ∷ get_or upperhex (char / 16) 0 ∷ get_or upperhex (char % 16) 0 ∷ []

-- The loop over the bytes of the route, with the builder as its accumulator.
unfoldable pub encode_loop : Bytes → Bytes → Bytes
unfolding encode_char
encode_loop [] encoded = encoded
encode_loop (char ∷ route) encoded = encode_loop route (encoded ++ encode_char char)

unfoldable pub encode_route : Bytes → Bytes
unfolding encode_loop contains_any
encode_route route =
    if not (contains_any route reserved_route_chars) then route else encode_loop route []

unfoldable pub routed_key : Bytes → Bytes → Bytes
unfolding encode_route
routed_key type_name route = type_name ++ b'.' ∷ encode_route route

unfoldable pub check_routing_key_length : Bytes → Result (Unit {0})
check_routing_key_length key =
    if ltb max_routing_key_bytes (length key)
    then err (routing_key_too_long (length key) (take max_routing_key_bytes key))
    else ok tt

-- The two answers of `RouteOf`.
abbrev key_of_route : Bytes → Option Bytes → Result Bytes
unfolding routed_key
key_of_route type_name none = err (missing_route_by type_name)
key_of_route type_name (some route) = ok (routed_key type_name route)

unfoldable pub publish_routing_key : Message → Bytes → Result Bytes
unfolding key_of_route is_routed route_of
publish_routing_key m type_name =
    if not (is_routed m) then ok type_name else key_of_route type_name (route_of m)

-- `strings.Cut(routingKey, ".")`, of which only the part before the dot is used.
unfoldable pub type_name_of : Bytes → Bytes
type_name_of [] = []
type_name_of (c ∷ key) = let name = c ∷ type_name_of key in if c == b'.' then [] else name
