-- ===== src/Routing/Keys.antt =====
-- Routing keys: the type name that opens one, the publisher's and the binding's keys, the length.
use gorabbit.Prelude.{
  ℕ, ◌+◌, ◌*◌, ◌≤◌, ◌<◌, Bytes, false, Option, none, some, [], ◌∷◌, ◌++◌, length, arith, ◌≡◌, ◌≢◌,
  refl, sym, ap, ◌∙◌, Lacks, length-append, ◌↔◌, take,
}
use gorabbit.Errors.{routing_key_too_long, ok, err}
use gorabbit.Message.{Marker, Message, msg, routed_msg, is_routed}
use gorabbit.Routing.Defs.{
  max_routing_key_bytes, encode_route, routed_key, check_routing_key_length, publish_routing_key,
  type_name_of,
}
use gorabbit.Routing.Encoding.{encode_route-injective, length-encode_route}

type_name_of-append : (t s : Bytes) → Lacks b'.' t → type_name_of (t ++ b'.' ∷ s) ≡ t
unfolding type_name_of
type_name_of-append [] s h = refl
type_name_of-append (c ∷ t) s h = ground (arith, type_name_of-append t s)

type_name_of-plain : (t : Bytes) → Lacks b'.' t → type_name_of t ≡ t
unfolding type_name_of
type_name_of-plain [] h = refl
type_name_of-plain (c ∷ t) h = ground (arith, type_name_of-plain t)

-- A Go type name has no dot, so the part of a routing key before its first dot is the type name
-- of the message, for a plain and for a routed message.
pub type_name_of-routed_key :
    (t r : Bytes) → Lacks b'.' t → (type_name_of (routed_key t r) ≡ t) × (type_name_of t ≡ t)
unfolding routed_key
type_name_of-routed_key t r h = (type_name_of-append t (encode_route r) h, type_name_of-plain t h)

cons-cancel : {c : ℕ} {s u : Bytes} → c ∷ s ≡ c ∷ u → s ≡ u
cons-cancel e = cc

append-cancel : (t s u : Bytes) → t ++ s ≡ t ++ u → s ≡ u
append-cancel [] s u e = e
append-cancel (c ∷ t) s u e = append-cancel t s u (cc)

-- Two routed messages, of type names without a dot, share a routing key only if they share the type
-- name and the route.
pub routed_key-injective :
    (t u r s : Bytes)
    → Lacks b'.' t
    → Lacks b'.' u
    → routed_key t r ≡ routed_key u s
    → (t ≡ u) × (r ≡ s)
unfolding routed_key
routed_key-injective t u r s ht hu e =
    let same : t ≡ u =
      sym ((type_name_of-routed_key t r ht).0)
      ∙ ap type_name_of e
      ∙ (type_name_of-routed_key u s hu).0 in
    let tails : t ++ b'.' ∷ encode_route r ≡ t ++ b'.' ∷ encode_route s =
      e ∙ ap (λ x. x ++ b'.' ∷ encode_route s) (sym same) in
    (same, encode_route-injective r s (cons-cancel (append-cancel t _ _ tails)))

routed_key-ne : (t r : Bytes) → routed_key t r ≢ t
unfolding routed_key
routed_key-ne t r e = omega (arith, ap length e, length-append t (b'.' ∷ encode_route r))

ok-cancel : {a b : Bytes} → ok a ≡ ok b → a ≡ b
ok-cancel e = cc

publish_routing_key_cases :
    (k : Marker) (r : Option Bytes) (n x t : Bytes) {key : Bytes}
    → let m : Message = record { type_name = n; exchange = x; marker = k; route_by = r } in
      Lacks b'.' t
      → publish_routing_key m t ≡ ok key
      → (type_name_of key ≡ t) × ((is_routed m ≡ false) ↔ (key ≡ t))
unfolding publish_routing_key
publish_routing_key_cases msg r n x t {key} h e =
    rw (← ok-cancel e) (type_name_of-plain t h, (λ _. refl, λ _. refl))
publish_routing_key_cases routed_msg none n x t h e = cc
publish_routing_key_cases routed_msg (some r) n x t {key} h e =
    rw (← ok-cancel e)
      (type_name_of-append t (encode_route r) h, (λ b. cc, λ q. absurd (routed_key-ne t r q)))

-- Where the type name has no dot, the part of a message's routing key before its first dot is the
-- type name, so a consumer reads the type off the key; the key is the type name itself exactly for
-- a message without the routed marker.
pub publish_routing_key_lem :
    (m : Message) (t : Bytes) {key : Bytes}
    → Lacks b'.' t
    → publish_routing_key m t ≡ ok key
    → (type_name_of key ≡ t) × ((is_routed m ≡ false) ↔ (key ≡ t))
unfolding publish_routing_key
publish_routing_key_lem m t h e =
    publish_routing_key_cases m.marker m.route_by m.type_name m.exchange t h e

-- A key is accepted exactly when it has at most 255 bytes. The key of a routed message does
-- whenever the type name, the dot and three times the route do; a refusal names the length and the
-- first 255 bytes.
pub check_routing_key_length_lem :
    (t route : Bytes)
    → ((check_routing_key_length t ≡ ok tt) ↔ (length t ≤ max_routing_key_bytes))
      × (max_routing_key_bytes < length t
          → check_routing_key_length t
            ≡ err (routing_key_too_long (length t) (take max_routing_key_bytes t)))
      × (length t + 1 + 3 * length route ≤ max_routing_key_bytes
          → check_routing_key_length (routed_key t route) ≡ ok tt)
unfolding check_routing_key_length routed_key
check_routing_key_length_lem t route = (
  ground arith,
  λ h. ground arith,
  λ h. ground (arith, length-append t (b'.' ∷ encode_route route), length-encode_route route),
)
