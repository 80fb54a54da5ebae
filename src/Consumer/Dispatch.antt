-- ===== src/Consumer/Dispatch.antt =====
-- Which handler gets a delivery, at first and when its copy comes back.
use gorabbit.Prelude.{
  Bytes, true, false, Option, none, some, [], ◌∷◌, ◌++◌, ◌≡◌, ◌≢◌, ◌⊎◌, inl, inr, refl, arith, ap,
  ◌∙◌, Bool-cases, Option-cases, is_empty, lookup, insert, lookup-insert_self, lookup-insert_ne,
  bytes_eq, bytes_eq_iff, bytes_eq_refl, Lacks, Assoc,
}
use gorabbit.Setup.{Setup}
use gorabbit.Scope.{handlers_map_key}
use gorabbit.Routing.{routed_key, all_routes_suffix, encode_route}
use gorabbit.Routing.Keys.{type_name_of-routed_key}
use gorabbit.Client.{Client, HandlerInfo}
use gorabbit.Amqp.{HeaderValue, int_value, text_value, Table, Delivery}
use gorabbit.Consumer.Defs.{
  handler_for, find_handler, origin_exchange, origin_of, retry_headers, retry_count, next_count,
  stamp_origin_exchange, retry_count_header_key, origin_exchange_header_key, table_of, next_int,
}

count_key-ne : retry_count_header_key ≢ origin_exchange_header_key
count_key-ne e = ground arith

key-ne : origin_exchange_header_key ≢ retry_count_header_key
key-ne e = ground arith

-- A counted table has the origin that it had.
origin_of-counted :
    (h : Option Table) (v : HeaderValue)
    → origin_of (some (insert retry_count_header_key v (table_of h))) ≡ origin_of h
unfolding origin_of lookup
origin_of-counted none v =
    rw (lookup-insert_ne retry_count_header_key origin_exchange_header_key v [] count_key-ne) refl
origin_of-counted (some t) v =
    rw (lookup-insert_ne retry_count_header_key origin_exchange_header_key v t count_key-ne) refl

-- The delivery came from the consumer's own exchange, or its headers name no other origin than the
-- exchange that it came from.
abbrev pub HasTrueOrigin : Setup → Delivery → Type 0
HasTrueOrigin s d =
    (is_empty d.exchange ≡ false)
    × ((bytes_eq d.exchange s.queue_name ≡ true)
        ⊎ (origin_of d.headers ≡ none)
        ⊎ (origin_of d.headers ≡ some d.exchange))

-- The copy as it comes back from the retry queue, which dead-letters to the exchange of the
-- consumer under the key that the copy had.
abbrev pub returning : Setup → Delivery → Delivery
returning s d = record d { exchange = s.queue_name; headers = some (retry_headers s d) }

-- The headers of the copy after the count, by what the delivery carried.
module _ (s : Setup) (d : Delivery) where
  abbrev counted_table : Table
  counted_table = insert retry_count_header_key (int_value (next_count d)) (table_of d.headers)

  headers_home : bytes_eq d.exchange s.queue_name ≡ true → retry_headers s d ≡ counted_table
  unfolding retry_headers stamp_origin_exchange
  headers_home e = rw e refl

  headers_unstamped :
      bytes_eq d.exchange s.queue_name ≡ false
      → origin_of d.headers ≡ none
      → retry_headers s d ≡ insert origin_exchange_header_key (text_value d.exchange) counted_table
  unfolding retry_headers stamp_origin_exchange
  headers_unstamped e o =
      let counted : origin_of (some counted_table) ≡ none =
        origin_of-counted d.headers (int_value (next_count d)) ∙ o in
      rw (e, counted, stamp_origin_exchange) refl

  headers_stamped :
      bytes_eq d.exchange s.queue_name ≡ false
      → origin_of d.headers ≡ some d.exchange
      → retry_headers s d ≡ counted_table
  unfolding retry_headers stamp_origin_exchange
  headers_stamped e o =
      let counted : origin_of (some counted_table) ≡ some d.exchange =
        origin_of-counted d.headers (int_value (next_count d)) ∙ o in
      rw (e, counted, stamp_origin_exchange) refl

  stamped-origin :
      (t : Table)
      → is_empty d.exchange ≡ false
      → origin_of (some (insert origin_exchange_header_key (text_value d.exchange) t))
        ≡ some d.exchange
  unfolding origin_of
  stamped-origin t e =
      rw (lookup-insert_self origin_exchange_header_key (text_value d.exchange) t, e) refl

  -- By the origin of its headers, the copy is looked up as the delivery was.
  returning-home :
      bytes_eq d.exchange s.queue_name ≡ true
      → origin_exchange s (returning s d) ≡ origin_exchange s d
  unfolding origin_exchange
  returning-home e =
      let o : origin_of (some (retry_headers s d)) ≡ origin_of d.headers =
        ap (λ t. origin_of (some t)) (headers_home e)
        ∙ origin_of-counted d.headers (int_value (next_count d)) in
      rw (bytes_eq_refl s.queue_name, o, e, (bytes_eq_iff d.exchange s.queue_name).0 e) refl

  returning-away :
      bytes_eq d.exchange s.queue_name ≡ false
      → origin_of (some (retry_headers s d)) ≡ some d.exchange
      → origin_exchange s (returning s d) ≡ origin_exchange s d
  unfolding origin_exchange
  returning-away e o = rw (bytes_eq_refl s.queue_name, o, e, origin_exchange) refl

  returning-origin : HasTrueOrigin s d → origin_exchange s (returning s d) ≡ origin_exchange s d
  returning-origin (n, h) = elim (Bool-cases (bytes_eq d.exchange s.queue_name)) [
    | inl e ↦ returning-home e
    | inr e ↦ elim h [
      | inl q ↦ returning-home q
      | inr (inl o) ↦
          returning-away e
            (ap (λ t. origin_of (some t)) (headers_unstamped e o) ∙ stamped-origin counted_table n)
      | inr (inr o) ↦ returning-away e (
          ap (λ t. origin_of (some t)) (headers_stamped e o)
          ∙ origin_of-counted d.headers (int_value (next_count d))
          ∙ o)
    ]
  ]

  stamped-count :
      (t : Table)
      → lookup retry_count_header_key (stamp_origin_exchange s d.exchange t)
        ≡ lookup retry_count_header_key t
  unfolding stamp_origin_exchange
  stamped-count t = elim (Bool-cases (bytes_eq d.exchange s.queue_name)) [
    | inl e ↦ rw e refl
    | inr e ↦ elim (Option-cases (origin_of (some t))) [
      | inl o ↦
          rw (e, o, stamp_origin_exchange)
            (lookup-insert_ne origin_exchange_header_key retry_count_header_key
              (text_value d.exchange) t key-ne)
      | inr (x, o) ↦ rw (e, o, stamp_origin_exchange) refl
    ]
  ]

  counted-lookup :
      lookup retry_count_header_key (retry_headers s d) ≡ some (int_value (next_count d))
  unfolding retry_headers
  counted-lookup =
      stamped-count counted_table
      ∙ lookup-insert_self retry_count_header_key (int_value (next_count d)) (table_of d.headers)

  returning-count : retry_count (returning s d) ≡ next_count d
  unfolding retry_count
  returning-count = rw (counted-lookup, retry_count) refl

-- A copy that comes back from the retry queue reaches the handler that the delivery had, although
-- it arrives from the consumer's own exchange, and it is counted once more. The delivery has an
-- exchange, and came from the consumer's own exchange or names no other exchange as its origin.
pub returning_lem :
    (c : Client) (d : Delivery)
    → HasTrueOrigin c.setup d
    → (handler_for c (returning c.setup d) ≡ handler_for c d)
      × (retry_count (returning c.setup d) ≡ next_int (retry_count d))
unfolding handler_for next_count
returning_lem c d h = (
  ap (λ exchange. find_handler exchange d.routing_key c.handlers) (returning-origin c.setup d h),
  returning-count c.setup d,
)

pub or_else : Option HandlerInfo → Option HandlerInfo → Option HandlerInfo
or_else none other = other
or_else (some info) other = some info

longer : (t s : Bytes) → bytes_eq t (t ++ b'.' ∷ s) ≡ false
unfolding bytes_eq
longer [] s = refl
longer (c ∷ t) s = ground (arith, longer t s)

-- Where the type name has no dot: a delivery of a routed message goes to the handler of its own
-- route if there is one, else to the handler that takes all routes of the type; a delivery of a
-- plain message goes to the handler of its type, and to none that takes routes.
pub find_handler_lem :
    (exchange t route : Bytes) (handlers : Assoc HandlerInfo)
    → Lacks b'.' t
    → (find_handler exchange (routed_key t route) handlers
        ≡ or_else
            (lookup (handlers_map_key exchange (routed_key t route)) handlers)
            (lookup (handlers_map_key exchange (t ++ all_routes_suffix)) handlers))
      × (find_handler exchange t handlers ≡ lookup (handlers_map_key exchange t) handlers)
unfolding find_handler or_else routed_key
find_handler_lem exchange t route handlers h =
    let (routed, plain) = type_name_of-routed_key t route h in
    (
      elim (Option-cases (lookup (handlers_map_key exchange (routed_key t route)) handlers)) [
        | inl e ↦ rw (e, find_handler, or_else, routed, differs) refl
        | inr (i, e) ↦ rw (e, find_handler, or_else) refl
      ],
      elim (Option-cases (lookup (handlers_map_key exchange t) handlers)) [
        | inl e ↦ rw (e, find_handler, plain, bytes_eq_refl t) refl
        | inr (i, e) ↦ rw (e, find_handler) refl
      ],
    )
  where
    differs : bytes_eq t (routed_key t route) ≡ false
    differs = longer t (encode_route route)
