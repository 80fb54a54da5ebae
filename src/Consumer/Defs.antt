-- ===== src/Consumer/Defs.antt =====
-- The consumer's side of a delivery, as the code runs it for one message: the handler, and then an
-- ack, a nack without requeue, or a copy on the retry exchange and an ack.
use gorabbit.Prelude.{
  ℕ, suc, Bytes, Bool, true, ◌&&◌, Option, none, some, [], ◌++◌, codes, if◌then◌else◌, is_empty,
  lookup, insert, bytes_eq, ◌==◌, Assoc,
}
use gorabbit.Prelude.Int.{ℤ, pos, negsuc, ltb_ℤ}
use gorabbit.Errors.{Error, Result, ok, err, panic_recovered}
use gorabbit.Setup.{Setup}
use gorabbit.Routing.{type_name_of, all_routes_suffix}
use gorabbit.Scope.{handlers_map_key}
use gorabbit.Client.{Client, HandlerInfo}
use gorabbit.Amqp.{
  HeaderValue, int_value, int32_value, int64_value, text_value, other_value, Table, Publishing,
  Delivery,
}
use gorabbit.Wire.{Wire}
use gorabbit.Publisher.{publish_confirmed}

abbrev pub retry_count_header_key : Bytes
retry_count_header_key = codes "x-retry-count"

abbrev pub origin_exchange_header_key : Bytes
origin_exchange_header_key = codes "x-origin-exchange"

-- A read of a table that may be nil.
abbrev pub header : Bytes → Option Table → Option HeaderValue
header k none = none
header k (some t) = lookup k t

-- The type assertion to a string, where it is not the empty one.
abbrev pub non_empty_text : Option HeaderValue → Option Bytes
non_empty_text (some (text_value b)) = if is_empty b then none else some b
non_empty_text _ = none

-- The origin that the headers carry.
unfoldable pub origin_of : Option Table → Option Bytes
origin_of headers = non_empty_text (header origin_exchange_header_key headers)

abbrev pub text_or : Bytes → Option Bytes → Bytes
text_or other none = other
text_or other (some b) = b

-- The exchange by which `handlerFor` looks a delivery up.
unfoldable pub origin_exchange : Setup → Delivery → Bytes
unfolding origin_of
origin_exchange s d =
    if bytes_eq d.exchange s.queue_name
    then text_or d.exchange (origin_of d.headers)
    else d.exchange

-- `handlerFor`, once the exchange is known: the handler of the key, else the one that takes all
-- routes of its type.
unfoldable pub find_handler : Bytes → Bytes → Assoc HandlerInfo → Option HandlerInfo
unfolding handlers_map_key type_name_of
find_handler exchange routing_key handlers =
    elim (lookup (handlers_map_key exchange routing_key) handlers) [
      | some info ↦ some info
      | none ↦
          let type_name = type_name_of routing_key in
          if bytes_eq type_name routing_key
          then none
          else lookup (handlers_map_key exchange (type_name ++ all_routes_suffix)) handlers
    ]

-- `handlerFor`
unfoldable pub handler_for : Client → Delivery → Option HandlerInfo
unfolding origin_exchange find_handler
handler_for c d = find_handler (origin_exchange c.setup d) d.routing_key c.handlers

-- How a handler ends: it returns, or it panics.
pub data HandlerEnd : Type 0 where
  returns : Option Error → HandlerEnd
  panics : HandlerEnd

abbrev recovered : HandlerEnd → Option Error
recovered (returns e) = e
recovered panics = some panic_recovered

-- `handleMessageSafely`; `unmarshal` is `json.Unmarshal` into the handler's type.
unfoldable pub handle_message_safely {ℓ} :
    {T : Type ℓ} → (Bytes → Result T) → (T → HandlerEnd) → Delivery → Option Error
handle_message_safely unmarshal handler d = elim (unmarshal d.body) [
  | err e ↦ some e
  | ok payload ↦ recovered (handler payload)
]

-- `retryCount`
unfoldable pub retry_count : Delivery → ℤ
retry_count d = elim (header retry_count_header_key d.headers) [
  | none ↦ pos 0
  | some (int_value v) ↦ v
  | some (int32_value v) ↦ v
  | some (int64_value v) ↦ v
  | some (text_value b) ↦ pos 0
  | some (other_value n) ↦ pos 0
]

-- One more, in 64 bits.
unfoldable pub next_int : ℤ → ℤ
next_int (pos n) = if n == 9_223_372_036_854_775_807 then negsuc n else pos (suc n)
next_int (negsuc ℕ.zero) = pos 0
next_int (negsuc (suc n)) = negsuc n

abbrev pub table_of : Option Table → Table
table_of none = []
table_of (some t) = t

-- `stampOriginExchange`, of the table that it writes to.
unfoldable pub stamp_origin_exchange : Setup → Bytes → Table → Table
unfolding origin_of
stamp_origin_exchange s exchange t =
    if bytes_eq exchange s.queue_name then t else elim (origin_of (some t)) [
      | some origin ↦ t
      | none ↦ insert origin_exchange_header_key (text_value exchange) t
    ]

unfoldable pub next_count : Delivery → ℤ
unfolding retry_count next_int
next_count d = next_int (retry_count d)

-- The headers of the copy.
unfoldable pub retry_headers : Setup → Delivery → Table
unfolding stamp_origin_exchange next_count
retry_headers s d =
    stamp_origin_exchange s d.exchange
      (insert retry_count_header_key (int_value (next_count d)) (table_of d.headers))

-- The message that `republishMessage` makes of a delivery.
unfoldable pub retry_copy : Delivery → Publishing
retry_copy d = record {
  content_type = d.content_type;
  content_encoding = d.content_encoding;
  message_type = d.message_type;
  body = d.body;
  headers = d.headers;
  persistent = true;
  priority = d.priority;
  correlation_id = d.correlation_id;
  reply_to = d.reply_to;
  message_id = d.message_id;
  user_id = d.user_id;
  app_id = d.app_id;
  expiration = d.expiration;
}

-- Whether the setup has a failed message tried again.
unfoldable pub should_retry : Setup → Error → Bool
should_retry s e =
    s.with_retry && elim s.retryable_error_func [ none ↦ true | some retryable ↦ retryable e ]

-- `Ack(false)` and `Nack(false, false)`.
pub data Settlement : Type 0 where
  acked dead_lettered : Settlement

module _ (W : Wire) (settle : Settlement → Option Error) where
  -- The client, the other side, what the delivery was answered with, and the error.
  pub record Outcome : Type 0 where
    pub client : Client
    pub wire : W.State
    pub settled : Option Settlement
    pub error : Option Error

  -- The answer to the delivery, on whose error the function ends.
  abbrev pub end_with : Settlement → Client → W.State → Outcome
  end_with a c s = record { client = c; wire = s; settled = some a; error = settle a }

  -- `republishMessage`
  unfoldable pub republish_message :
      Bytes → Bytes → Delivery → Client → W.State → Client × W.State × Option Error
  unfolding publish_confirmed retry_copy
  republish_message exchange routing_key d = publish_confirmed W exchange routing_key (retry_copy d)

  abbrev pub after_republish : Client × W.State × Option Error → Outcome
  after_republish (c, s, some e) = record { client = c; wire = s; settled = none; error = some e }
  after_republish (c, s, none) = end_with acked c s

  -- `republishMessageToRetryExchange`
  unfoldable pub republish_message_to_retry_exchange : Delivery → Client → W.State → Outcome
  unfolding next_count retry_headers republish_message
  republish_message_to_retry_exchange d c s =
      if ltb_ℤ c.setup.retry_count (next_count d)
      then end_with dead_lettered c s
      else after_republish (
          republish_message c.setup.retry_name d.routing_key
            (record d { headers = some (retry_headers c.setup d) }) c s)

  abbrev pub after_handler : Delivery → Client → W.State → Option Error → Outcome
  after_handler d c s none = end_with acked c s
  after_handler d c s (some e) =
      if should_retry c.setup e
      then republish_message_to_retry_exchange d c s
      else end_with dead_lettered c s

  -- `processMessage`
  unfoldable pub process_message : Delivery → Client → W.State → Outcome
  unfolding handler_for should_retry republish_message_to_retry_exchange
  process_message d c s = elim (handler_for c d) [
    | none ↦ end_with dead_lettered c s
    | some info ↦ after_handler d c s (info.handler d)
  ]
