-- ===== src/Publisher/Defs.antt =====
-- rabbitmq/publisher.go: the message that is published, and one publish with its confirm.
use gorabbit.Prelude.{
  Bytes, Bool, true, false, Option, none, some, [], ◌∷◌, not, codes, if◌then◌else◌, is_empty,
  insert,
}
use gorabbit.Errors.{
  Error, Result, ok, err, ◌>>=◌, ◌>>◌, nil_message, empty_type_name, not_confirmed, unroutable,
  amqp,
}
use gorabbit.Message.{Message}
use gorabbit.Routing.{publish_routing_key, check_routing_key_length}
use gorabbit.Client.{Client}
use gorabbit.Amqp.{Table, Publishing}
use gorabbit.Returns.{was_returned, run}
use gorabbit.Wire.{Wire, Attempt}
use gorabbit.Connection.{set_connected}
use gorabbit.Connection.Channels.{publish_channel}

pub record PublishMessage : Type 0 where
  pub msg_id : Bytes
  pub msg_type_name : Bytes
  pub routing_key : Bytes
  pub msg_body : Bytes
  pub msg_headers : Option Table

-- rabbitmq/common.go
pub record CachedMessage : Type 0 where
  pub msg_id : Bytes
  pub msg_type_name : Bytes
  pub routing_key : Bytes
  pub message : Bytes
  pub msg_headers : Option Table

unfoldable pub to_cache_message : PublishMessage → CachedMessage
to_cache_message pm = record {
  msg_id = pm.msg_id;
  msg_type_name = pm.msg_type_name;
  routing_key = pm.routing_key;
  message = pm.msg_body;
  msg_headers = pm.msg_headers;
}

unfoldable pub from_cache_message : CachedMessage → PublishMessage
from_cache_message cm = record {
  msg_id = cm.msg_id;
  msg_type_name = cm.msg_type_name;
  routing_key = cm.routing_key;
  msg_body = cm.message;
  msg_headers = cm.msg_headers;
}

-- `maps.Copy(dst, src)`
unfoldable pub copy_headers : Table → Table → Table
copy_headers dst [] = dst
copy_headers dst ((k, v) ∷ src) = copy_headers (insert k v dst) src

abbrev pub non_nil : Option Message → Result Message
non_nil none = err nil_message
non_nil (some m) = ok m

abbrev pub named : Message → Result Bytes
named m = if is_empty m.type_name then err empty_type_name else ok m.type_name

-- `getPublishMessage`. A nil message is `none`. `marshal` is `json.Marshal`, `ambient` what the
-- header carrier takes from the context, `new_id` the fresh UUIDv7.
unfoldable pub get_publish_message :
    (Message → Result Bytes) → Table → Bytes → Option Message → Result PublishMessage
unfolding publish_routing_key check_routing_key_length copy_headers
get_publish_message marshal ambient new_id m = do
  msg ← non_nil m
  type_name ← named msg
  routing_key ← publish_routing_key msg type_name
  check_routing_key_length routing_key
  body ← marshal msg
  ok (record {
    msg_id = new_id;
    msg_type_name = type_name;
    routing_key = routing_key;
    msg_body = body;
    msg_headers = some (copy_headers [] ambient);
  })

-- The answer of `publishConfirmed` once the message was handed to the channel, and whether the
-- connection is dropped for it.
unfoldable pub confirm_answer : Bytes → Attempt → Bool × Option Error
confirm_answer msg_id a = elim a.publish_err [
  | some e ↦ (not a.ctx_over, some (amqp e))
  | none ↦
      if not a.has_confirmation
      then (false, some not_confirmed)
      else if (was_returned msg_id (run a.events)).1
      then (false, some unroutable)
      else elim a.wait_err [
        | some e ↦ (false, some e)
        | none ↦ (false, if not a.acked then some not_confirmed else none)
      ]
]

module _ (W : Wire) where
  -- What `publishConfirmed` leaves: the client, the other side, and its error.
  abbrev pub Published : Type 0
  Published = Client × W.State × Option Error

  abbrev after_attempt : Bytes → Client → W.State × Attempt → Published
  after_attempt msg_id c (s, a) =
      let (drop, e) = confirm_answer msg_id a in (if drop then set_connected false c else c, s, e)

  -- `publishConfirmed`
  unfoldable pub publish_confirmed : Bytes → Bytes → Publishing → Client → W.State → Published
  unfolding publish_channel confirm_answer set_connected
  publish_confirmed exchange routing_key msg c s = elim (publish_channel (W.is_closed s) c) [
    | err e ↦ (c, s, some e)
    | ok channel ↦ after_attempt msg.message_id c (W.publish exchange routing_key msg s)
  ]

  -- The message as `publish` sends it.
  abbrev pub publishing_of : PublishMessage → Publishing
  publishing_of pm = record {
    content_type = codes "application/json";
    content_encoding = [];
    message_type = pm.msg_type_name;
    body = pm.msg_body;
    headers = pm.msg_headers;
    persistent = true;
    priority = 0;
    correlation_id = [];
    reply_to = [];
    message_id = pm.msg_id;
    user_id = [];
    app_id = [];
    expiration = [];
  }

  -- `publish`
  unfoldable pub publish : PublishMessage → Client → W.State → Published
  unfolding publish_confirmed
  publish pm c = publish_confirmed c.setup.exchange_name pm.routing_key (publishing_of pm) c
