-- ===== src/Subscribe/Defs.antt =====
-- `Subscribe`, `SubscribeRoute` and what they call; rabbitmq/common.go: `exchangeOf`. The broker and
-- the cache are parameters, and the encoding of a binding (`json.Marshal` of a `handlerInfo`, which
-- leaves the handler out).
use gorabbit.Prelude.{
  Bytes, Bool, true, false, Option, none, some, [], ◌++◌, not, if◌then◌else◌, is_empty, lookup,
  insert, erase,
}
use gorabbit.Prelude.Int.{pos}
use gorabbit.Errors.{
  Error, Result, ok, err, ◌>>=◌, ◌>>◌, not_a_consumer, handler_required, nil_message,
  empty_exchange_name, empty_type_name, handler_registered,
}
use gorabbit.Message.{Message, exchange_of, is_routed}
use gorabbit.Routing.{routed_key, check_routing_key_length, all_routes_suffix}
use gorabbit.Scope.{cache_scope, handlers_map_key, handler_info_cache_key}
use gorabbit.Client.{Client, HandlerInfo}
use gorabbit.Amqp.{Delivery, Broker, History}
use gorabbit.Cache.Interface.{Cache}
use gorabbit.Connection.Channels.{bind_handler}

-- `isNil` and `exchangeOf`. A nil message is `none`.
unfoldable pub exchange_of_message : Option Message → Result Bytes
unfolding exchange_of
exchange_of_message none = err nil_message
exchange_of_message (some m) =
    let exchange = exchange_of m in
    if is_empty exchange then err (empty_exchange_name m.type_name) else ok exchange

-- A handler for deliveries, or nil.
abbrev pub Handler : Type 0
Handler = Option (Delivery → Option Error)

abbrev pub message_type_name : Option Message → Bytes
message_type_name none = []
message_type_name (some m) = m.type_name

abbrev pub is_nil : Handler → Bool
is_nil none = true
is_nil (some f) = false

-- `subscriptionOf`
unfoldable pub subscription_of : Client → Option Message → Handler → Result (Bytes × Bytes)
unfolding exchange_of_message
subscription_of c m handler =
    if not c.setup.is_consumer
    then err not_a_consumer
    else if is_nil handler
    then err handler_required
    else (do
      exchange ← exchange_of_message m
      if is_empty (message_type_name m)
          then err empty_type_name
          else ok (message_type_name m, exchange))

pub record BindingCodec : Type 0 where
  pub marshal : Bytes → Bytes → Result Bytes
  pub unmarshal : Bytes → Result (Bytes × Bytes)

abbrev pub call_of : Handler → Delivery → Option Error
call_of none d = none
call_of (some f) d = f d

module _ (K : Cache) (J : BindingCodec) (broker : Broker) where
  pub record Session : Type 0 where
    pub client : Client
    pub cache : K.Store
    pub history : History

  abbrev pub after_set : Session → K.Store × Option Error → Session × Option Error
  after_set w (k, e) = (record w { cache = k }, e)

  -- `storeHandlerInfo`
  unfoldable pub store_handler_info : HandlerInfo → Session → Session × Option Error
  unfolding handler_info_cache_key cache_scope
  store_handler_info hi w = elim (J.marshal hi.exchange hi.binding_key) [
    | err e ↦ (w, some e)
    | ok json ↦ after_set w (
        K.set (handler_info_cache_key (cache_scope w.client.setup) hi.exchange hi.binding_key) json
          (pos 0) w.cache)
  ]

  abbrev pub with_client : Session → Client → Session
  with_client w c = record w { client = c }

  abbrev pub after_bind : Session → Client × History → Session
  after_bind w (c, h) = record w { client = c; history = h }

  -- The end of `registerHandler`: on an error the handler is taken out again, else it is bound.
  unfoldable pub after_store : Bytes → HandlerInfo → Session × Option Error → Session × Option Error
  after_store key hi (w, some e) =
      (with_client w (record w.client { handlers = erase key w.client.handlers }), some e)
  after_store key hi (w, none) = (after_bind w (bind_handler broker hi w.client w.history), none)

  -- `registerHandler`
  unfoldable pub register_handler :
      Bytes → Bytes → (Delivery → Option Error) → Session → Session × Option Error
  unfolding handlers_map_key store_handler_info after_store
  register_handler exchange binding_key handler w =
      let key = handlers_map_key exchange binding_key in
      let hi : HandlerInfo = record {
        exchange = exchange;
        binding_key = binding_key;
        handler = handler;
      } in
      elim (lookup key w.client.handlers) [
        | some taken ↦ (w, some (handler_registered key))
        | none ↦ after_store key hi (
            store_handler_info hi
              (with_client w (record w.client { handlers = insert key hi w.client.handlers })))
      ]

  abbrev pub register_or_fail : Handler → Session → Result (Bytes × Bytes) → Session × Option Error
  register_or_fail handler w (err e) = (w, some e)
  register_or_fail handler w (ok (binding_key, exchange)) =
      register_handler exchange binding_key (call_of handler) w

  abbrev pub binding_of : Option Message → Bytes → Bytes
  binding_of none type_name = type_name
  binding_of (some m) type_name = if is_routed m then type_name ++ all_routes_suffix else type_name

  -- `Subscribe`
  unfoldable pub subscribe : Option Message → Handler → Session → Session × Option Error
  unfolding subscription_of register_handler
  subscribe m handler w =
      register_or_fail handler w
        (subscription_of w.client m handler >>= λ r. ok (binding_of m r.0, r.1))

  -- `SubscribeRoute`
  unfoldable pub subscribe_route :
      Option Message → Bytes → Handler → Session → Session × Option Error
  unfolding subscription_of register_handler routed_key check_routing_key_length
  subscribe_route m route handler w = register_or_fail handler w (
      subscription_of w.client m handler >>= λ r.
      (check_routing_key_length (routed_key r.0 route) >> ok (routed_key r.0 route, r.1)))
