-- ===== src/Subscribe/Delivered.antt =====
-- From a subscription to the delivery: the handler that `Subscribe` and `SubscribeRoute` register is
-- the one that `handlerFor` finds for what `Publish` sends.
use gorabbit.Prelude.{
  Bytes, Bool, true, false, Option, none, some, ◌≡◌, ◌≢◌, ◌⊎◌, inl, inr, refl, sym, ◌∙◌, Bool-cases,
  Option-cases, lookup, Lacks, is_empty, bytes_eq-false, ◌++◌, if◌then◌else◌, ◌↔◌,
}
use mathlib.Core.Bool.{false≢true}
use gorabbit.Errors.{Error, ok, err, Result-cases}
use gorabbit.Message.{Message, Marker, msg, routed_msg, is_routed, exchange_of}
use gorabbit.Scope.{handlers_map_key}
use gorabbit.Routing.{
  publish_routing_key, type_name_of, all_routes_suffix, routed_key, check_routing_key_length,
}
use gorabbit.Routing.Keys.{publish_routing_key_lem}
use gorabbit.Client.{Client, HandlerInfo}
use gorabbit.Amqp.{Delivery, Broker}
use gorabbit.Cache.Interface.{Cache}
use gorabbit.Consumer.{find_handler, handler_for, origin_exchange}
use gorabbit.Subscribe.Defs.{
  BindingCodec, Session, subscription_of, subscribe, subscribe_route, binding_of,
}
use gorabbit.Subscribe.Registered.{register_handler_lem}

missing : {o : Option HandlerInfo} {i : HandlerInfo} → o ≡ some i → o ≡ none → ⊥
missing x q = cc

ok-cancel : {a b : Bytes} → ok a ≡ ok b → a ≡ b
ok-cancel e = cc

route_key :
    (k : Marker) (n x t route : Bytes)
    → let m : Message = record { type_name = n; exchange = x; marker = k; route_by = some route } in
      is_routed m ≡ true → publish_routing_key m t ≡ ok (routed_key t route)
unfolding publish_routing_key
route_key msg n x t route r = cc
route_key routed_msg n x t route r = refl

module _ (K : Cache) (J : BindingCodec) (broker : Broker) where
  abbrev pub info : Message → Bytes → (Delivery → Option Error) → HandlerInfo
  info m key f = record { exchange = m.exchange; binding_key = key; handler = f }

  no-some : {e : Error} → ◌≢◌ {A = Option Error} (some e) none
  no-some q = cc

  -- What an accepted subscription asked for.
  accepted :
      (c : Client) (m : Message) (f : Delivery → Option Error)
      → (subscription_of c (some m) (some f) ≡ ok (m.type_name, m.exchange))
        ⊎ ((e : Error) × (subscription_of c (some m) (some f) ≡ err e))
  unfolding subscription_of exchange_of
  accepted c m f = elim (Bool-cases c.setup.is_consumer) [
    | inr e ↦ rw e (inr (_, refl))
    | inl e ↦ elim (Bool-cases (is_empty m.exchange)) [
      | inl x ↦ rw (e, x) (inr (_, refl))
      | inr x ↦ elim (Bool-cases (is_empty m.type_name)) [
        | inl n ↦ rw (e, x, n) (inr (_, refl))
        | inr n ↦ rw (e, x, n) (inl refl)
      ]
    ]
  ]

  -- A subscription that answers nil has its handler under the key of its binding.
  subscribed :
      (m : Message) (f : Delivery → Option Error) (w : Session K J broker)
      → (subscribe K J broker (some m) (some f) w).1 ≡ none
      → lookup
          (handlers_map_key m.exchange (binding_of K J broker (some m) m.type_name))
          (subscribe K J broker (some m) (some f) w).0.client.handlers
        ≡ some (info m (binding_of K J broker (some m) m.type_name) f)
  unfolding subscribe
  subscribed m f w h = elim (accepted w.client m f) [
    | inl e ↦ rw e (
        (register_handler_lem K J broker m.exchange (binding_of K J broker (some m) m.type_name) f
            w).registered
          (rw e at h))
    | inr (x, e) ↦ absurd (no-some (rw e at h))
  ]

  route_subscribed :
      (m : Message) (route : Bytes) (f : Delivery → Option Error) (w : Session K J broker)
      → (subscribe_route K J broker (some m) route (some f) w).1 ≡ none
      → lookup
          (handlers_map_key m.exchange (routed_key m.type_name route))
          (subscribe_route K J broker (some m) route (some f) w).0.client.handlers
        ≡ some (info m (routed_key m.type_name route) f)
  unfolding subscribe_route
  route_subscribed m route f w h = elim (accepted w.client m f) [
    | inr (x, e) ↦ absurd (no-some (rw e at h))
    | inl e ↦ elim (Result-cases (check_routing_key_length (routed_key m.type_name route))) [
      | inr (x, l) ↦ absurd (no-some (rw (e, l) at h))
      | inl (u, l) ↦
          rw (e, l)
            ((register_handler_lem K J broker m.exchange (routed_key m.type_name route) f
                w).registered
              (rw (e, l) at h))
    ]
  ]

  found :
      (exchange key : Bytes) (c : Client) (hi : HandlerInfo)
      → lookup (handlers_map_key exchange key) c.handlers ≡ some hi
      → find_handler exchange key c.handlers ≡ some hi
  unfolding find_handler
  found exchange key c hi e = rw (e, find_handler) refl

  found_all :
      (exchange key t : Bytes) (c : Client) (hi : HandlerInfo)
      → type_name_of key ≡ t
      → t ≢ key
      → lookup (handlers_map_key exchange (t ++ all_routes_suffix)) c.handlers ≡ some hi
      → lookup (handlers_map_key exchange key) c.handlers ≡ none
      → find_handler exchange key c.handlers ≡ some hi
  unfolding find_handler
  found_all exchange key t c hi e n a x = rw (x, find_handler, e, bytes_eq-false t key n) a

  -- The binding of a plain type is its name, that of a routed one takes all its routes.
  dispatched :
      (routed : Bool) (exchange key t : Bytes) (c : Client) (hi : HandlerInfo)
      → type_name_of key ≡ t
      → ((routed ≡ false) ↔ (key ≡ t))
      → lookup (handlers_map_key exchange (if routed then t ++ all_routes_suffix else t)) c.handlers
        ≡ some hi
      → (find_handler exchange key c.handlers ≡ some hi)
        ⊎ ((routed ≡ true)
            × (lookup (handlers_map_key exchange key) c.handlers ≢ none)
            × (find_handler exchange key c.handlers
                ≡ lookup (handlers_map_key exchange key) c.handlers))
  dispatched false exchange key t c hi n p h = inl (found exchange key c hi (rw (p.0 refl) h))
  dispatched true exchange key t c hi n p h =
      elim (Option-cases (lookup (handlers_map_key exchange key) c.handlers)) [
        | inl x ↦
            inl (found_all exchange key t c hi n (λ q. absurd (false≢true (sym (p.1 (sym q))))) h x)
        | inr (info, x) ↦
            inr (refl, (λ q. absurd (missing x q)), found exchange key c info x ∙ sym x)
      ]

  -- A delivery of a message as `Publish` sends it: on the message's exchange, which is not the
  -- queue's, under the key that the publisher made.
  pub record IsSentAs (m : Message) (c : Client) (d : Delivery) : Type 0 where
    pub exchange : d.exchange ≡ m.exchange
    pub away : m.exchange ≢ c.setup.queue_name
    pub key : publish_routing_key m m.type_name ≡ ok d.routing_key

  looked_up :
      (m : Message) (c : Client) (d : Delivery)
      → IsSentAs m c d
      → handler_for c d ≡ find_handler m.exchange d.routing_key c.handlers
  unfolding handler_for origin_exchange
  looked_up m c d s = rw (s.exchange, bytes_eq-false m.exchange c.setup.queue_name s.away) refl

  -- Where the type name has no dot, after a `Subscribe` that answers nil: a delivery of a message of
  -- that type, whatever its route, goes to the handler that was subscribed, or, if the type is
  -- routed and a handler is registered for the key itself, to that one.
  pub subscribe_lem :
      (sub : Message) (route : Option Bytes) (f : Delivery → Option Error) (w : Session K J broker)
      (d : Delivery)
      → Lacks b'.' sub.type_name
      → (subscribe K J broker (some sub) (some f) w).1 ≡ none
      → let c = (subscribe K J broker (some sub) (some f) w).0.client in
        let exact = lookup (handlers_map_key sub.exchange d.routing_key) c.handlers in
        IsSentAs (record sub { route_by = route }) c d
        → (handler_for c d ≡ some (info sub (binding_of K J broker (some sub) sub.type_name) f))
          ⊎ ((is_routed sub ≡ true) × (exact ≢ none) × (handler_for c d ≡ exact))
  unfolding is_routed
  subscribe_lem sub route f w d n e s =
      let m : Message = record sub { route_by = route } in
      let c = (subscribe K J broker (some sub) (some f) w).0.client in
      let (t, p) = publish_routing_key_lem m m.type_name n s.key in
      let held = subscribed sub f w e in
      rw (looked_up m c d s)
        (dispatched (is_routed sub) sub.exchange d.routing_key sub.type_name c _ t p held)

  -- The same for `SubscribeRoute`: a delivery of a message of that type with that route goes to the
  -- handler that was subscribed.
  pub subscribe_route_lem :
      (sub : Message) (route : Bytes) (f : Delivery → Option Error) (w : Session K J broker)
      (d : Delivery)
      → is_routed sub ≡ true
      → (subscribe_route K J broker (some sub) route (some f) w).1 ≡ none
      → let c = (subscribe_route K J broker (some sub) route (some f) w).0.client in
        IsSentAs (record sub { route_by = some route }) c d
        → handler_for c d ≡ some (info sub (routed_key sub.type_name route) f)
  unfolding is_routed
  subscribe_route_lem sub route f w d r e s =
      let m : Message = record sub { route_by = some route } in
      let c = (subscribe_route K J broker (some sub) route (some f) w).0.client in
      rw (looked_up m c d s) (
        found sub.exchange d.routing_key c _ (
          rw
            (ok-cancel
              (sym s.key ∙ route_key sub.marker sub.type_name sub.exchange sub.type_name route r))
            (route_subscribed sub route f w e)))
