-- ===== src/Subscribe/Registered.antt =====
-- What a registration does to the handlers of a client.
use gorabbit.Prelude.{
  Bytes, true, Option, none, some, ◌≡◌, ◌≢◌, refl, sym, ◌∙◌, ap, Option-cases, inl, inr, Bool-cases,
  lookup, insert, erase, lookup-insert_self, lookup-insert_ne, lookup-erase_self, lookup-erase_ne,
  not, ◌||◌,
}
use gorabbit.Errors.{Error, Result, ok, err, Result-cases, handler_registered}
use gorabbit.Scope.{handlers_map_key}
use gorabbit.Client.{Client, HandlerInfo}
use gorabbit.Amqp.{Delivery, Broker, History}
use gorabbit.Cache.Interface.{Cache}
use gorabbit.Connection.{is_set}
use gorabbit.Connection.Channels.{bind_handler, after_bind}
use gorabbit.Topology.{bind_queue_to_exchange}
use gorabbit.Subscribe.Defs.{
  BindingCodec, Session, register_handler, store_handler_info, after_store, with_client,
}

after_bind-handlers :
    (c : Client) (r : History × Result (Unit {0})) → (after_bind c r).0.handlers ≡ c.handlers
after_bind-handlers c (h, ok a) = refl
after_bind-handlers c (h, err e) = refl

bind_handler-handlers :
    (b : Broker) (hi : HandlerInfo) (c : Client) (h : History)
    → (bind_handler b hi c h).0.handlers ≡ c.handlers
unfolding bind_handler
bind_handler-handlers b hi c h = elim (Bool-cases (not c.is_connected || not (is_set c.ch))) [
  | inl e ↦ rw e refl
  | inr e ↦ rw e (
      after_bind-handlers c
        (bind_queue_to_exchange hi.exchange hi.binding_key c.setup.queue_name true b h))
]

module _ (K : Cache) (J : BindingCodec) (broker : Broker) where
  store_handler_info-client :
      (hi : HandlerInfo) (w : Session K J broker)
      → (store_handler_info K J broker hi w).0.client ≡ w.client
  unfolding store_handler_info
  store_handler_info-client hi w = elim (Result-cases (J.marshal hi.exchange hi.binding_key)) [
    | inl (a, e) ↦ rw (e, store_handler_info) refl
    | inr (x, e) ↦ rw (e, store_handler_info) refl
  ]

  -- The handlers hold the new one under its key if the answer is nil, and are what they were else.
  pub record IsRegistered (key : Bytes) (hi : HandlerInfo) (w : Session K J broker)
      (r : Session K J broker × Option Error) : Type 0 where
    pub registered : r.1 ≡ none → lookup key r.0.client.handlers ≡ some hi
    pub other : (j : Bytes) → key ≢ j → lookup j r.0.client.handlers ≡ lookup j w.client.handlers
    pub failed : r.1 ≢ none → lookup key r.0.client.handlers ≡ lookup key w.client.handlers
    pub taken :
        lookup key w.client.handlers ≢ none → (r.0 ≡ w) × (r.1 ≡ some (handler_registered key))

  after_store-IsRegistered :
      (key : Bytes) (hi : HandlerInfo) (w : Session K J broker)
      (r : Session K J broker × Option Error)
      → lookup key w.client.handlers ≡ none
      → r.0.client.handlers ≡ insert key hi w.client.handlers
      → IsRegistered key hi w (after_store K J broker key hi r)
  unfolding after_store
  after_store-IsRegistered key hi w (v, some x) n e = record {
    registered = λ q. cc;
    other = λ j k.
        ap (λ m. lookup j (erase key m)) e
        ∙ lookup-erase_ne key j (insert key hi w.client.handlers) k
        ∙ lookup-insert_ne key j hi w.client.handlers k;
    failed = λ q. lookup-erase_self key v.client.handlers ∙ sym n;
    taken = λ q. absurd (q n);
  }
  after_store-IsRegistered key hi w (v, none) n e =
      let bound = bind_handler-handlers broker hi v.client v.history ∙ e in
      record {
        registered = λ q. ap (lookup key) bound ∙ lookup-insert_self key hi w.client.handlers;
        other = λ j k. ap (lookup j) bound ∙ lookup-insert_ne key j hi w.client.handlers k;
        failed = λ q. absurd (q refl);
        taken = λ q. absurd (q n);
      }

  -- A registration that answers nil leaves the handler under the key of its binding, whatever the
  -- bind went like; one that fails leaves the handlers as they were. Handlers of other bindings are
  -- not touched. A binding that has a handler is refused, and nothing changes.
  pub register_handler_lem :
      (exchange binding_key : Bytes) (handler : Delivery → Option Error) (w : Session K J broker)
      → IsRegistered
          (handlers_map_key exchange binding_key)
          (record { exchange = exchange; binding_key = binding_key; handler = handler })
          w
          (register_handler K J broker exchange binding_key handler w)
  unfolding register_handler
  register_handler_lem exchange binding_key handler w =
      let key = handlers_map_key exchange binding_key in
      let hi : HandlerInfo = record {
        exchange = exchange;
        binding_key = binding_key;
        handler = handler;
      } in
      elim (Option-cases (lookup key w.client.handlers)) [
        | inl n ↦
            let v =
              with_client K J broker w
                (record w.client { handlers = insert key hi w.client.handlers }) in
            rw (n, register_handler)
              (after_store-IsRegistered key hi w (store_handler_info K J broker hi v) n
                (ap (λ (c : Client). c.handlers) (store_handler_info-client hi v)))
        | inr (i, e) ↦
            rw (e, register_handler)
              (record {
                registered = λ q. cc;
                other = λ j k. refl;
                failed = λ q. refl;
                taken = λ q. (refl, refl);
              })
      ]
