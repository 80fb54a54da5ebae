-- ===== src/Monitor/Outage.antt =====
-- A message that is published while the broker is out, and the tick of the monitor that finds it
-- back.
use gorabbit.Prelude.{
  ℕ, ◌≤◌, Bytes, Bool, false, none, some, List, ◌∷◌, ◌++◌, map, ◌≡◌, refl, sym, ap, ◌∙◌, arith,
  length, All, Lacks,
}
use gorabbit.Prelude.Sort.Order.{In}
use gorabbit.Errors.{ok}
use gorabbit.Scope.{cache_key, lease_key, cache_scope, cached_message_pattern}
use gorabbit.Scope.Segments.{lease_key-ne}
use gorabbit.Setup.{Setup}
use gorabbit.Client.{Client}
use gorabbit.Amqp.{Broker, History}
use gorabbit.Amqp.Accepting.{IsAccepting}
use gorabbit.Connection.{connected, live}
use gorabbit.Connection.Refused.{IsRefusing, unconnected, connect-refused}
use gorabbit.Cache.Interface.{Cache}
use gorabbit.Wire.{Wire}
use gorabbit.Connection.Channels.{publish_channel}
use gorabbit.Publisher.Confirm.{HasChannel}
use gorabbit.Publisher.{PublishMessage, to_cache_message, from_cache_message}
use gorabbit.Flush.Laws.{CacheLaws, WorkingLaws}
use gorabbit.Flush.{
  Codec, World, cache_message, cached_message_ttl, decoded, put_cache, flush_cached_messages,
}
use gorabbit.Flush.Turn.{IsConfirming, after_sends}
use gorabbit.Flush.Delivers.{flush_delivers_lem}
use gorabbit.Publish.{Link, reconnect, after_connect, publish_prepared, after_reconnect}
use gorabbit.Monitor.Defs.{monitor_turn}
use gorabbit.Monitor.Heals.{monitor_turn_lem}

module _ (K : Cache) (L : CacheLaws K) (V : WorkingLaws K L) (W : Wire) (J : Codec)
    (out back : Broker) where
  abbrev scope_of : Client → Bytes
  scope_of c = cache_scope c.setup

  -- The store with the message of this id in it.
  abbrev pub caching : Client → Bytes → Bytes → K.Store → K.Store
  caching c id json s = (K.set (cache_key (scope_of c) id) json cached_message_ttl s).0

  -- The cache takes the message.
  cached :
      (pm : PublishMessage) (w : World K W J) (json : Bytes)
      → J.marshal (to_cache_message pm) ≡ ok json
      → cache_message K W J pm w
        ≡ (put_cache K W J w (caching w.client pm.msg_id json w.cache), none)
  unfolding cache_message to_cache_message
  cached pm w json e =
      rw (e, cache_message)
        (ap (λ x. (put_cache K W J w (caching w.client pm.msg_id json w.cache), x))
          (V.set_view (cache_key (scope_of w.client) pm.msg_id) json cached_message_ttl w.cache
            refl).0)

  -- `Publish` while every call is refused.
  published :
      (l : Link K W J out) (pm : PublishMessage) (json : Bytes)
      → IsRefusing out
      → l.world.client.done ≡ false
      → l.world.client.dialing ≡ false
      → connected (W.is_closed l.world.wire) l.world.client ≡ false
      → J.marshal (to_cache_message pm) ≡ ok json
      → (h : History) × (length l.history ≤ length h)
        × (publish_prepared K W J out pm l ≡ (
          record {
            world = record l.world {
              client = unconnected l.world.client;
              cache = caching l.world.client pm.msg_id json l.world.cache;
            };
            history = h;
          },
          none,
        ))
  unfolding publish_prepared reconnect after_connect after_reconnect
  published l pm json r d f e m =
      let (h, x, n, q) =
        connect-refused (W.is_closed l.world.wire) out l.world.client l.history r d e f in
      (
        h,
        n,
        rw (e, q, cached pm (record l.world { client = unconnected l.world.client }) json m) refl,
      )

  abbrev pub resumed : Link K W J out → Link K W J back
  resumed l = record { world = l.world; history = l.history }

  -- The message has left the cache, and what happened to the other side of the socket is a sequence
  -- of publishes of which one is of that message.
  pub record IsHandedOver (s : Setup) (pm : PublishMessage) (wire : W.State) (w : World K W J)
      : Type 0 where
    pub absent : L.view w.cache (cache_key (cache_scope s) pm.msg_id) ≡ none
    pub before : List PublishMessage
    pub later : List PublishMessage
    pub published : w.wire ≡ after_sends W s.exchange_name (before ++ pm ∷ later) wire

  unconnected_lem : (f : ℕ → Bool) (c : Client) → connected f (unconnected c) ≡ false
  unfolding connected live
  unconnected_lem f c = refl

  handed_over :
      (w : World K W J) (s : Setup) (pm : PublishMessage) (json : Bytes) (k : K.Store)
      (ids : List Bytes)
      → w.client.setup ≡ s
      → IsConfirming W
      → HasChannel (publish_channel (W.is_closed w.wire) w.client)
      → w.client.flushing ≡ false
      → K.get_all_keys (cached_message_pattern (cache_scope s)) w.cache
        ≡ (k, ok (map (cache_key (cache_scope s)) ids))
      → All (Lacks b':') ids
      → In pm.msg_id ids
      → L.view w.cache (cache_key (cache_scope s) pm.msg_id) ≡ some json
      → decoded K W J json ≡ some (to_cache_message pm)
      → L.view w.cache (lease_key (cache_scope s) pm.msg_id) ≡ none
      → IsHandedOver s pm w.wire (flush_cached_messages K W J w).0
  unfolding from_cache_message to_cache_message
  handed_over w s pm json k ids q i h f e a l v d n =
      let (gone, (before, later, sent)) =
        flush_delivers_lem K L V W J pm.msg_id w k ids json (to_cache_message pm) i h f (rw q e) a l
          (rw q v) d (rw q n) in
      rw (sym q) (record { absent = gone; before = before; later = later; published = sent })

  -- On a store that answers and keeps the laws, for a client that is not closed, has lost its
  -- connection and neither dials nor flushes, and for a message whose encoding reads back and whose
  -- reservation is free: while the broker refuses every call, `Publish` answers nil. Once the broker
  -- accepts every call, on connections that are open and stay, and confirms what it gets, the next
  -- tick of the monitor takes the message out of the cache, and what it does to the other side of the
  -- socket is a sequence of publishes on the client's exchange, of which one is of that message, where
  -- the cache lists it among messages whose ids have no colon.
  pub outage_lem :
      (l : Link K W J out) (pm : PublishMessage) (json : Bytes) (k : K.Store) (ids : List Bytes)
      → IsRefusing out
      → IsAccepting back
      → IsConfirming W
      → l.world.client.done ≡ false
      → l.world.client.dialing ≡ false
      → l.world.client.flushing ≡ false
      → connected (W.is_closed l.world.wire) l.world.client ≡ false
      → ((n : ℕ) → length l.history ≤ n → W.is_closed l.world.wire n ≡ false)
      → J.marshal (to_cache_message pm) ≡ ok json
      → decoded K W J json ≡ some (to_cache_message pm)
      → L.view l.world.cache (lease_key (scope_of l.world.client) pm.msg_id) ≡ none
      → K.get_all_keys
          (cached_message_pattern (scope_of l.world.client))
          (caching l.world.client pm.msg_id json l.world.cache)
        ≡ (k, ok (map (cache_key (scope_of l.world.client)) ids))
      → All (Lacks b':') ids
      → In pm.msg_id ids
      → let (l', e) = publish_prepared K W J out pm l in
        (e ≡ none)
        × IsHandedOver l.world.client.setup pm l.world.wire
            (monitor_turn K W J back (resumed l')).world
  outage_lem l pm json k ids r a i d g f u o m x n s h t =
      let c = l.world.client in
      let id = pm.msg_id in
      let (hist, le, p) = published l pm json r d g u m in
      let store = caching c id json l.world.cache in
      let l' : Link K W J back = record {
        world = record l.world { client = unconnected c; cache = store };
        history = hist;
      } in
      let kept : L.view store (cache_key (scope_of c) id) ≡ some json =
        (V.set_view (cache_key (scope_of c) id) json cached_message_ttl l.world.cache refl).1 in
      let free : L.view store (lease_key (scope_of c) id) ≡ none =
        L.set_other (cache_key (scope_of c) id) (lease_key (scope_of c) id) json cached_message_ttl
          l.world.cache (λ e. lease_key-ne (scope_of c) (scope_of c) id id (sym e))
        ∙ n in
      let off = unconnected_lem (W.is_closed l.world.wire) c in
      let healed =
        (monitor_turn_lem K W J back l' a d refl (λ j b. o j (omega (arith, le, b)))).0 off in
      let w : World K W J = record l'.world { client = healed.client } in
      let over =
        handed_over w c.setup pm json k ids healed.steady.setup i healed.channel
          (healed.steady.flushing ∙ f) s h t kept x free in
      rw p (refl, rw healed.flushed over)
