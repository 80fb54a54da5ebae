-- ===== src/Flush/Turn.antt =====
-- One round of a flush over a live connection to a broker that confirms what it gets.
use gorabbit.Prelude.{
  ℕ, Bytes, Bool, true, false, Option, none, some, List, [], ◌∷◌, ◌++◌, ◌≡◌, ◌≢◌, refl, sym, Lacks,
  subst,
}
use mathlib.Core.Path.{fun_ext}
use gorabbit.Errors.{Result, ok, err}
use gorabbit.Scope.{cache_key, lease_key, cache_scope}
use gorabbit.Scope.Segments.{msg_id-cache_key}
use gorabbit.Claim.{client_description}
use gorabbit.Client.{Client}
use gorabbit.Amqp.{Publishing}
use gorabbit.Cache.Interface.{Cache}
use gorabbit.Wire.{Wire}
use gorabbit.Connection.Channels.{publish_channel}
use gorabbit.Publisher.{CachedMessage, PublishMessage, publish, publishing_of, from_cache_message}
use gorabbit.Publisher.Confirm.{IsDelivered, HasChannel, confirmed}
use gorabbit.Flush.Laws.{CacheLaws}
use gorabbit.Flush.Defs.{
  Codec, World, Verdict, reserved_elsewhere, gone, delivered, no_queue, broken, put_cache, acquired,
  reserve_cached_message, read_cached_message, after_publish, after_read, after_reserve, flush_key,
  publish_lease_ttl,
}

-- A broker that confirms every publish, on connections that stay as they are.
pub record IsConfirming (W : Wire) : Type 0 where
  pub confirms :
      (x k : Bytes) (m : Publishing) (s : W.State) → IsDelivered m.message_id (W.publish x k m s).1
  pub stays :
      (x k : Bytes) (m : Publishing) (s : W.State) (n : ℕ)
      → W.is_closed (W.publish x k m s).0 n ≡ W.is_closed s n

-- What becomes of the other side of the socket by a publish of each of the messages, in order, on
-- one exchange.
unfoldable pub after_sends : (W : Wire) → Bytes → List PublishMessage → W.State → W.State
after_sends W exchange [] s = s
after_sends W exchange (pm ∷ pms) s =
    after_sends W exchange pms (W.publish exchange pm.routing_key (publishing_of W pm) s).0

pub after_sends-append :
    (W : Wire) (exchange : Bytes) (before after : List PublishMessage) (s : W.State)
    → after_sends W exchange (before ++ after) s
      ≡ after_sends W exchange after (after_sends W exchange before s)
unfolding after_sends
after_sends-append W exchange [] after s = refl
after_sends-append W exchange (pm ∷ before) after s =
    after_sends-append W exchange before after
      (W.publish exchange pm.routing_key (publishing_of W pm) s).0

module _ (K : Cache) (L : CacheLaws K) (W : Wire) (J : Codec) (c : Client) where
  open W use {publish as send, is_closed}

  -- The other side of the socket behind one publish.
  abbrev pub behind : PublishMessage → W.State → W.State
  behind pm s = (send c.setup.exchange_name pm.routing_key (publishing_of W pm) s).0

  -- The client is this one, with a channel of a live connection.
  pub record IsReady (w : World K W J) : Type 0 where
    pub client : w.client ≡ c
    pub channel : HasChannel (publish_channel (is_closed w.wire) c)

  same_channel :
      (f g : ℕ → Bool)
      → ((n : ℕ) → f n ≡ g n)
      → HasChannel (publish_channel g c)
      → HasChannel (publish_channel f c)
  same_channel f g h q = subst (λ e. HasChannel (publish_channel e c)) (sym (fun_ext h)) q

  pub publish-ready :
      IsConfirming W
      → (pm : PublishMessage) (s : W.State) → HasChannel (publish_channel (is_closed s) c)
      → (publish W pm c s ≡ (c, behind pm s, none))
        × HasChannel (publish_channel (is_closed (behind pm s)) c)
  unfolding publish
  publish-ready i pm s h =
      let msg = publishing_of W pm in
      (
        confirmed W c.setup.exchange_name pm.routing_key msg c s h
            (i.confirms c.setup.exchange_name pm.routing_key msg s),
        same_channel (is_closed (behind pm s)) (is_closed s)
            (i.stays c.setup.exchange_name pm.routing_key msg s) h,
      )

  -- The round ends without an error of the broker.
  abbrev pub Goes : Verdict → Type 0
  Goes broken = ⊥
  Goes no_queue = ⊥
  Goes _ = Unit

  -- The world behind `SetIfAbsent`, and what one round makes of it: nothing more, or the message is
  -- published and its key deleted.
  pub data Turn (key : Bytes) (u : World K W J) : World K W J × Verdict → Type 0 where
    skipped : (v : Verdict) → Goes v → v ≢ delivered → Turn key u (u, v)
    sent :
        (pm : PublishMessage)
        → HasChannel (publish_channel (is_closed (behind pm u.wire)) c)
        → Turn key u (
          record u { client = c; wire = behind pm u.wire; cache = (K.delete (key ∷ []) u.cache).0 },
          delivered,
        )

  after_read-Turn :
      IsConfirming W
      → (key msg_id : Bytes) (u : World K W J) (o : Option CachedMessage) → IsReady u
      → Turn key u (after_read K W J key msg_id u o)
  unfolding after_read after_publish
  after_read-Turn i key msg_id u none r = skipped gone tt (λ e. cc)
  after_read-Turn i key msg_id u (some m) r =
      let (e, h) = publish-ready i (from_cache_message m) u.wire r.channel in
      rw (r.client, e) (sent (from_cache_message m) h)

  after_reserve-Turn :
      IsConfirming W
      → (key msg_id : Bytes) (r : World K W J × Bool) → IsReady r.0
      → Turn key r.0 (after_reserve K W J key msg_id r)
  unfolding after_reserve
  after_reserve-Turn i key msg_id (u, false) r = skipped reserved_elsewhere tt (λ e. cc)
  after_reserve-Turn i key msg_id (u, true) r =
      after_read-Turn i key msg_id u (read_cached_message K W J key u) r

  acquired-same :
      (w : World K W J) (r : K.Store × Result Bool) → (acquired K W J w r).0 ≡ put_cache K W J w r.0
  acquired-same w (k, ok b) = refl
  acquired-same w (k, err e) = refl

  -- The store behind `SetIfAbsent`.
  abbrev pub leased : Bytes → World K W J → K.Store × Result Bool
  leased msg_id w =
      K.set_if_absent (lease_key (cache_scope w.client.setup) msg_id)
        (client_description J.quoted w.client.setup) (publish_lease_ttl w.client.setup) w.cache

  pub reserve-same :
      (msg_id : Bytes) (w : World K W J)
      → (reserve_cached_message K W J msg_id w).0 ≡ put_cache K W J w (leased msg_id w).0
  unfolding reserve_cached_message
  reserve-same msg_id w = acquired-same w (leased msg_id w)

  pub put-IsReady : (w : World K W J) (k : K.Store) → IsReady w → IsReady (put_cache K W J w k)
  put-IsReady w k r = record { client = r.client; channel = r.channel }

  pub flush_key-Turn :
      IsConfirming W
      → (id : Bytes) (w : World K W J) → Lacks b':' id
      → IsReady w
      → Turn
          (cache_key (cache_scope c.setup) id)
          (put_cache K W J w (leased id w).0)
          (flush_key K W J (cache_key (cache_scope c.setup) id) w)
  unfolding flush_key
  flush_key-Turn i id w n r =
      let key = cache_key (cache_scope c.setup) id in
      let u = reserve_cached_message K W J id w in
      rw (msg_id-cache_key (cache_scope c.setup) id n) (
        rw (sym (reserve-same id w)) (
          after_reserve-Turn i key id u (rw (reserve-same id w) (put-IsReady w (leased id w).0 r))))
