-- ===== src/Flush/Kept.antt =====
-- What a reader finds under the key of one cached message, through each step of a flush.
use gorabbit.Prelude.{
  Bytes, Bool, true, false, Option, none, some, ◌≡◌, ◌≢◌, ◌⊎◌, inl, inr, refl, ◌∙◌,
}
use gorabbit.Errors.{Error, Result, ok, err}
use gorabbit.Scope.{cache_key, lease_key, cache_scope, msg_id_from_cache_key}
use gorabbit.Scope.Segments.{lease_key-ne}
use gorabbit.Claim.{client_description}
use gorabbit.Client.{Client}
use gorabbit.Cache.Interface.{Cache}
use gorabbit.Wire.{Wire}
use gorabbit.Publisher.{CachedMessage, publish, from_cache_message}
use gorabbit.Flush.Laws.{CacheLaws}
use gorabbit.Flush.Defs.{
  Codec, World, delivered, acquired, reserve_cached_message, release_cached_message,
  read_cached_message, after_publish, after_read, after_reserve, flush_key, publish_lease_ttl,
}

module _ (K : Cache) (L : CacheLaws K) (W : Wire) (J : Codec) (scope id : Bytes) where
  -- What a reader finds under the key of one message.
  abbrev pub kept : World K W J → Option Bytes
  kept w = L.view w.cache (cache_key scope id)

  pub reserve-kept :
      (msg_id : Bytes) (w : World K W J) → kept (reserve_cached_message K W J msg_id w).0 ≡ kept w
  unfolding reserve_cached_message
  reserve-kept msg_id w = go _ (
      L.set_if_absent_other (lease_key (cache_scope w.client.setup) msg_id) (cache_key scope id)
        (client_description J.quoted w.client.setup) (publish_lease_ttl w.client.setup) w.cache
        (lease_key-ne _ scope msg_id id))
    where
      go :
          (r : K.Store × Result Bool)
          → L.view r.0 (cache_key scope id) ≡ kept w
          → kept (acquired K W J w r).0 ≡ kept w
      go (k, ok b) h = h
      go (k, err e) h = h

  after_publish-kept :
      (key msg_id : Bytes) (w : World K W J) (p : Client × W.State × Option Error)
      → (key ≢ cache_key scope id) ⊎ ((after_publish K W J key msg_id w p).1 ≢ delivered)
      → kept (after_publish K W J key msg_id w p).0 ≡ kept w
  unfolding release_cached_message after_publish
  after_publish-kept key msg_id w (c, s, none) (inl n) =
      L.delete_other key (cache_key scope id) w.cache n
  after_publish-kept key msg_id w (c, s, none) (inr d) = absurd (d refl)
  after_publish-kept key msg_id w (c, s, some e) h =
      L.delete_other (lease_key (cache_scope c.setup) msg_id) (cache_key scope id) w.cache
        (lease_key-ne _ scope msg_id id)

  after_read-kept :
      (key msg_id : Bytes) (w : World K W J) (m : Option CachedMessage)
      → (key ≢ cache_key scope id) ⊎ ((after_read K W J key msg_id w m).1 ≢ delivered)
      → kept (after_read K W J key msg_id w m).0 ≡ kept w
  unfolding after_read
  after_read-kept key msg_id w none h = refl
  after_read-kept key msg_id w (some m) h =
      after_publish-kept key msg_id w (publish W (from_cache_message m) w.client w.wire) h

  after_reserve-kept :
      (key msg_id : Bytes) (r : World K W J × Bool)
      → (key ≢ cache_key scope id) ⊎ ((after_reserve K W J key msg_id r).1 ≢ delivered)
      → kept (after_reserve K W J key msg_id r).0 ≡ kept r.0
  unfolding after_reserve
  after_reserve-kept key msg_id (w, false) h = refl
  after_reserve-kept key msg_id (w, true) h =
      after_read-kept key msg_id w (read_cached_message K W J key w) h

  pub flush_key-kept :
      (key : Bytes) (w : World K W J)
      → (key ≢ cache_key scope id) ⊎ ((flush_key K W J key w).1 ≢ delivered)
      → kept (flush_key K W J key w).0 ≡ kept w
  unfolding flush_key
  flush_key-kept key w h =
      let msg_id = msg_id_from_cache_key key in
      after_reserve-kept key msg_id (reserve_cached_message K W J msg_id w) h
      ∙ reserve-kept msg_id w
