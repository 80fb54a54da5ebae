-- ===== src/Flush/Defs.antt =====
-- rabbitmq/common.go: caching a message and flushing the cache; rabbitmq/lease.go: the reservation
-- that keeps two processes off one message. The cache and the other side of the socket are
-- parameters; so is the encoding of a cached message (`json.Marshal`, `json.Unmarshal`).
use gorabbit.Prelude.{
  ℕ, ◌+◌, ◌*◌, Bytes, Bool, true, false, Option, none, some, List, [], ◌∷◌, not, ltb, if◌then◌else◌,
  is_empty,
}
use gorabbit.Prelude.Int.{ℤ, pos, ltb_ℤ, negsuc, int64}
use gorabbit.Prelude.Sort.{sort}
use gorabbit.Errors.{Error, Result, ok, err, is_unroutable}
use gorabbit.Setup.{Setup}
use gorabbit.Scope.{
  cache_scope, cache_key, lease_key, msg_id_from_cache_key, cached_message_pattern,
}
use gorabbit.Claim.{client_description}
use gorabbit.Client.{Client}
use gorabbit.Cache.Interface.{Cache}
use gorabbit.Wire.{Wire}
use gorabbit.Connection.{live}
use gorabbit.Publisher.{
  PublishMessage, CachedMessage, to_cache_message, from_cache_message, publish,
}

-- Nanoseconds.
abbrev pub cached_message_ttl : ℤ
cached_message_ttl = pos 86_400_000_000_000

abbrev pub min_publish_lease_ttl : ℤ
min_publish_lease_ttl = pos 30_000_000_000

-- `2 * d` of a `time.Duration`, which wraps around.
unfoldable pub double : ℤ → ℤ
unfolding int64
double (pos n) = int64 (pos (2 * n))
double (negsuc n) = int64 (negsuc (2 * n + 1))

abbrev pub max_ℤ : ℤ → ℤ → ℤ
max_ℤ a b = if ltb_ℤ a b then b else a

-- `publishAttemptTimeout`: publishAttemptFactor is 2.
unfoldable pub publish_attempt_timeout : Setup → ℤ
unfolding double
publish_attempt_timeout s = double s.confirm_timeout

-- `publishLeaseTTL`
unfoldable pub publish_lease_ttl : Setup → ℤ
unfolding publish_attempt_timeout double
publish_lease_ttl s = max_ℤ (double (publish_attempt_timeout s)) min_publish_lease_ttl

-- `signalPending`: the channel has one place, and a signal that finds it taken is dropped.
unfoldable pub signal_pending : Client → Client
signal_pending c = record c { pending = true }

-- The encoding of a cached message, and the verb %q.
pub record Codec : Type 0 where
  pub marshal : CachedMessage → Result Bytes
  pub unmarshal : Bytes → Result CachedMessage
  pub quoted : Bytes → Bytes

-- What became of one key of the flush: `continue` with the message left behind, `continue` with
-- nothing there, the message on the broker, no queue for it, and `break`.
pub data Verdict : Type 0 where
  reserved_elsewhere gone delivered no_queue broken : Verdict

module _ (K : Cache) (W : Wire) (J : Codec) where
  pub record World : Type 0 where
    pub client : Client
    pub cache : K.Store
    pub wire : W.State

  abbrev pub put_cache : World → K.Store → World
  put_cache w k = record w { cache = k }

  -- `cacheMessage`
  unfoldable pub cache_message : PublishMessage → World → World × Option Error
  unfolding to_cache_message cache_scope cache_key
  cache_message pm w =
      let cm = to_cache_message pm in
      elim (J.marshal cm) [
        | err e ↦ (w, some e)
        | ok json ↦
            let (k, e) =
              K.set (cache_key (cache_scope w.client.setup) cm.msg_id) json cached_message_ttl
                w.cache in
            (put_cache w k, e)
      ]

  abbrev pub acquired : World → K.Store × Result Bool → World × Bool
  acquired w (k, ok b) = (put_cache w k, b)
  acquired w (k, err e) = (put_cache w k, false)

  -- `reserveCachedMessage`
  unfoldable pub reserve_cached_message : Bytes → World → World × Bool
  unfolding lease_key cache_scope client_description publish_lease_ttl
  reserve_cached_message msg_id w = acquired w (
      K.set_if_absent (lease_key (cache_scope w.client.setup) msg_id)
        (client_description J.quoted w.client.setup) (publish_lease_ttl w.client.setup) w.cache)

  -- `releaseCachedMessage`; the error is logged and dropped.
  unfoldable pub release_cached_message : Bytes → World → World
  unfolding lease_key cache_scope
  release_cached_message msg_id w =
      put_cache w (K.delete (lease_key (cache_scope w.client.setup) msg_id ∷ []) w.cache).0

  abbrev pub decoded : Bytes → Option CachedMessage
  decoded json =
      if is_empty json then none else elim (J.unmarshal json) [ err e ↦ none | ok m ↦ some m ]

  -- The answers of `Get`: an error, nil, or data.
  abbrev pub read : Result (Option Bytes) → Option CachedMessage
  read (err e) = none
  read (ok none) = none
  read (ok (some json)) = decoded json

  -- `readCachedMessage`
  unfoldable pub read_cached_message : Bytes → World → Option CachedMessage
  read_cached_message key w = read (K.get key w.cache)

  unfoldable pub after_publish :
      Bytes → Bytes → World → Client × W.State × Option Error → World × Verdict
  after_publish key msg_id w (c, s, none) =
      (record w { client = c; wire = s; cache = (K.delete (key ∷ []) w.cache).0 }, delivered)
  after_publish key msg_id w (c, s, some e) = (
    release_cached_message msg_id (record w { client = c; wire = s }),
    if is_unroutable e then no_queue else broken,
  )

  unfoldable pub after_read : Bytes → Bytes → World → Option CachedMessage → World × Verdict
  after_read key msg_id w none = (w, gone)
  after_read key msg_id w (some m) =
      after_publish key msg_id w (publish W (from_cache_message m) w.client w.wire)

  unfoldable pub after_reserve : Bytes → Bytes → World × Bool → World × Verdict
  after_reserve key msg_id (w, false) = (w, reserved_elsewhere)
  after_reserve key msg_id (w, true) = after_read key msg_id w (read_cached_message key w)

  -- The body of the loop for one key.
  unfoldable pub flush_key : Bytes → World → World × Verdict
  unfolding msg_id_from_cache_key reserve_cached_message after_reserve after_read
      read_cached_message after_publish release_cached_message publish from_cache_message
  flush_key key w =
      let msg_id = msg_id_from_cache_key key in
      after_reserve key msg_id (reserve_cached_message msg_id w)

  -- The loop, with its count of the messages left behind.
  unfoldable pub flush_keys : List Bytes → ℕ → World → World × ℕ
  flush_keys [] pending w = (w, pending)
  flush_keys (key ∷ keys) pending w =
      let r = flush_key key w in
      elim r.1 [
        | broken ↦ (r.0, pending)
        | reserved_elsewhere ↦ flush_keys keys (pending + 1) r.0
        | no_queue ↦ flush_keys keys (pending + 1) r.0
        | gone ↦ flush_keys keys pending r.0
        | delivered ↦ flush_keys keys pending r.0
      ]

  abbrev pub set_flushing : Bool → World → World
  set_flushing b w = record w { client = record w.client { flushing = b } }

  -- The end of the flush: the signal, and the deferred reset.
  unfoldable pub end_flush : World × ℕ → World × ℕ
  end_flush (w, pending) = (
    set_flushing false (if ltb 0 pending then record w { client = signal_pending w.client } else w),
    pending,
  )

  -- `cachedMessageKeys` has answered.
  unfoldable pub after_keys : World → K.Store × Result (List Bytes) → World × ℕ
  after_keys w (k, err e) = (set_flushing false (put_cache w k), 0)
  after_keys w (k, ok keys) = end_flush (flush_keys (sort keys) 0 (put_cache w k))

  -- `flushCachedMessages`; a list of no keys ends it with 0 as the loop does.
  unfoldable pub flush_cached_messages : World → World × ℕ
  unfolding cache_scope cached_message_pattern after_keys flush_keys flush_key end_flush
      signal_pending
  flush_cached_messages w =
      if not (live (W.is_closed w.wire) w.client)
      then (w, 0)
      else if w.client.flushing
      then (w, 0)
      else after_keys (set_flushing true w)
          (K.get_all_keys (cached_message_pattern (cache_scope w.client.setup)) w.cache)
