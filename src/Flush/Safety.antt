-- ===== src/Flush/Safety.antt =====
-- A flush loses no message: what leaves the cache was delivered.
use gorabbit.Prelude.{
  ℕ, ◌+◌, Bytes, Bool, true, false, Option, none, some, List, [], ◌∷◌, ◌≡◌, ◌≢◌, ◌⊎◌, inl, inr,
  refl, sym, ◌∙◌, Bool-cases, bytes_eq, bytes_eq_iff, if◌then◌else◌, ltb, subst,
}
use gorabbit.Prelude.Sort.{sort}
use gorabbit.Errors.{Error, Result, ok, err}
use gorabbit.Scope.{cache_key, cache_scope, msg_id_from_cache_key, cached_message_pattern}
use gorabbit.Client.{Client}
use gorabbit.Cache.Interface.{Cache}
use gorabbit.Wire.{Wire}
use gorabbit.Connection.{live}
use gorabbit.Publisher.{CachedMessage, publish, from_cache_message}
use gorabbit.Flush.Laws.{CacheLaws}
use gorabbit.Flush.Defs.{
  Codec, World, Verdict, reserved_elsewhere, gone, delivered, no_queue, broken, put_cache,
  reserve_cached_message, read_cached_message, read, decoded, after_publish, after_read,
  after_reserve, flush_key, flush_keys, flush_cached_messages, after_keys, end_flush, set_flushing,
}
use gorabbit.Flush.Kept.{kept, reserve-kept, flush_key-kept}

delivered-cases : (v : Verdict) → (v ≡ delivered) ⊎ (v ≢ delivered)
delivered-cases delivered = inl refl
delivered-cases reserved_elsewhere = inr (λ e. cc)
delivered-cases gone = inr (λ e. cc)
delivered-cases no_queue = inr (λ e. cc)
delivered-cases broken = inr (λ e. cc)

not_delivered : (b : Bool) → (if b then no_queue else broken) ≢ delivered
not_delivered true e = cc
not_delivered false e = cc

module _ (K : Cache) (L : CacheLaws K) (W : Wire) (J : Codec) (scope id : Bytes) where
  -- What a reader finds under the key of one message.
  abbrev pub seen : World K W J → Option Bytes
  seen = kept K L W J scope id

  -- The reservation was won, `m` was read behind it, and its publish answered nil.
  abbrev pub Attempted : World K W J → CachedMessage → Type 0
  Attempted v m =
      let key = cache_key scope id in
      let (u, won) = reserve_cached_message K W J (msg_id_from_cache_key key) v in
      (won ≡ true)
      × (read_cached_message K W J key u ≡ some m)
      × ((publish W (from_cache_message m) u.client u.wire).2 ≡ none)

  after_publish-delivered :
      (key msg_id : Bytes) (w : World K W J) (p : Client × W.State × Option Error)
      → (after_publish K W J key msg_id w p).1 ≡ delivered
      → p.2 ≡ none
  unfolding after_publish
  after_publish-delivered key msg_id w (c, s, none) d = refl
  after_publish-delivered key msg_id w (c, s, some e) d = absurd (not_delivered _ d)

  after_read-delivered :
      (key msg_id : Bytes) (w : World K W J) (o : Option CachedMessage)
      → (after_read K W J key msg_id w o).1 ≡ delivered
      → (m : CachedMessage) × (o ≡ some m)
        × ((publish W (from_cache_message m) w.client w.wire).2 ≡ none)
  unfolding after_read
  after_read-delivered key msg_id w none d = cc
  after_read-delivered key msg_id w (some m) d = (
    m,
    refl,
    after_publish-delivered key msg_id w (publish W (from_cache_message m) w.client w.wire) d,
  )

  after_reserve-delivered :
      (key msg_id : Bytes) (r : World K W J × Bool)
      → (after_reserve K W J key msg_id r).1 ≡ delivered
      → (m : CachedMessage) × (r.1 ≡ true)
        × (read_cached_message K W J key r.0 ≡ some m)
        × ((publish W (from_cache_message m) r.0.client r.0.wire).2 ≡ none)
  unfolding after_reserve
  after_reserve-delivered key msg_id (w, false) d = cc
  after_reserve-delivered key msg_id (w, true) d =
      let (m, e, p) = after_read-delivered key msg_id w (read_cached_message K W J key w) d in
      (m, refl, e, p)

  flush_key-delivered :
      (v : World K W J)
      → (flush_key K W J (cache_key scope id) v).1 ≡ delivered
      → (m : CachedMessage) × Attempted v m
  unfolding flush_key
  flush_key-delivered v d =
      let key = cache_key scope id in
      let msg_id = msg_id_from_cache_key key in
      let (m, won, e, p) =
        after_reserve-delivered key msg_id (reserve_cached_message K W J msg_id v) d in
      (m, (won, e, p))

  read_lem :
      (r : Result (Option Bytes)) (m : CachedMessage)
      → read K W J r ≡ some m
      → (json : Bytes) × (r ≡ ok (some json)) × (decoded K W J json ≡ some m)
  read_lem (err e) m h = cc
  read_lem (ok none) m h = cc
  read_lem (ok (some json)) m h = (json, refl, h)

  -- What is read behind the reservation is what a reader found before it.
  Attempted-kept :
      (v : World K W J) (m : CachedMessage)
      → Attempted v m
      → (json : Bytes) × (seen v ≡ some json) × (decoded K W J json ≡ some m)
  unfolding read_cached_message
  Attempted-kept v m (won, e, p) =
      let key = cache_key scope id in
      let msg_id = msg_id_from_cache_key key in
      let (json, g, d) = read_lem (K.get key (reserve_cached_message K W J msg_id v).0.cache) m e in
      (json, sym (reserve-kept K L W J scope id msg_id v) ∙ sym (L.get_view key _ g), d)

  -- The rounds of the loop, one key each.
  pub data Rounds : World K W J → World K W J → Type 0 where
    start : {w : World K W J} → Rounds w w
    round : (key : Bytes) {w v : World K W J} → Rounds (flush_key K W J key w).0 v → Rounds w v

  -- In a round after `w`, the message that a reader finds in `w` was read under its reservation,
  -- and its publish answered nil.
  pub record WasDelivered (w : World K W J) : Type 0 where
    pub before : World K W J
    pub json : Bytes
    pub message : CachedMessage
    pub rounds : Rounds w before
    pub cached : seen w ≡ some json
    pub decodes : decoded K W J json ≡ some message
    pub attempt : Attempted before message

  flush_key-loses :
      (key : Bytes) (w : World K W J) → (seen (flush_key K W J key w).0 ≡ seen w) ⊎ WasDelivered w
  flush_key-loses key w = elim (Bool-cases (bytes_eq key (cache_key scope id))) [
    | inr n ↦ inl (
        flush_key-kept K L W J scope id key w
          (inl (λ e. cc ((bytes_eq_iff key (cache_key scope id)).1 e))))
    | inl y ↦ elim (delivered-cases (flush_key K W J key w).1) [
      | inl d ↦
          let d' = subst (λ k. (flush_key K W J k w).1 ≡ delivered) ((bytes_eq_iff key _).0 y) d in
          let (m, a) = flush_key-delivered w d' in
          let (json, c, e) = Attempted-kept w m a in
          inr (record {
            before = w;
            json = json;
            message = m;
            rounds = start;
            cached = c;
            decodes = e;
            attempt = a;
          })
      | inr d ↦ inl (flush_key-kept K L W J scope id key w (inr d))
    ]
  ]

  later :
      (key : Bytes) (w : World K W J)
      → seen (flush_key K W J key w).0 ≡ seen w
      → WasDelivered (flush_key K W J key w).0
      → WasDelivered w
  later key w h d = record {
    before = d.before;
    json = d.json;
    message = d.message;
    rounds = round key d.rounds;
    cached = sym h ∙ d.cached;
    decodes = d.decodes;
    attempt = d.attempt;
  }

  after_round :
      (key : Bytes) (w x : World K W J)
      → (seen x ≡ seen (flush_key K W J key w).0) ⊎ WasDelivered (flush_key K W J key w).0
      → (seen x ≡ seen w) ⊎ WasDelivered w
  after_round key w x h = elim (flush_key-loses key w) [
    | inr d ↦ inr d
    | inl k ↦ elim h [ inl same ↦ inl (same ∙ k) | inr d ↦ inr (later key w k d) ]
  ]

  flush_keys-loses :
      (keys : List Bytes) (n : ℕ) (w : World K W J)
      → (seen (flush_keys K W J keys n w).0 ≡ seen w) ⊎ WasDelivered w
  unfolding flush_keys
  flush_keys-loses [] n w = inl refl
  flush_keys-loses (key ∷ keys) n w = after_round key w (flush_keys K W J (key ∷ keys) n w).0 (
      by_verdict (flush_key K W J key w).1 refl
        (λ m. flush_keys-loses keys m (flush_key K W J key w).0))
    where
      by_verdict :
          (v : Verdict)
          → (flush_key K W J key w).1 ≡ v
          → ((m : ℕ)
              → (seen (flush_keys K W J keys m (flush_key K W J key w).0).0
                  ≡ seen (flush_key K W J key w).0)
                ⊎ WasDelivered (flush_key K W J key w).0)
          → (seen (flush_keys K W J (key ∷ keys) n w).0 ≡ seen (flush_key K W J key w).0)
            ⊎ WasDelivered (flush_key K W J key w).0
      by_verdict broken e ih = rw (e, flush_keys) (inl refl)
      by_verdict reserved_elsewhere e ih = rw (e, flush_keys) (ih (n + 1))
      by_verdict no_queue e ih = rw (e, flush_keys) (ih (n + 1))
      by_verdict gone e ih = rw (e, flush_keys) (ih n)
      by_verdict delivered e ih = rw (e, flush_keys) (ih n)

  pub end_flush-kept : (r : World K W J × ℕ) → seen (end_flush K W J r).0 ≡ seen r.0
  unfolding end_flush
  end_flush-kept (w, n) = elim (Bool-cases (ltb 0 n)) [ inl e ↦ rw e | inr e ↦ rw e ]

  -- The flush has marked itself and listed the keys.
  abbrev pub listed : World K W J → World K W J
  listed w =
      put_cache K W J (set_flushing K W J true w)
        (K.get_all_keys (cached_message_pattern (cache_scope w.client.setup)) w.cache).0

  after_keys-loses :
      (w : World K W J) (r : K.Store × Result (List Bytes))
      → L.view r.0 (cache_key scope id) ≡ seen w
      → (seen (after_keys K W J w r).0 ≡ seen w) ⊎ WasDelivered (put_cache K W J w r.0)
  unfolding after_keys
  after_keys-loses w (k, err e) h = inl h
  after_keys-loses w (k, ok keys) h = elim (flush_keys-loses (sort keys) 0 (put_cache K W J w k)) [
    | inl same ↦
        inl (end_flush-kept (flush_keys K W J (sort keys) 0 (put_cache K W J w k)) ∙ same ∙ h)
    | inr d ↦ inr d
  ]

  -- On a store that keeps the laws (no ttl runs out during the flush, and no other process is at
  -- work): after a flush a reader finds a cached message as before, or the flush read that very
  -- message under its reservation in one of its rounds and its publish answered nil. A failed
  -- publish, a missing queue, a lost connection, a reservation of another process and an error of
  -- the store lose nothing.
  pub flush_cached_messages_lem :
      (w : World K W J)
      → (seen (flush_cached_messages K W J w).0 ≡ seen w) ⊎ WasDelivered (listed w)
  unfolding flush_cached_messages
  flush_cached_messages_lem w = elim (Bool-cases (live (W.is_closed w.wire) w.client)) [
    | inr e ↦ rw e (inl refl)
    | inl e ↦ elim (Bool-cases w.client.flushing) [
      | inl f ↦ rw (e, f) (inl refl)
      | inr f ↦
          let pattern = cached_message_pattern (cache_scope w.client.setup) in
          rw (e, f)
            (after_keys-loses (set_flushing K W J true w) (K.get_all_keys pattern w.cache)
              (L.list_all pattern (cache_key scope id) w.cache))
    ]
  ]
