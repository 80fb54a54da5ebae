-- ===== src/Flush/Delivers.antt =====
-- A whole flush over a live connection, to a broker that confirms what it gets.
use gorabbit.Prelude.{
  ℕ, ◌+◌, Bytes, Bool, true, false, none, some, List, [], ◌∷◌, ◌++◌, ltb, map, ◌≡◌, ◌≢◌, inl, inr,
  refl, sym, ap, ◌∙◌, Bool-cases, bytes_eq, bytes_eq_iff, All, Lacks, subst,
}
use gorabbit.Prelude.Sort.{sort}
use gorabbit.Prelude.Sort.Order.{In, sort-All, sort-In}
use gorabbit.Errors.{Result, ok}
use gorabbit.Scope.{cache_key, lease_key, cache_scope, cached_message_pattern}
use gorabbit.Client.{Client}
use gorabbit.Cache.Interface.{Cache}
use gorabbit.Wire.{Wire}
use gorabbit.Connection.{live}
use gorabbit.Connection.Channels.{publish_channel}
use gorabbit.Publisher.{CachedMessage, PublishMessage, from_cache_message}
use gorabbit.Publisher.Confirm.{HasChannel}
use gorabbit.Flush.Laws.{CacheLaws, WorkingLaws}
use gorabbit.Flush.Defs.{
  Codec, World, Verdict, reserved_elsewhere, gone, delivered, no_queue, broken, put_cache, decoded,
  flush_key, flush_keys, set_flushing, flush_cached_messages, end_flush,
}
use gorabbit.Flush.Safety.{end_flush-kept}
use gorabbit.Flush.Order.{flush-IsAscending}
use gorabbit.Flush.Turn.{IsConfirming, IsReady, Goes, flush_key-Turn, after_sends}
use gorabbit.Flush.Drained.{IsWaiting, IsOut, other-IsWaiting, any-IsOut, own-IsOut, Turn-Goes}

module _ (K : Cache) (L : CacheLaws K) (V : WorkingLaws K L) (W : Wire) (J : Codec) (c : Client)
    (id : Bytes) (m : CachedMessage) (first : W.State) (i : IsConfirming W) where
  abbrev key_of : Bytes → Bytes
  key_of = cache_key (cache_scope c.setup)

  -- A round without an error of the broker does not end the loop.
  Goes-on :
      (key : Bytes) (keys : List Bytes) (n : ℕ) (w : World K W J)
      → Goes K L W J c (flush_key K W J key w).1
      → (k : ℕ) × (flush_keys K W J (key ∷ keys) n w
          ≡ flush_keys K W J keys k (flush_key K W J key w).0)
  unfolding flush_keys
  Goes-on key keys n w g = by_verdict (flush_key K W J key w).1 refl g
    where
      by_verdict :
          (v : Verdict)
          → (flush_key K W J key w).1 ≡ v
          → Goes K L W J c v
          → (k : ℕ) × (flush_keys K W J (key ∷ keys) n w
              ≡ flush_keys K W J keys k (flush_key K W J key w).0)
      by_verdict broken e g = absurd g
      by_verdict no_queue e g = absurd g
      by_verdict reserved_elsewhere e g = (n + 1, rw (e, flush_keys) refl)
      by_verdict gone e g = (n, rw (e, flush_keys) refl)
      by_verdict delivered e g = (n, rw (e, flush_keys) refl)

  goes :
      (id' : Bytes) (w : World K W J)
      → Lacks b':' id'
      → IsReady K L W J c w
      → Goes K L W J c (flush_key K W J (key_of id') w).1
  goes id' w n r = Turn-Goes K L V W J c id m first (flush_key-Turn K L W J c i id' w n r)

  stays-IsOut :
      (ids : List Bytes) (n : ℕ) (w : World K W J)
      → All (Lacks b':') ids
      → IsOut K L V W J c id m first w
      → IsOut K L V W J c id m first (flush_keys K W J (map key_of ids) n w).0
  unfolding flush_keys
  stays-IsOut [] n w h q = q
  stays-IsOut (id' ∷ ids) n w h q =
      let (k, e) = Goes-on (key_of id') (map key_of ids) n w (goes id' w h.0 q.ready) in
      rw e (
        stays-IsOut ids k (flush_key K W J (key_of id') w).0 h.1
          (any-IsOut K L V W J c id m first i id' w h.0 q))

  drains :
      (ids : List Bytes) (n : ℕ) (w : World K W J)
      → All (Lacks b':') ids
      → Lacks b':' id
      → In id ids
      → IsWaiting K L V W J c id m first w
      → IsOut K L V W J c id m first (flush_keys K W J (map key_of ids) n w).0
  drains [] n w h l y q = absurd y
  drains (id' ∷ ids) n w h l z q =
      let (k, e) = Goes-on (key_of id') (map key_of ids) n w (goes id' w h.0 q.ready) in
      rw e (elim (Bool-cases (bytes_eq id' id)) [
        | inl y ↦ stays-IsOut ids k (flush_key K W J (key_of id') w).0 h.1 (
            subst (λ j. IsOut K L V W J c id m first (flush_key K W J (key_of j) w).0)
              (sym ((bytes_eq_iff id' id).0 y)) (own-IsOut K L V W J c id m first i w l q))
        | inr y ↦
            let d : id' ≢ id = λ x. cc ((bytes_eq_iff id' id).1 x) in
            drains ids k (flush_key K W J (key_of id') w).0 h.1 l (rest d z)
              (other-IsWaiting K L V W J c id m first i id' w l h.0 d q)
      ])
    where
      rest : id' ≢ id → In id (id' ∷ ids) → In id ids
      rest d (inl x) = absurd (d x)
      rest d (inr x) = x

Lacks-of : (id : Bytes) (ids : List Bytes) → In id ids → All (Lacks b':') ids → Lacks b':' id
Lacks-of id [] m h = absurd m
Lacks-of id (j ∷ ids) (inl e) h = subst (Lacks b':') e h.0
Lacks-of id (j ∷ ids) (inr m) h = Lacks-of id ids m h.1

channel-live : (f : ℕ → Bool) (c : Client) → HasChannel (publish_channel f c) → live f c ≡ true
unfolding publish_channel
channel-live f c h = elim (Bool-cases (live f c)) [ inl e ↦ e | inr e ↦ absurd (rw e at h) ]

channel-flushing :
    (f : ℕ → Bool) (c : Client)
    → HasChannel (publish_channel f c)
    → HasChannel (publish_channel f (record c { flushing = true }))
unfolding publish_channel live
channel-flushing f c h = h

module _ (K : Cache) (L : CacheLaws K) (V : WorkingLaws K L) (W : Wire) (J : Codec)
    (id : Bytes) where
  end_flush-wire : (r : World K W J × ℕ) → (end_flush K W J r).0.wire ≡ r.0.wire
  unfolding end_flush
  end_flush-wire (w, n) = elim (Bool-cases (ltb 0 n)) [ inl e ↦ rw e refl | inr e ↦ rw e refl ]

  -- On a store that answers and keeps the laws, with a broker that confirms every publish over
  -- connections that stay, and message ids without a colon: a flush of a client with a channel of a
  -- live connection, which no other flush keeps out, takes every message that decodes, and whose
  -- reservation is free, out of the cache, and what it did to the other side of the socket is a
  -- sequence of publishes on the client's exchange, of which one is of that very message, whatever
  -- else the cache lists.
  pub flush_delivers_lem :
      (w : World K W J) (k : K.Store) (ids : List Bytes) (json : Bytes) (m : CachedMessage)
      → IsConfirming W
      → HasChannel (publish_channel (W.is_closed w.wire) w.client)
      → w.client.flushing ≡ false
      → K.get_all_keys (cached_message_pattern (cache_scope w.client.setup)) w.cache
        ≡ (k, ok (map (cache_key (cache_scope w.client.setup)) ids))
      → All (Lacks b':') ids
      → In id ids
      → L.view w.cache (cache_key (cache_scope w.client.setup) id) ≡ some json
      → decoded K W J json ≡ some m
      → L.view w.cache (lease_key (cache_scope w.client.setup) id) ≡ none
      → (L.view (flush_cached_messages K W J w).0.cache (cache_key (cache_scope w.client.setup) id)
          ≡ none)
        × ((before : List PublishMessage) × (later : List PublishMessage) × ((flush_cached_messages
                K W J w).0.wire
              ≡ after_sends W w.client.setup.exchange_name
                  (before ++ from_cache_message m ∷ later)
                  w.wire))
  unfolding after_sends
  flush_delivers_lem w k ids json m i h f e a l v d n =
      let scope = cache_scope w.client.setup in
      let pattern = cached_message_pattern scope in
      let c : Client = record w.client { flushing = true } in
      let u : World K W J = put_cache K W J (set_flushing K W J true w) k in
      let start = flush_keys K W J (map (cache_key scope) (sort ids)) 0 u in
      let same : (j : Bytes) → L.view k j ≡ L.view w.cache j = λ j.
        ap (λ (r : K.Store × Result (List Bytes)). L.view r.0 j) (sym e)
        ∙ L.list_all pattern j w.cache in
      let channel = channel-flushing (W.is_closed w.wire) w.client h in
      let live = channel-live (W.is_closed w.wire) w.client h in
      let out =
        drains K L V W J c id m w.wire i (sort ids) 0 u (sort-All (Lacks b':') ids a)
          (Lacks-of id ids l a) (sort-In id ids l)
          (record {
            ready = record { client = refl; channel = channel };
            log = [];
            sent_so_far = refl;
            json = json;
            cached = same (cache_key scope id) ∙ v;
            decodes = d;
            free = same (lease_key scope id) ∙ n;
          }) in
      let whole = (flush-IsAscending K W J w k ids live f e).0 in
      (
        ap (λ (r : World K W J × ℕ). L.view r.0.cache (cache_key scope id)) whole
            ∙ end_flush-kept K L W J scope id start
            ∙ out.absent,
        (
          out.before,
          out.later,
          ap (λ (r : World K W J × ℕ). r.0.wire) whole ∙ end_flush-wire start ∙ out.published,
        ),
      )
