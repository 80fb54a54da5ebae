-- ===== src/Flush/Drained.antt =====
-- A flush over a live connection, to a broker that confirms what it gets, delivers what waits.
use gorabbit.Prelude.{
  Bytes, Bool, true, Option, none, some, List, [], ◌∷◌, ◌++◌, append-nil, append_assoc, ◌≡◌, ◌≢◌,
  inl, inr, refl, sym, ap, ◌∙◌, Bool-cases, bytes_eq, bytes_eq_iff, Lacks,
}
use gorabbit.Errors.{Result, ok}
use gorabbit.Scope.{cache_key, lease_key, cache_scope}
use gorabbit.Scope.Segments.{lease_key-ne, lease_key-other, cache_key-ne, msg_id-cache_key}
use gorabbit.Client.{Client}
use gorabbit.Cache.Interface.{Cache}
use gorabbit.Wire.{Wire}
use gorabbit.Publisher.{CachedMessage, PublishMessage, publish, from_cache_message}
use gorabbit.Flush.Laws.{CacheLaws, WorkingLaws}
use gorabbit.Flush.Defs.{
  Codec, World, Verdict, delivered, put_cache, acquired, reserve_cached_message,
  read_cached_message, read, decoded, after_publish, after_read, after_reserve, flush_key,
}
use gorabbit.Flush.Turn.{
  IsConfirming, IsReady, Goes, Turn, skipped, sent, leased, publish-ready, put-IsReady,
  flush_key-Turn, behind, after_sends, after_sends-append,
}

module _ (K : Cache) (L : CacheLaws K) (V : WorkingLaws K L) (W : Wire) (J : Codec) (c : Client)
    (id : Bytes) (m : CachedMessage) (first : W.State) where
  abbrev pub scope : Bytes
  scope = cache_scope c.setup

  abbrev pub view : World K W J → Bytes → Option Bytes
  view w = L.view w.cache

  -- The message waits, and nobody holds its reservation.
  pub record IsWaiting (w : World K W J) : Type 0 where
    pub ready : IsReady K L W J c w
    pub log : List PublishMessage
    pub sent_so_far : w.wire ≡ after_sends W c.setup.exchange_name log first
    pub json : Bytes
    pub cached : view w (cache_key scope id) ≡ some json
    pub decodes : decoded K W J json ≡ some m
    pub free : view w (lease_key scope id) ≡ none

  -- The message has left the cache, and its publish is one of those that were made.
  pub record IsOut (w : World K W J) : Type 0 where
    pub ready : IsReady K L W J c w
    pub before : List PublishMessage
    pub later : List PublishMessage
    pub published :
        w.wire ≡ after_sends W c.setup.exchange_name (before ++ from_cache_message m ∷ later) first
    pub absent : view w (cache_key scope id) ≡ none

  Turn-IsReady :
      {key : Bytes} {u : World K W J} {r : World K W J × Verdict}
      → Turn K L W J c key u r
      → IsReady K L W J c u
      → IsReady K L W J c r.0
  Turn-IsReady (skipped v g d) i = i
  Turn-IsReady (sent s h) i = record { client = refl; channel = h }

  pub Turn-Goes :
      {key : Bytes} {u : World K W J} {r : World K W J × Verdict}
      → Turn K L W J c key u r
      → Goes K L W J c r.1
  Turn-Goes (skipped v g d) = g
  Turn-Goes (sent s h) = tt

  Turn-view :
      {key : Bytes} {u : World K W J} {r : World K W J × Verdict} (j : Bytes)
      → Turn K L W J c key u r
      → key ≢ j
      → view r.0 j ≡ view u j
  Turn-view j (skipped v g d) n = refl
  Turn-view {key} {u} j (sent s h) n = L.delete_other key j u.cache n

  -- A round makes one publish or none.
  Turn-wire :
      {key : Bytes} {u : World K W J} {r : World K W J × Verdict} (log : List PublishMessage)
      → Turn K L W J c key u r
      → u.wire ≡ after_sends W c.setup.exchange_name log first
      → (more : List PublishMessage) × (r.0.wire
          ≡ after_sends W c.setup.exchange_name (log ++ more) first)
  unfolding after_sends
  Turn-wire log (skipped v g d) e = ([], rw (append-nil log) e)
  Turn-wire log (sent pm h) e = (
    pm ∷ [],
    ap (behind K L W J c pm) e
        ∙ sym (after_sends-append W c.setup.exchange_name log (pm ∷ []) first),
  )

  leased-view :
      (id' j : Bytes) (w : World K W J)
      → IsReady K L W J c w
      → lease_key scope id' ≢ j
      → view (put_cache K W J w (leased K L W J c id' w).0) j ≡ view w j
  leased-view id' j w r n =
      L.set_if_absent_other _ j _ _ w.cache
        (rw (ap (λ (d : Client). lease_key (cache_scope d.setup) id') r.client) n)

  -- The round of another message, and a round once the message is out.
  pub other-IsWaiting :
      IsConfirming W
      → (id' : Bytes) (w : World K W J) → Lacks b':' id
      → Lacks b':' id'
      → id' ≢ id
      → IsWaiting w
      → IsWaiting (flush_key K W J (cache_key scope id') w).0
  other-IsWaiting i id' w n n' d q =
      let t = flush_key-Turn K L W J c i id' w n' q.ready in
      let (more, e) = Turn-wire q.log t q.sent_so_far in
      record {
        ready = Turn-IsReady t (put-IsReady K L W J c w _ q.ready);
        log = q.log ++ more;
        sent_so_far = e;
        json = q.json;
        cached =
            Turn-view (cache_key scope id) t (cache_key-ne scope id' id n' n d)
            ∙ leased-view id' (cache_key scope id) w q.ready (lease_key-ne scope scope id' id)
            ∙ q.cached;
        decodes = q.decodes;
        free =
            Turn-view (lease_key scope id) t (λ e. lease_key-ne scope scope id id' (sym e))
            ∙ leased-view id' (lease_key scope id) w q.ready (lease_key-other scope id' id d)
            ∙ q.free;
      }

  Turn-absent :
      {key : Bytes} {u : World K W J} {r : World K W J × Verdict}
      → Turn K L W J c key u r
      → key ≡ cache_key scope id
      → view u (cache_key scope id) ≡ none
      → view r.0 (cache_key scope id) ≡ none
  Turn-absent (skipped v g d) e a = a
  Turn-absent {key} {u} (sent s h) e a =
      ap (L.view (K.delete (key ∷ []) u.cache).0) (sym e) ∙ V.delete_self key u.cache

  pub any-IsOut :
      IsConfirming W
      → (id' : Bytes) (w : World K W J) → Lacks b':' id'
      → IsOut w
      → IsOut (flush_key K W J (cache_key scope id') w).0
  any-IsOut i id' w n' q =
      let t = flush_key-Turn K L W J c i id' w n' q.ready in
      let before =
        leased-view id' (cache_key scope id) w q.ready (lease_key-ne scope scope id' id)
        ∙ q.absent in
      let (more, e) = Turn-wire (q.before ++ from_cache_message m ∷ q.later) t q.published in
      record {
        ready = Turn-IsReady t (put-IsReady K L W J c w _ q.ready);
        before = q.before;
        later = q.later ++ more;
        published =
            e
            ∙ ap (λ pms. after_sends W c.setup.exchange_name pms first)
                (append_assoc q.before (from_cache_message m ∷ q.later) more);
        absent = elim (Bool-cases (bytes_eq (cache_key scope id') (cache_key scope id))) [
          | inl e ↦ Turn-absent t ((bytes_eq_iff _ _).0 e) before
          | inr e ↦ Turn-view (cache_key scope id) t (λ x. cc ((bytes_eq_iff _ _).1 x)) ∙ before
        ];
      }

  acquired-true :
      (w : World K W J) (r : K.Store × Result Bool)
      → r.1 ≡ ok true
      → acquired K W J w r ≡ (put_cache K W J w r.0, true)
  acquired-true w r e = rw e refl

  reserved :
      (w : World K W J)
      → IsWaiting w
      → reserve_cached_message K W J id w ≡ (put_cache K W J w (leased K L W J c id w).0, true)
  unfolding reserve_cached_message
  reserved w q = acquired-true w (leased K L W J c id w) (
      V.set_if_absent_free _ _ _ w.cache
        (ap (λ (d : Client). view w (lease_key (cache_scope d.setup) id)) q.ready.client ∙ q.free))

  found :
      (w : World K W J) (q : IsWaiting w)
      → read_cached_message K W J (cache_key scope id) (put_cache K W J w (leased K L W J c id w).0)
        ≡ some m
  unfolding read_cached_message
  found w q =
      let k = (leased K L W J c id w).0 in
      ap (read K W J) (
        V.get_ok (cache_key scope id) k
        ∙ ap ok (
            leased-view id (cache_key scope id) w q.ready (lease_key-ne scope scope id id)
            ∙ q.cached))
      ∙ q.decodes

  delivers :
      (w : World K W J)
      → Lacks b':' id
      → (q : IsWaiting w) (s : W.State) → publish W (from_cache_message m) c w.wire ≡ (c, s, none)
      → flush_key K W J (cache_key scope id) w ≡ (
        record w {
          client = c;
          wire = s;
          cache = (K.delete (cache_key scope id ∷ []) (leased K L W J c id w).0).0;
        },
        delivered,
      )
  unfolding flush_key after_reserve after_read after_publish
  delivers w n q s e =
      rw (msg_id-cache_key scope id n, reserved w q, found w q, q.ready.client, e) refl

  -- The round of the message itself.
  pub own-IsOut :
      IsConfirming W
      → (w : World K W J) → Lacks b':' id
      → IsWaiting w
      → IsOut (flush_key K W J (cache_key scope id) w).0
  unfolding after_sends
  own-IsOut i w n q =
      let (e, h) = publish-ready K L W J c i (from_cache_message m) w.wire q.ready.channel in
      rw (delivers w n q _ e) (record {
        ready = record { client = refl; channel = h };
        before = q.log;
        later = [];
        published =
            ap (behind K L W J c (from_cache_message m)) q.sent_so_far
            ∙ sym (
                after_sends-append W c.setup.exchange_name q.log (from_cache_message m ∷ []) first);
        absent = V.delete_self (cache_key scope id) _;
      })
