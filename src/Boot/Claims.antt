-- ===== src/Boot/Claims.antt =====
-- The claims of the process before and after `Setup.Connect`.
use gorabbit.Prelude.{
  ℕ, Bytes, Bool, true, false, Option, none, some, ◌≡◌, ◌≢◌, refl, ◌∙◌, ap, inl, inr, Bool-cases,
  Option-cases, lookup, insert, erase, bytes_eq_iff, lookup-insert, lookup-erase,
  lookup-insert_self, arith,
}
use gorabbit.Errors.{Error, Result, ok, err, Result-cases, cache_required, is_topology_rejected}
use gorabbit.Setup.{Setup, validate}
use gorabbit.Scope.{cache_scope}
use gorabbit.Claim.{Registry, claim_cache_key, release_cache_key, client_description}
use gorabbit.Claim.Exclusive.{claim_free, claim_taken}
use gorabbit.Client.{Client, new_client}
use gorabbit.Amqp.{Broker, History}
use gorabbit.Cache.Interface.{Cache}
use gorabbit.Wire.{Wire}
use gorabbit.Connection.{closed}
use gorabbit.Connection.Channels.{close}
use gorabbit.Connection.Dial.{connect}
use gorabbit.Connection.Steady.{IsSteady, connect-IsSteady}
use gorabbit.Flush.{Codec}
use gorabbit.Publish.{Link, reconnect, after_connect}
use gorabbit.Boot.Defs.{close_client, after_boot, after_claim, connect_setup}

-- Every reader of the registry finds what it found.
abbrev pub IsSame : Registry → Registry → Type 0
IsSame keys keys' = (j : Bytes) → lookup j keys' ≡ lookup j keys

-- A key that was free and is claimed and released is free again.
claim_released :
    (key d : Bytes) (keys : Registry)
    → lookup key keys ≡ none
    → IsSame keys (erase key (insert key d keys))
claim_released key d keys n j =
    lookup-erase key j (insert key d keys)
    ∙ ground (arith, n, bytes_eq_iff key j, lookup-insert key j d keys)

close_client-erase :
    (f : ℕ → Bool) (keys : Registry) (c : Client)
    → c.done ≡ false
    → c.claimed_key ≡ true
    → (close_client f keys c).0 ≡ erase (cache_scope c.setup) keys
unfolding close_client closed close release_cache_key
close_client-erase f keys c d k = ground arith

module _ (K : Cache) (W : Wire) (J : Codec) (broker : Broker) where
  after_connect-IsSteady :
      (l : Link K W J broker) (c : Client) (r : Client × History × Result Bool) (e : Error)
      → IsSteady c r.0
      → (after_connect K W J broker l r).1 ≡ some e
      → IsSteady c (after_connect K W J broker l r).0.world.client
  unfolding after_connect
  after_connect-IsSteady l c (c', h, err x) e s q = s
  after_connect-IsSteady l c (c', h, ok true) e s q = cc
  after_connect-IsSteady l c (c', h, ok false) e s q = cc

  -- What a start says about the claims.
  pub record IsBooted (s : Setup) (keys : Registry) (r : Registry × Result (Link K W J broker))
      : Type 0 where
    pub failed : (e : Error) → r.1 ≡ err e → IsSame keys r.0
    pub started :
        (l : Link K W J broker)
        → r.1 ≡ ok l
        → (lookup (cache_scope s) keys ≡ none)
          × (lookup (cache_scope s) r.0 ≡ some (client_description J.quoted s))

  unclaimed-IsBooted : (s : Setup) (keys : Registry) (e : Error) → IsBooted s keys (keys, err e)
  unclaimed-IsBooted s keys e = record { failed = λ x q j. refl; started = λ l q. cc }

  module _ (s : Setup) (keys : Registry) where
    abbrev claimed : Registry
    claimed = insert (cache_scope s) (client_description J.quoted s) keys

    kept-IsBooted :
        (l : Link K W J broker)
        → lookup (cache_scope s) keys ≡ none
        → IsBooted s keys (claimed, ok l)
    kept-IsBooted l n = record {
      failed = λ x q. cc;
      started = λ k q. (n, lookup-insert_self (cache_scope s) (client_description J.quoted s) keys);
    }

    after_boot-IsBooted :
        (c : Client) (r : Link K W J broker × Option Error)
        → lookup (cache_scope s) keys ≡ none
        → c.setup ≡ s
        → c.claimed_key ≡ true
        → c.done ≡ false
        → ((e : Error) → r.1 ≡ some e → IsSteady c r.0.world.client)
        → IsBooted s keys (after_boot K W J broker claimed r)
    unfolding after_boot
    after_boot-IsBooted c (l, none) n es ek ed st = kept-IsBooted l n
    after_boot-IsBooted c (l, some e) n es ek ed st = elim (Bool-cases (is_topology_rejected e)) [
      | inr t ↦ rw t (kept-IsBooted l n)
      | inl t ↦
          let steady = st e refl in
          let erased =
            close_client-erase (W.is_closed l.world.wire) claimed l.world.client (steady.done ∙ ed)
              (steady.claimed_key ∙ ek) in
          rw t (record {
            failed = λ x q j.
                ap (lookup j) erased
                ∙ ap (λ (u : Setup). lookup j (erase (cache_scope u) claimed)) (steady.setup ∙ es)
                ∙ claim_released (cache_scope s) (client_description J.quoted s) keys n j;
            started = λ k q. cc;
          })
    ]

  after_claim-IsBooted :
      (s : Setup) (keys : Registry) (store : K.Store) (wire : W.State) (h : History)
      → IsBooted s keys
          (after_claim K W J broker store wire h (claim_cache_key J.quoted keys (new_client s)))
  unfolding after_claim new_client reconnect
  after_claim-IsBooted s keys store wire h = elim (Option-cases (lookup (cache_scope s) keys)) [
    | inr (holder, e) ↦
        rw (claim_taken J.quoted keys (new_client s) e) (unclaimed-IsBooted s keys _)
    | inl n ↦
        let c : Client = record (new_client s) { claimed_key = true } in
        let l : Link K W J broker = record {
          world = record { client = c; cache = store; wire = wire };
          history = h;
        } in
        rw (claim_free J.quoted keys (new_client s) n) (
          after_boot-IsBooted s keys c (reconnect K W J broker l) n refl refl refl (λ e q.
            after_connect-IsSteady l c (connect (W.is_closed wire) broker c h) e
              (connect-IsSteady (W.is_closed wire) broker c h) q))
  ]

  -- A start that fails leaves the claims of the process as it found them, so the same key can be
  -- claimed again, also when it had claimed the key and the broker rejected its topology. A start
  -- that hands out a client found a usable setup, a cache and an unclaimed key, and holds the key.
  pub connect_setup_lem :
      (s : Setup) (cache : Option K.Store) (wire : W.State) (h : History) (keys : Registry)
      → let r = connect_setup K W J broker s cache wire h keys in
        IsBooted s keys r
        × ((l : Link K W J broker) → r.1 ≡ ok l → (validate s ≡ ok tt) × (cache ≢ none))
  unfolding connect_setup
  connect_setup_lem s cache wire h keys = elim (Result-cases (validate s)) [
    | inr (e, v) ↦ rw (v, connect_setup) (unclaimed-IsBooted s keys e, λ l q. cc)
    | inl (u, v) ↦ elim (Option-cases cache) [
      | inl n ↦ rw (v, n, connect_setup) (unclaimed-IsBooted s keys cache_required, λ l q. cc)
      | inr (store, n) ↦
          rw (v, n, connect_setup)
            (after_claim-IsBooted s keys store wire h, λ l q. (refl, λ e. cc))
    ]
  ]
