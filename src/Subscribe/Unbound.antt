-- ===== src/Subscribe/Unbound.antt =====
-- The clean-up takes no binding off the queue that a handler still wants.
use gorabbit.Prelude.{
  ℕ, Bytes, Bool, Option, none, some, List, [], ◌∷◌, ◌++◌, ◌≡◌, refl, sym, ◌∙◌, ap, Option-cases,
  All, inl, inr, Bool-cases, lookup, append_assoc, append-nil, not, ◌||◌, subst, All-append, false,
  if◌then◌else◌,
}
use gorabbit.Errors.{Result, ok, err, not_connected}
use gorabbit.Scope.{handlers_map_key, handler_info_pattern, cache_scope}
use gorabbit.Client.{Client}
use gorabbit.Amqp.{Call, queue_unbind, Broker, History, call, answer}
use gorabbit.Cache.Interface.{Cache}
use gorabbit.Connection.{live, is_set, connected}
use mathlib.Core.Bool.{false≢true}
use gorabbit.Connection.Channels.{with_consumer_channel}
use gorabbit.Subscribe.Defs.{BindingCodec, Session}
use gorabbit.Subscribe.Unbind.{
  read_binding, after_unbind, unbind_binding, unbind_key, unbind_keys, after_list, unbind_recorded,
  unbind_unused_bindings, met, Tick, stopped, ticked,
}

-- The call unbinds the client's queue from a binding that has no handler.
abbrev pub IsUnused : Client → Call → Type 0
IsUnused c (queue_unbind q key exchange) =
    (q ≡ c.setup.queue_name) × (lookup (handlers_map_key exchange key) c.handlers ≡ none)
IsUnused c _ = ⊥

module _ (K : Cache) (J : BindingCodec) (broker : Broker) (is_closed : ℕ → Bool) where
  -- The client is as it was, and only unused bindings were unbound.
  pub record IsClean (v w : Session K J broker) : Type 0 where
    pub client : w.client ≡ v.client
    pub calls : List Call
    pub made : w.history ≡ v.history ++ calls
    pub unused : All (IsUnused v.client) calls

  IsClean-refl : (v : Session K J broker) → IsClean v v
  IsClean-refl v = record {
    client = refl;
    calls = [];
    made = sym (append-nil v.history);
    unused = tt;
  }

  IsClean-trans : {u v w : Session K J broker} → IsClean u v → IsClean v w → IsClean u w
  IsClean-trans {u} p q = record {
    client = q.client ∙ p.client;
    calls = p.calls ++ q.calls;
    made = q.made ∙ ap (λ h. h ++ q.calls) p.made ∙ append_assoc u.history p.calls q.calls;
    unused =
        All-append (IsUnused u.client) p.calls q.calls p.unused
          (subst (λ c. All (IsUnused c) q.calls) p.client q.unused);
  }

  after_unbind-IsClean :
      (key : Bytes) (v : Session K J broker) (calls : List Call) (r : History × Result (Unit {0}))
      → r.0 ≡ v.history ++ calls
      → All (IsUnused v.client) calls
      → IsClean v (after_unbind K J broker is_closed key v r)
  after_unbind-IsClean key v calls (h, ok a) e u = record {
    client = refl;
    calls = calls;
    made = e;
    unused = u;
  }
  after_unbind-IsClean key v calls (h, err x) e u = record {
    client = refl;
    calls = calls;
    made = e;
    unused = u;
  }

  unbind_binding-IsClean :
      (key : Bytes) (v : Session K J broker) (b : Option (Bytes × Bytes))
      → IsClean v (unbind_binding K J broker is_closed key v b)
  unfolding unbind_binding with_consumer_channel call
  unbind_binding-IsClean key v none = IsClean-refl v
  unbind_binding-IsClean key v (some (exchange, binding_key)) =
      elim (Option-cases (lookup (handlers_map_key exchange binding_key) v.client.handlers)) [
        | inr (i, e) ↦ rw (e, unbind_binding) (IsClean-refl v)
        | inl e ↦ elim (Bool-cases (not (live is_closed v.client) || not (is_set v.client.ch))) [
          | inl q ↦
              rw (e, unbind_binding, q)
                (after_unbind-IsClean key v [] (v.history, err not_connected)
                  (sym (append-nil v.history)) tt)
          | inr q ↦
              let c = queue_unbind v.client.setup.queue_name binding_key exchange in
              rw (e, unbind_binding, q)
                (after_unbind-IsClean key v (c ∷ [])
                  (v.history ++ c ∷ [], answer (broker v.history c)) refl ((refl, e), tt))
        ]
      ]

  unbind_keys-IsClean :
      (keys : List Bytes) (v : Session K J broker)
      → IsClean v (unbind_keys K J broker is_closed keys v)
  unfolding unbind_keys unbind_key
  unbind_keys-IsClean [] v = IsClean-refl v
  unbind_keys-IsClean (key ∷ keys) v =
      IsClean-trans
        (unbind_binding-IsClean key v (read_binding K J broker is_closed (K.get key v.cache)))
        (unbind_keys-IsClean keys (unbind_key K J broker is_closed key v))

  after_list-IsClean :
      (v : Session K J broker) (r : K.Store × Result (List Bytes))
      → IsClean v (after_list K J broker is_closed v r)
  unfolding after_list
  after_list-IsClean v (k, err e) = record {
    client = refl;
    calls = [];
    made = sym (append-nil v.history);
    unused = tt;
  }
  after_list-IsClean v (k, ok keys) =
      IsClean-trans
        (record { client = refl; calls = []; made = sym (append-nil v.history); unused = tt })
        (unbind_keys-IsClean keys (record v { cache = k }))

  unbind_recorded-IsClean :
      (v : Session K J broker) → IsClean v (unbind_recorded K J broker is_closed v)
  unfolding unbind_recorded
  unbind_recorded-IsClean v =
      after_list-IsClean v
        (K.get_all_keys (handler_info_pattern (cache_scope v.client.setup)) v.cache)

  at_end :
      (v : Session K J broker)
      → let r =
          if connected is_closed v.client then unbind_recorded K J broker is_closed v else v in
        IsClean v r × (connected is_closed v.client ≡ false → r ≡ v)
  at_end v = elim (Bool-cases (connected is_closed v.client)) [
    | inl e ↦ rw e (unbind_recorded-IsClean v, λ n. absurd (false≢true (sym n)))
    | inr e ↦ rw e (IsClean-refl v, λ n. refl)
  ]

  -- The clean-up of the bindings ends in the state in which its wait for a connection ends, where
  -- that one is not connected. Else, whatever the store holds or answers, it changes nothing about
  -- the client that it met there, and makes no call but to unbind that client's queue from bindings
  -- that no handler is registered for.
  pub unbind_unused_bindings_lem :
      (ticks : List (Tick (Session K J broker))) (v : Session K J broker)
      → let found = met K J broker is_closed ticks v in
        IsClean found (unbind_unused_bindings K J broker is_closed ticks v)
        × (connected is_closed found.client ≡ false
            → unbind_unused_bindings K J broker is_closed ticks v ≡ found)
  unfolding unbind_unused_bindings met
  unbind_unused_bindings_lem [] v = at_end v
  unbind_unused_bindings_lem (stopped ∷ ticks) v = at_end v
  unbind_unused_bindings_lem (ticked w ∷ ticks) v =
      elim (Bool-cases (connected is_closed v.client)) [
        | inl e ↦ rw e (unbind_recorded-IsClean v, λ n. absurd (false≢true (sym n ∙ e)))
        | inr e ↦ rw e (unbind_unused_bindings_lem ticks w)
      ]
