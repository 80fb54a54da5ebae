-- ===== src/Consumer/Loop/Turns.antt =====
-- What a turn of `consume` and a run of its worker come to.
use gorabbit.Prelude.{
  Bool, true, false, ◌||◌, Option, none, some, List, [], ◌∷◌, ◌≡◌, refl, sym, ◌∙◌, arith,
  Bool-cases, inl, inr,
}
use gorabbit.Errors.{Error, Result, ok, err, consume_failed}
use gorabbit.Client.{Client}
use gorabbit.Amqp.{Broker, History, Delivery, call, consume}
use gorabbit.Wire.{Wire}
use gorabbit.Connection.{connected, closed, set_connected}
use gorabbit.Connection.Channels.{with_consumer_channel}
use gorabbit.Consumer.Defs.{Settlement, Outcome, process_message}
use gorabbit.Consumer.Retry.{IsSettled, process_message_lem}
use gorabbit.Consumer.Loop.{
  Take, stopped, ended, delivered, Worked, run_worker, after_workers, after_consume,
  consume_messages, after_messages, consume_turn,
}

-- The deliveries before the first stop or end.
unfoldable pub taken : List Take → List Delivery
taken [] = []
taken (stopped ∷ takes) = []
taken (ended ∷ takes) = []
taken (delivered d ∷ takes) = d ∷ taken takes

module _ (W : Wire) (settle : Settlement → Option Error) where
  -- Each delivery has its outcome, in order, each from the state that the one before it left.
  pub data AreProcessed : List Delivery → Client → W.State → List (Outcome W settle) → Type 0 where
    done : {c : Client} {s : W.State} → AreProcessed [] c s []
    one :
        {d : Delivery} {ds : List Delivery} {c : Client} {s : W.State} {o : Outcome W settle}
        {os : List (Outcome W settle)}
        → IsSettled W settle d c s o
        → AreProcessed ds o.client o.wire os
        → AreProcessed (d ∷ ds) c s (o ∷ os)

  -- A worker settles every delivery that it takes, in the order in which it takes them and each from
  -- the state that the one before it left, and takes none after it has been stopped.
  pub run_worker-AreProcessed :
      (takes : List Take) (c : Client) (s : W.State)
      → AreProcessed (taken takes) c s (run_worker W settle takes c s).2
  unfolding run_worker taken
  run_worker-AreProcessed [] c s = done
  run_worker-AreProcessed (stopped ∷ takes) c s = done
  run_worker-AreProcessed (ended ∷ takes) c s = done
  run_worker-AreProcessed (delivered d ∷ takes) c s =
      let o = process_message W settle d c s in
      one (process_message_lem W settle d c s) (run_worker-AreProcessed takes o.client o.wire)

  LostOrOver : Bool → Client × W.State × History × Option Error → Type 0
  LostOrOver ctx_over (c, s, h, e) = e ≡ none → (ctx_over || closed c) ≡ true

  after_workers-over :
      (ctx_over : Bool) (h : History) (r : Worked W settle)
      → LostOrOver ctx_over (after_workers W settle ctx_over h r)
  unfolding after_workers LostOrOver
  after_workers-over ctx_over h (c, s, os) = λ e. ground arith

  after_consume-over :
      (ctx_over : Bool) (takes : List Take) (c : Client) (s : W.State)
      (r : History × Result (Unit {0}))
      → LostOrOver ctx_over (after_consume W settle ctx_over takes c s r)
  unfolding after_consume LostOrOver
  after_consume-over ctx_over takes c s (h, err e) = failed
    where
      failed : some (consume_failed e) ≡ none → (ctx_over || closed c) ≡ true
      failed q = cc
  after_consume-over ctx_over takes c s (h, ok u) =
      after_workers-over ctx_over h (run_worker W settle takes c s)

  consume_messages-over :
      (broker : Broker) (takes : List Take) (c : Client) (s : W.State) (h : History)
      → LostOrOver false (consume_messages W settle broker false takes c s h)
  unfolding consume_messages
  consume_messages-over broker takes c s h = after_consume-over false takes c s (
      with_consumer_channel (W.is_closed s) (call (consume c.setup.queue_name c.setup.app_name)) c
        broker h)

  after_messages-lost :
      (r : Client × W.State × History × Option Error)
      → LostOrOver false r
      → closed (after_messages W settle r).0 ≡ false
      → (after_messages W settle r).0.is_connected ≡ false
  unfolding after_messages set_connected LostOrOver
  after_messages-lost (c, s, h, some e) l k = refl
  after_messages-lost (c, s, h, none) l k = absurd (differ (sym k ∙ l refl))
    where
      differ : false ≡ true → ⊥
      differ q = cc

  -- A turn of the loop that finds no connection changes nothing. A turn that consumed until its
  -- workers were gone, while neither the context was over nor the client closed, leaves the client
  -- marked as not connected: the loop does not run on with a connection that stopped delivering.
  pub consume_turn_lem :
      (broker : Broker) (takes : List Take) (c : Client) (s : W.State) (h : History)
      → let r = consume_turn W settle broker false takes c s h in
        (connected (W.is_closed s) c ≡ false → r ≡ (c, s, h))
        × (connected (W.is_closed s) c ≡ true → closed r.0 ≡ false → r.0.is_connected ≡ false)
  unfolding consume_turn
  consume_turn_lem broker takes c s h = elim (Bool-cases (connected (W.is_closed s) c)) [
    | inr e ↦ rw e (λ q. refl, λ q. cc)
    | inl e ↦ rw e (
      λ q. cc,
      λ q k.
          after_messages-lost (consume_messages W settle broker false takes c s h)
            (consume_messages-over broker takes c s h) k,
    )
  ]
