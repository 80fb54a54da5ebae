-- ===== src/Consumer/Shutdown/Drains.antt =====
-- `Close` waits for the deliveries in hand.
use gorabbit.Prelude.{
  ◌+◌, Bool, true, false, ◌||◌, ◌&&◌, Option, some, [], ◌≡◌, ◌≢◌, refl, sym, ap, ◌∙◌, arith, ◌⊎◌,
  inl, inr,
}
use mathlib.Core.Bool.{false≢true}
use gorabbit.Errors.{Error}
use gorabbit.Setup.{Setup}
use gorabbit.Wire.{Wire}
use gorabbit.Amqp.{Delivery}
use gorabbit.Consumer.Defs.{Settlement}
use gorabbit.Consumer.Pool
use gorabbit.Consumer.Pool.{
  System, deliver, take, finish, leave, run_dry, stop, end, started, held, AreGone, count,
  delivery_of, change, SameOwner,
}
use gorabbit.Consumer.Pool.Counts.{
  idle_held, held-gone, pool_lem, AreSettled, AreSettled-owner, Reach-Inv as Pool_Reach-Inv,
}
use gorabbit.Consumer.Pool.Owner.{SameOwner-trans}
use gorabbit.Client.{Client}
use gorabbit.Prelude.Int.{pos_part}
use gorabbit.Consumer.Shutdown.{
  Routine, unstarted, looping, entering, elsewhere, enter, refused, consuming, over, Stage, opened,
  draining, past, shut, start, Wait, drained, timed_out, wait_for_consumer, is_shut, Shop, answers,
  Step, to_start, cancel, begin, work, come_back, finished, close, wait, shut_down, Reach, here,
  next, unstarted_shop,
}

-- `Close` has been called.
abbrev pub is_closing : Stage → Bool
is_closing opened = false
is_closing draining = true
is_closing (past b) = true
is_closing (shut b) = true

-- `waitForConsumer` saw the consumer drained.
abbrev pub saw_drained : Stage → Bool
saw_drained opened = false
saw_drained draining = false
saw_drained (past b) = b
saw_drained (shut b) = b

-- Behind the select that lets it consume.
abbrev pub is_consuming : Routine → Bool
is_consuming unstarted = false
is_consuming looping = false
is_consuming entering = true
is_consuming consuming = true
is_consuming over = false

abbrev pub is_at_work : Routine → Bool
is_at_work unstarted = false
is_at_work looping = false
is_at_work entering = false
is_at_work consuming = true
is_at_work over = false

at_work-consuming : (r : Routine) → is_consuming r ≡ false → is_at_work r ≡ false
at_work-consuming unstarted e = refl
at_work-consuming looping e = refl
at_work-consuming entering e = refl
at_work-consuming consuming e = e
at_work-consuming over e = refl

closing-drained : (s : Stage) → saw_drained s ≡ true → is_closing s ≡ true
closing-drained opened e = e
closing-drained draining e = refl
closing-drained (past b) e = refl
closing-drained (shut b) e = refl

start-idle : (s : Setup) (r : Routine) → is_consuming r ≡ false → is_consuming (start s r) ≡ false
unfolding start
start-idle s r e = ground arith

drained-idle : (w : Wait) (r : Routine) → wait_for_consumer w r ≡ some true → is_consuming r ≡ false
unfolding wait_for_consumer
drained-idle timed_out r e = cc
drained-idle drained unstarted e = refl
drained-idle drained over e = refl
drained-idle drained looping e = cc
drained-idle drained entering e = cc
drained-idle drained consuming e = cc

module _ (W : Wire) (settle : Settlement → Option Error) (client : Client) (first : W.State) where
  abbrev pub Open : Type 0
  Open = Shop W settle

  -- The workers are those of this client, at some point of its life.
  abbrev pub Traced : System W settle → Type 0
  Traced p =
      (c : Client) × (v : W.State) × SameOwner client c
      × Pool.Reach W settle (started W settle c v) p

  further : {p q : System W settle} → Traced p → Pool.Step W settle p q → Traced q
  further (c, v, o, r) st = (c, v, o, Pool.next r st)

  owned : (p : System W settle) → Traced p → SameOwner client p.client
  owned p (c, v, o, r) = SameOwner-trans client c p.client o (Pool_Reach-Inv W settle c v r).owner

  -- New workers of a client that may have ended.
  anew :
      (c : Client) (v : W.State) (b : Bool)
      → SameOwner client c
      → Traced (record (started W settle c v) { stopped = b })
  unfolding started
  anew c v true o = (c, v, o, Pool.next Pool.here (stop (started W settle c v)))
  anew c v false o = (c, v, o, Pool.here)

  -- The end of the context or the client stays.
  Step-stopped :
      {p q : System W settle} → Pool.Step W settle p q → p.stopped ≡ true → q.stopped ≡ true
  Step-stopped (deliver s d e) h = h
  Step-stopped (take s d rest before after e m) h = h
  Step-stopped (finish s d before after e) h = h
  Step-stopped (change s c v o) h = h
  Step-stopped (leave s before after e x) h = h
  Step-stopped (run_dry s before after e m x) h = h
  Step-stopped (stop s) h = refl
  Step-stopped (end s) h = h

  pub record Inv (s : Open) : Type 0 where
    pub traced : Traced s.pool
    pub stopped : is_closing s.stage ≡ true → s.pool.stopped ≡ true
    pub idle : is_at_work s.routine ≡ false → held s.pool.workers ≡ []
    pub quiet : saw_drained s.stage ≡ true → is_consuming s.routine ≡ false
    pub timely : s.late ≡ true → (s.stage ≡ shut false)

  shut_cases :
      (s : Stage) (l a : Bool)
      → (l || (is_shut s && a)) ≡ true
      → (l ≡ true) ⊎ ((s ≡ shut true) ⊎ (s ≡ shut false))
  shut_cases s true a e = inl refl
  shut_cases opened false a e = absurd (false≢true e)
  shut_cases draining false a e = absurd (false≢true e)
  shut_cases (past b) false a e = absurd (false≢true e)
  shut_cases (shut true) false a e = inr (inl refl)
  shut_cases (shut false) false a e = inr (inr refl)

  Step-Inv : {s t : Open} → Step W settle s t → Inv s → Inv t
  Step-Inv (to_start s e) i = record {
    traced = i.traced;
    stopped = i.stopped;
    idle = λ h. i.idle (ap is_at_work e);
    quiet = λ h. start-idle s.pool.client.setup s.routine (ap is_consuming e);
    timely = i.timely;
  }
  Step-Inv (cancel s) i = record {
    traced = further i.traced (stop s.pool);
    stopped = λ h. refl;
    idle = i.idle;
    quiet = i.quiet;
    timely = i.timely;
  }
  Step-Inv (elsewhere s c v o) i = record {
    traced = further i.traced (change s.pool c v o);
    stopped = i.stopped;
    idle = i.idle;
    quiet = i.quiet;
    timely = i.timely;
  }
  Step-Inv (enter s e f) i = record {
    traced = i.traced;
    stopped = i.stopped;
    idle = λ h. i.idle (ap is_at_work e);
    quiet = λ h. absurd (false≢true (sym f ∙ i.stopped (closing-drained s.stage h)));
    timely = i.timely;
  }
  Step-Inv (begin s e) i = record {
    traced = anew s.pool.client s.pool.wire s.pool.stopped (owned s.pool i.traced);
    stopped = i.stopped;
    idle = λ h. absurd (false≢true (sym h));
    quiet = λ h. absurd (false≢true (sym (i.quiet h) ∙ ap is_consuming e));
    timely = i.timely;
  }
  Step-Inv (refused s e) i = record {
    traced = i.traced;
    stopped = i.stopped;
    idle = λ h. i.idle (ap is_at_work e);
    quiet = λ h. refl;
    timely = i.timely;
  }
  Step-Inv (work s p e w) i = record {
    traced = further i.traced w;
    stopped = λ h. Step-stopped w (i.stopped h);
    idle = λ h. absurd (false≢true (sym h ∙ ap is_at_work e));
    quiet = λ h. absurd (false≢true (sym (i.quiet h) ∙ ap is_consuming e));
    timely = λ h. elim (shut_cases s.stage s.late (answers W settle w) h) [
      | inl x ↦ i.timely x
      | inr (inl x) ↦ absurd (false≢true (sym (i.quiet (ap saw_drained x)) ∙ ap is_consuming e))
      | inr (inr x) ↦ x
    ];
  }
  Step-Inv (come_back s e g) i = record {
    traced = i.traced;
    stopped = i.stopped;
    idle = λ h. held-gone s.pool.workers g;
    quiet = λ h. refl;
    timely = i.timely;
  }
  Step-Inv (finished s e f) i = record {
    traced = i.traced;
    stopped = i.stopped;
    idle = λ h. i.idle (ap is_at_work e);
    quiet = λ h. refl;
    timely = i.timely;
  }
  Step-Inv (close s e) i = record {
    traced = further i.traced (stop s.pool);
    stopped = λ h. refl;
    idle = i.idle;
    quiet = λ h. absurd (false≢true h);
    timely = λ h. absurd (false≢true (sym (ap is_closing e) ∙ ap is_closing (i.timely h)));
  }
  Step-Inv (wait s w b e f) i = record {
    traced = i.traced;
    stopped = λ h. i.stopped (ap is_closing e);
    idle = i.idle;
    quiet = λ h. drained-idle w s.routine (f ∙ ap some h);
    timely = λ h. absurd (false≢true (sym (ap is_shut e) ∙ ap is_shut (i.timely h)));
  }
  Step-Inv (shut_down s b e) i = record {
    traced = i.traced;
    stopped = λ h. i.stopped (ap is_closing e);
    idle = i.idle;
    quiet = λ h. i.quiet (ap saw_drained e ∙ h);
    timely = λ h. absurd (false≢true (sym (ap is_shut e) ∙ ap is_shut (i.timely h)));
  }

  unstarted-Inv : Inv (unstarted_shop W settle client first)
  unfolding unstarted_shop started
  unstarted-Inv = record {
    traced = (client, first, (refl, refl), Pool.here);
    stopped = λ h. absurd (false≢true h);
    idle = λ h. idle_held W settle (pos_part client.setup.concurrency);
    quiet = λ h. refl;
    timely = λ h. absurd (false≢true h);
  }

  pub Reach-Inv : {s : Open} → Reach W settle (unstarted_shop W settle client first) s → Inv s
  Reach-Inv here = unstarted-Inv
  Reach-Inv (next r st) = Step-Inv st (Reach-Inv r)

  -- However `Start`, `Close`, the end of the context, the loop of `consume`, its workers and the other
  -- goroutines interleave, where `Start` is called once: a delivery is processed to its end behind the
  -- close of the channels only if the wait for the consumer ran into its timeout; and where that wait
  -- saw the consumer drained, nobody consumes from then on, no worker is at a delivery, and in the
  -- last round every delivery was processed but those that nobody took. What was processed in it was
  -- left as `processMessage` leaves a delivery, by the client's setup and handlers: acked,
  -- dead-lettered, or, where another try was due, unanswered with an error.
  pub shutdown_lem :
      {s : Open}
      → Reach W settle (unstarted_shop W settle client first) s
      → (s.late ≡ true → (s.stage ≡ shut false))
        × AreSettled W settle client s.pool.processed
        × (saw_drained s.stage ≡ true
            → (s.routine ≢ consuming)
              × (held s.pool.workers ≡ [])
              × ((p : Delivery → Bool)
                  → count p s.pool.sent
                    ≡ count p (delivery_of W settle s.pool.processed) + count p s.pool.msgs))
  shutdown_lem {s} r =
      let i = Reach-Inv r in
      let (c, v, o, q) = i.traced in
      let pool = pool_lem W settle c v q in
      (
        i.timely,
        AreSettled-owner W settle client c o s.pool.processed pool.1,
        λ h.
            let none_held = i.idle (at_work-consuming s.routine (i.quiet h)) in
            (
              λ e. false≢true (sym (i.quiet h) ∙ ap is_consuming e),
              none_held,
              λ p. omega (arith, pool.0 p, ap (count p) none_held),
            ),
      )
