-- ===== src/Consumer/Pool/Counts.antt =====
-- No delivery is lost and none is processed twice.
use gorabbit.Prelude.{
  ℕ, ◌+◌, ◌≤◌, Bool, List, [], ◌∷◌, ◌++◌, Option, ◌≡◌, refl, ap, ◌∙◌, arith, length, length-append,
}
use gorabbit.Prelude.Int.{pos_part}
use gorabbit.Errors.{Error}
use gorabbit.Client.{Client}
use gorabbit.Amqp.{Delivery}
use gorabbit.Wire.{Wire}
use gorabbit.Consumer.Defs.{Settlement, process_message}
use gorabbit.Consumer.Retry.{IsSettled, process_message_lem}
use gorabbit.Consumer.Pool.Owner.{SameOwner-trans, process_message-SameOwner}
use gorabbit.Consumer.Pool.{
  Phase, waiting, gone, handling, workers_of, System, Step, deliver, take, finish, leave, run_dry,
  stop, end, change, Reach, here, next, started, held, AreGone, count, Processed, process,
  delivery_of, SameOwner,
}

count-append :
    (p : Delivery → Bool) (ds es : List Delivery) → count p (ds ++ es) ≡ count p ds + count p es
count-append p [] es = omega arith
count-append p (d ∷ ds) es = omega (arith, count-append p ds es)

held-append : (ps qs : List Phase) → held (ps ++ qs) ≡ held ps ++ held qs
held-append [] qs = refl
held-append (waiting ∷ ps) qs = held-append ps qs
held-append (gone ∷ ps) qs = held-append ps qs
held-append (handling d ∷ ps) qs = ap (λ ds. d ∷ ds) (held-append ps qs)

pub held-gone : (ps : List Phase) → AreGone ps → held ps ≡ []
held-gone [] g = refl
held-gone (gone ∷ ps) g = held-gone ps g
held-gone (waiting ∷ ps) g = absurd g
held-gone (handling d ∷ ps) g = absurd g

count-held :
    (p : Delivery → Bool) (before after : List Phase) (q : Phase)
    → count p (held (before ++ q ∷ after))
      ≡ count p (held before) + (count p (held (q ∷ [])) + count p (held after))
count-held p before after q =
    ap (count p) (held-append before (q ∷ after))
    ∙ count-append p (held before) (held (q ∷ after))
    ∙ ap (λ n. count p (held before) + n)
        (ap (count p) (held-append (q ∷ []) after) ∙ count-append p (held (q ∷ [])) (held after))

module _ (W : Wire) (settle : Settlement → Option Error) where
  pub delivery_of-append :
      (ps qs : List (Processed W settle))
      → delivery_of W settle (ps ++ qs) ≡ delivery_of W settle ps ++ delivery_of W settle qs
  delivery_of-append [] qs = refl
  delivery_of-append (p ∷ ps) qs = ap (λ ds. p.delivery ∷ ds) (delivery_of-append ps qs)

  -- Each is left as `processMessage` leaves a delivery, by the setup and the handlers of the client.
  abbrev pub AreSettled : Client → List (Processed W settle) → Type 0
  AreSettled c [] = Unit
  AreSettled c (p ∷ ps) =
      (SameOwner c p.client × IsSettled W settle p.delivery p.client p.wire p.outcome)
      × AreSettled c ps

  -- The same for a client that the first has become.
  pub AreSettled-owner :
      (c c' : Client)
      → SameOwner c c'
      → (ps : List (Processed W settle)) → AreSettled c' ps
      → AreSettled c ps
  AreSettled-owner c c' o [] h = h
  AreSettled-owner c c' o (p ∷ ps) ((q, t), h) =
      ((SameOwner-trans c c' p.client o q, t), AreSettled-owner c c' o ps h)

  pub record Inv (c : Client) (s : System W settle) : Type 0 where
    pub owner : SameOwner c s.client
    pub pool : length s.workers ≡ pos_part c.setup.concurrency
    pub conserved :
        (p : Delivery → Bool)
        → count p s.sent
          ≡ count p (delivery_of W settle s.processed) + (count p (held s.workers) + count p s.msgs)
    pub settled : AreSettled c s.processed

  settled-append :
      (c : Client) (ps : List (Processed W settle)) (d : Delivery) (c' : Client) (v : W.State)
      → AreSettled c ps
      → SameOwner c c'
      → AreSettled c (ps ++ process W settle d c' v ∷ [])
  settled-append c [] d c' v h o = ((o, process_message_lem W settle d c' v), tt)
  settled-append c (p ∷ ps) d c' v h o = (h.0, settled-append c ps d c' v h.1 o)

  pool-kept :
      (before after : List Phase) (p q : Phase) {ws : List Phase} {n : ℕ}
      → ws ≡ before ++ p ∷ after
      → length ws ≡ n
      → length (before ++ q ∷ after) ≡ n
  pool-kept before after p q e l =
      omega
        (arith, ap length e, l, length-append before (p ∷ after), length-append before (q ∷ after))

  Step-Inv : {c : Client} {s t : System W settle} → Step W settle s t → Inv c s → Inv c t
  Step-Inv (deliver s d e) i = record {
    owner = i.owner;
    pool = i.pool;
    conserved = λ p.
        omega
          (arith, i.conserved p, count-append p s.sent (d ∷ []), count-append p s.msgs (d ∷ []));
    settled = i.settled;
  }
  Step-Inv (take s d rest before after e m) i = record {
    owner = i.owner;
    pool = pool-kept before after waiting (handling d) e i.pool;
    conserved = λ p. omega (
      arith,
      i.conserved p,
      ap (λ ws. count p (held ws)) e,
      ap (count p) m,
      count-held p before after waiting,
      count-held p before after (handling d),
    );
    settled = i.settled;
  }
  Step-Inv {c} (finish s d before after e) i = record {
    owner =
        SameOwner-trans c s.client (process_message W settle d s.client s.wire).client i.owner
          (process_message-SameOwner W settle d s.client s.wire);
    pool = pool-kept before after (handling d) waiting e i.pool;
    conserved = λ p. omega (
      arith,
      i.conserved p,
      ap (λ ws. count p (held ws)) e,
      count-held p before after waiting,
      count-held p before after (handling d),
      ap (count p) (delivery_of-append s.processed (process W settle d s.client s.wire ∷ [])),
      count-append p (delivery_of W settle s.processed) (d ∷ []),
    );
    settled = settled-append c s.processed d s.client s.wire i.settled i.owner;
  }
  Step-Inv (leave s before after e x) i = record {
    owner = i.owner;
    pool = pool-kept before after waiting gone e i.pool;
    conserved = λ p. omega (
      arith,
      i.conserved p,
      ap (λ ws. count p (held ws)) e,
      count-held p before after waiting,
      count-held p before after gone,
    );
    settled = i.settled;
  }
  Step-Inv (run_dry s before after e m x) i = record {
    owner = i.owner;
    pool = pool-kept before after waiting gone e i.pool;
    conserved = λ p. omega (
      arith,
      i.conserved p,
      ap (λ ws. count p (held ws)) e,
      count-held p before after waiting,
      count-held p before after gone,
    );
    settled = i.settled;
  }
  Step-Inv {c} (change s c' v o) i = record {
    owner = SameOwner-trans c s.client c' i.owner o;
    pool = i.pool;
    conserved = i.conserved;
    settled = i.settled;
  }
  Step-Inv (stop s) i = record {
    owner = i.owner;
    pool = i.pool;
    conserved = i.conserved;
    settled = i.settled;
  }
  Step-Inv (end s) i = record {
    owner = i.owner;
    pool = i.pool;
    conserved = i.conserved;
    settled = i.settled;
  }

  workers_of-Inv : (n : ℕ) → length (workers_of n) ≡ n
  unfolding workers_of
  workers_of-Inv ℕ.zero = refl
  workers_of-Inv (ℕ.suc n) = ap ℕ.suc (workers_of-Inv n)

  pub idle_held : (n : ℕ) → held (workers_of n) ≡ []
  unfolding workers_of
  idle_held ℕ.zero = refl
  idle_held (ℕ.suc n) = idle_held n

  started-Inv : (c : Client) (v : W.State) → Inv c (started W settle c v)
  unfolding started
  started-Inv c v = record {
    owner = (refl, refl);
    pool = workers_of-Inv (pos_part c.setup.concurrency);
    conserved = λ p. omega (arith, ap (count p) (idle_held (pos_part c.setup.concurrency)));
    settled = tt;
  }

  pub Reach-Inv :
      (c : Client) (v : W.State) {s : System W settle}
      → Reach W settle (started W settle c v) s
      → Inv c s
  Reach-Inv c v here = started-Inv c v
  Reach-Inv c v (next r st) = Step-Inv st (Reach-Inv c v r)

  length-held : (ps : List Phase) → length (held ps) ≤ length ps
  length-held [] = omega arith
  length-held (waiting ∷ ps) = omega (arith, length-held ps)
  length-held (gone ∷ ps) = omega (arith, length-held ps)
  length-held (handling d ∷ ps) = omega (arith, length-held ps)

  -- However the workers, the deliveries and the other goroutines interleave, with as many workers as
  -- the setup's concurrency: every delivery that came over the channel is untaken, at one worker, or
  -- processed, and counted once; no more than the concurrency are at the workers; and once every
  -- worker has returned, so that `consumeMessages` may, each was processed but those that nobody
  -- took. A processed delivery was, by the client's setup and handlers, acked only if its handler
  -- accepted it or the broker had its copy for another try, dead-lettered only if neither was due,
  -- and left without an answer only if another try was due and processing reported an error.
  pub pool_lem :
      (c : Client) (v : W.State) {s : System W settle}
      → Reach W settle (started W settle c v) s
      → ((p : Delivery → Bool)
          → count p s.sent
            ≡ count p (delivery_of W settle s.processed)
              + (count p (held s.workers) + count p s.msgs))
        × AreSettled c s.processed
        × (length (held s.workers) ≤ pos_part c.setup.concurrency)
        × (AreGone s.workers
            → (p : Delivery → Bool)
            → count p s.sent ≡ count p (delivery_of W settle s.processed) + count p s.msgs)
  pool_lem c v {s} r =
      let i = Reach-Inv c v r in
      (
        i.conserved,
        i.settled,
        omega (arith, length-held s.workers, i.pool),
        λ g p. omega (arith, i.conserved p, ap (count p) (held-gone s.workers g)),
      )
