-- ===== src/Consumer/Pool/InOrder.antt =====
-- One worker keeps the order of the queue.
use gorabbit.Prelude.{
  List, [], ◌∷◌, ◌++◌, Option, ◌≡◌, refl, sym, ap, ◌∙◌, arith, length, append_assoc, length-append,
}
use gorabbit.Prelude.Int.{pos, pos_part}
use gorabbit.Errors.{Error}
use gorabbit.Client.{Client}
use gorabbit.Wire.{Wire}
use gorabbit.Consumer.Defs.{Settlement}
use gorabbit.Consumer.Pool.{
  Phase, waiting, gone, handling, workers_of, System, Step, deliver, take, finish, leave, run_dry,
  stop, end, Reach, here, next, started, held, delivery_of, process, change,
}
use gorabbit.Consumer.Pool.Counts.{delivery_of-append}

same_head : {p q : Phase} {ps qs : List Phase} → p ∷ ps ≡ q ∷ qs → p ≡ q
same_head e = cc

same_tail : {p q : Phase} {ps qs : List Phase} → p ∷ ps ≡ q ∷ qs → ps ≡ qs
same_tail e = cc

-- The place in a list of one is its only one.
only :
    (before after : List Phase) (w p q : Phase)
    → w ∷ [] ≡ before ++ p ∷ after
    → (before ++ q ∷ after ≡ q ∷ []) × (w ≡ p)
only [] after w p q e = (ap (λ ps. q ∷ ps) (sym (same_tail e)), same_head e)
only (b ∷ before) after w p q e =
    absurd (omega (arith, ap length (same_tail e), length-append before (p ∷ after)))

module _ (W : Wire) (settle : Settlement → Option Error) where
  record InOrder (s : System W settle) : Type 0 where
    worker : Phase
    alone : s.workers ≡ worker ∷ []
    order : s.sent ≡ delivery_of W settle s.processed ++ (held (worker ∷ []) ++ s.msgs)

  -- The worker goes on, and the deliveries stay in their order.
  moved :
      (s t : System W settle) (before after : List Phase) (p q : Phase)
      → InOrder s
      → s.workers ≡ before ++ p ∷ after
      → t.workers ≡ before ++ q ∷ after
      → t.sent ≡ s.sent
      → delivery_of W settle s.processed ++ (held (p ∷ []) ++ s.msgs)
        ≡ delivery_of W settle t.processed ++ (held (q ∷ []) ++ t.msgs)
      → InOrder t
  moved s t before after p q i e f n o =
      let (single, same) = only before after i.worker p q (sym i.alone ∙ e) in
      record {
        worker = q;
        alone = f ∙ single;
        order =
            n
            ∙ i.order
            ∙ ap (λ w. delivery_of W settle s.processed ++ (held (w ∷ []) ++ s.msgs)) same
            ∙ o;
      }

  Step-InOrder : {s t : System W settle} → Step W settle s t → InOrder s → InOrder t
  Step-InOrder (deliver s d e) i = record {
    worker = i.worker;
    alone = i.alone;
    order =
        ap (λ ds. ds ++ d ∷ []) i.order
        ∙ append_assoc (delivery_of W settle s.processed) (held (i.worker ∷ []) ++ s.msgs) (d ∷ [])
        ∙ ap (λ ds. delivery_of W settle s.processed ++ ds)
            (append_assoc (held (i.worker ∷ [])) s.msgs (d ∷ []));
  }
  Step-InOrder (take s d rest before after e m) i =
      moved s _ before after waiting (handling d) i e refl refl
        (ap (λ ds. delivery_of W settle s.processed ++ ds) m)
  Step-InOrder (finish s d before after e) i =
      moved s _ before after (handling d) waiting i e refl refl (
        sym (append_assoc (delivery_of W settle s.processed) (d ∷ []) s.msgs)
        ∙ ap (λ ds. ds ++ s.msgs)
            (sym
              (delivery_of-append W settle s.processed (process W settle d s.client s.wire ∷ []))))
  Step-InOrder (leave s before after e x) i = moved s _ before after waiting gone i e refl refl refl
  Step-InOrder (run_dry s before after e m x) i =
      moved s _ before after waiting gone i e refl refl refl
  Step-InOrder (change s c v o) i = record { worker = i.worker; alone = i.alone; order = i.order }
  Step-InOrder (stop s) i = record { worker = i.worker; alone = i.alone; order = i.order }
  Step-InOrder (end s) i = record { worker = i.worker; alone = i.alone; order = i.order }

  both :
      (c : Client) (v : W.State) {s : System W settle}
      → c.setup.concurrency ≡ pos 1
      → Reach W settle (started W settle c v) s
      → InOrder s
  unfolding started workers_of
  both c v e here = record {
    worker = waiting;
    alone = ap (λ n. workers_of (pos_part n)) e;
    order = refl;
  }
  both c v e (next r st) = Step-InOrder st (both c v e r)

  -- With a concurrency of 1, whatever the order of the steps: the deliveries that were processed, in
  -- the order in which they were, the one in hand, and those not yet taken are what came over the
  -- channel, in its order.
  pub in_order_lem :
      (c : Client) (v : W.State) {s : System W settle}
      → c.setup.concurrency ≡ pos 1
      → Reach W settle (started W settle c v) s
      → s.sent ≡ delivery_of W settle s.processed ++ (held s.workers ++ s.msgs)
  in_order_lem c v {s} e r =
      let i = both c v e r in
      i.order ∙ ap (λ ws. delivery_of W settle s.processed ++ (held ws ++ s.msgs)) (sym i.alone)
