-- ===== src/Samples/Pooling.antt =====
-- Two workers that share a queue, and one that has it alone.
use gorabbit.Prelude.{◌+◌, ◌≤◌, Bool, true, [], ◌∷◌, ◌++◌, ◌≡◌, refl, length}
use gorabbit.Prelude.Int.{pos, pos_part}
use gorabbit.Client.{Client, new_client}
use gorabbit.Setup.{new_setup, with_consumer, with_retry_policy, with_prefetch_count}
use gorabbit.Amqp.{Delivery}
use gorabbit.Consumer.{process_message}
use gorabbit.Consumer.Pool.{
  System, Reach, here, next, deliver, take, finish, leave, stop, started, workers_of, waiting,
  handling, gone, held, AreGone, count, delivery_of, process,
}
use gorabbit.Consumer.Pool.Counts.{AreSettled, pool_lem}
use gorabbit.Consumer.Pool.InOrder.{in_order_lem}
use gorabbit.Samples.Consuming.{consumer, delivery, no_error}
use gorabbit.Samples.Data.{counter, mailer}

abbrev Pool : Type 0
Pool = System counter no_error

-- The consumer with a concurrency of 2.
abbrev two : Client
two = record consumer { setup = record consumer.setup { concurrency = pos 2 } }

-- One of two workers is at a delivery, and the other has left.
abbrev busy : Pool
busy = record {
  sent = delivery ∷ [];
  msgs = [];
  workers = gone ∷ handling delivery ∷ [];
  processed = [];
  client = two;
  wire = 0;
  stopped = true;
  ended = Bool.false;
}

busy-Reach : Reach counter no_error (started counter no_error two 0) busy
unfolding started workers_of
busy-Reach =
    next
      (next
        (next (next here (deliver (started counter no_error two 0) delivery refl))
          (take _ delivery [] (waiting ∷ []) [] refl refl))
        (stop _))
      (leave _ [] (handling delivery ∷ []) refl refl)

pool_lem_example :
    ((p : Delivery → Bool)
      → count p busy.sent
        ≡ count p (delivery_of counter no_error busy.processed)
          + (count p (held busy.workers) + count p busy.msgs))
    × AreSettled counter no_error two busy.processed
    × (length (held busy.workers) ≤ pos_part two.setup.concurrency)
    × (AreGone busy.workers
        → (p : Delivery → Bool)
        → count p busy.sent
          ≡ count p (delivery_of counter no_error busy.processed) + count p busy.msgs)
pool_lem_example = pool_lem counter no_error two 0 busy-Reach

-- The one worker has answered the first of two deliveries.
abbrev halfway : Pool
halfway = record {
  sent = delivery ∷ delivery ∷ [];
  msgs = delivery ∷ [];
  workers = waiting ∷ [];
  processed = process counter no_error delivery consumer 0 ∷ [];
  client = (process_message counter no_error delivery consumer 0).client;
  wire = (process_message counter no_error delivery consumer 0).wire;
  stopped = Bool.false;
  ended = Bool.false;
}

halfway-Reach : Reach counter no_error (started counter no_error consumer 0) halfway
unfolding started workers_of consumer new_client mailer new_setup with_consumer with_retry_policy
    with_prefetch_count
halfway-Reach =
    next
      (next
        (next (next here (deliver (started counter no_error consumer 0) delivery refl))
          (deliver _ delivery refl))
        (take _ delivery (delivery ∷ []) [] [] refl refl))
      (finish _ delivery [] [] refl)

in_order_lem_example :
    halfway.sent
    ≡ delivery_of counter no_error halfway.processed ++ (held halfway.workers ++ halfway.msgs)
unfolding consumer new_client mailer new_setup with_consumer with_retry_policy with_prefetch_count
in_order_lem_example = in_order_lem counter no_error consumer 0 refl halfway-Reach
