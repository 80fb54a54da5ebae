-- ===== src/Samples/Closing.antt =====
-- A client that is closed while a worker has a delivery: in time, and behind the timeout.
use gorabbit.Prelude.{◌+◌, Bool, true, false, [], ◌∷◌, ◌≡◌, ◌≢◌, refl}
use gorabbit.Amqp.{Delivery}
use gorabbit.Client.{new_client}
use gorabbit.Setup.{new_setup, with_consumer, with_retry_policy, with_prefetch_count}
use gorabbit.Consumer.{process_message}
use gorabbit.Consumer.Pool.{
  waiting, handling, deliver, take, finish, started, workers_of, held, count, delivery_of, process,
}
use gorabbit.Consumer.Shutdown.{
  Shop, start, timed_out, wait_for_consumer, to_start, enter, begin, work, close, wait, shut_down,
  draining, shut, consuming, Reach, here, next, unstarted_shop,
}
use gorabbit.Consumer.Pool.Counts.{AreSettled}
use gorabbit.Consumer.Shutdown.Drains.{shutdown_lem, saw_drained}
use gorabbit.Samples.Consuming.{consumer, delivery, no_error}
use gorabbit.Samples.Data.{counter, mailer}

abbrev OneWorker : Type 0
OneWorker = Shop counter no_error

-- The worker has the delivery, and `Close` waits for it.
abbrev waiting_shop : OneWorker
waiting_shop = record {
  pool = record {
    sent = delivery ∷ [];
    msgs = [];
    workers = handling delivery ∷ [];
    processed = [];
    client = consumer;
    wire = 0;
    stopped = true;
    ended = false;
  };
  routine = consuming;
  stage = draining;
  late = false;
}

abbrev Closes : OneWorker → Type 0
Closes s = Reach counter no_error (unstarted_shop counter no_error consumer 0) s

waiting-Reach : Closes waiting_shop
unfolding unstarted_shop started workers_of start consumer new_client mailer new_setup with_consumer
    with_retry_policy with_prefetch_count
waiting-Reach =
    next
      (next
        (next
          (next
            (next (next here (to_start (unstarted_shop counter no_error consumer 0) refl))
              (enter _ refl refl))
            (begin _ refl))
          (work _ _ refl (deliver (started counter no_error consumer 0) delivery refl)))
        (work _ _ refl (take _ delivery [] [] [] refl refl)))
      (close _ refl)

-- The wait ran into its timeout, and the worker answers behind it.
abbrev late_shop : OneWorker
late_shop = record {
  pool = record {
    sent = delivery ∷ [];
    msgs = [];
    workers = waiting ∷ [];
    processed = process counter no_error delivery consumer 0 ∷ [];
    client = (process_message counter no_error delivery consumer 0).client;
    wire = (process_message counter no_error delivery consumer 0).wire;
    stopped = true;
    ended = false;
  };
  routine = consuming;
  stage = shut false;
  late = true;
}

late-Reach : Closes late_shop
unfolding wait_for_consumer
late-Reach =
    next
      (next (next waiting-Reach (wait waiting_shop timed_out false refl refl))
        (shut_down _ false refl))
      (work _ _ refl (finish _ delivery [] [] refl))

shutdown_lem_example :
    (late_shop.late ≡ true → (late_shop.stage ≡ shut false))
    × AreSettled counter no_error consumer late_shop.pool.processed
    × (saw_drained late_shop.stage ≡ true
        → (late_shop.routine ≢ consuming)
          × (held late_shop.pool.workers ≡ [])
          × ((p : Delivery → Bool)
              → count p late_shop.pool.sent
                ≡ count p (delivery_of counter no_error late_shop.pool.processed)
                  + count p late_shop.pool.msgs))
shutdown_lem_example = shutdown_lem counter no_error consumer 0 late-Reach
