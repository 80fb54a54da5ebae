-- ===== src/Consumer/Shutdown.antt =====
-- rabbitmq/rabbitmq.go: `Start`, `Close` and `waitForConsumer`, against the goroutine of `consume`
-- and its workers. A step is what one goroutine does between two points where another may run.
pub mod Drains
pub mod Ends
use gorabbit.Prelude.{ℕ, Bool, true, false, ◌||◌, ◌&&◌, Option, none, some, ◌≡◌, if◌then◌else◌}
use gorabbit.Errors.{Error}
use gorabbit.Client.{Client}
use gorabbit.Setup.{Setup}
use gorabbit.Wire.{Wire}
use gorabbit.Consumer.Defs.{Settlement}
use gorabbit.Consumer.Pool.{
  System, deliver, take, finish, leave, run_dry, stop, end, change, started, AreGone, SameOwner,
}
use gorabbit.Consumer.Pool

-- The goroutine of `consume`: not started, in its loop, behind a select that found neither the
-- context nor the client ended, inside `consumeMessages`, returned.
pub data Routine : Type 0 where
  unstarted looping entering consuming over : Routine

-- `Close`: not called, in `waitForConsumer`, behind it, and with the channels and the connection
-- closed; `true` where the consumer had drained, `false` where the wait ran into its timeout.
pub data Stage : Type 0 where
  opened draining : Stage
  past shut : Bool → Stage

-- `Start`, which is called once; the goroutine of `unbindUnusedBindings` is in Subscribe.
unfoldable pub start : Setup → Routine → Routine
start s r = if s.is_consumer then looping else r

-- What the select of `waitForConsumer` takes.
pub data Wait : Type 0 where
  drained timed_out : Wait

-- `waitForConsumer`, and whether the consumer had drained; `none` while the select cannot take the
-- case, since the wait group is not at zero.
unfoldable pub wait_for_consumer : Wait → Routine → Option Bool
wait_for_consumer timed_out r = some false
wait_for_consumer drained unstarted = some true
wait_for_consumer drained over = some true
wait_for_consumer drained looping = none
wait_for_consumer drained entering = none
wait_for_consumer drained consuming = none

-- The channels are closed.
abbrev pub is_shut : Stage → Bool
is_shut opened = false
is_shut draining = false
is_shut (past b) = false
is_shut (shut b) = true

module _ (W : Wire) (settle : Settlement → Option Error) where
  pub record Shop : Type 0 where
    -- The client, and the workers of the last `consumeMessages`; `stopped` is the end of the context
    -- or the client.
    pub pool : System W settle
    pub routine : Routine
    pub stage : Stage
    -- A delivery was processed to its end behind the close of the channels by `Close`.
    pub late : Bool

  -- The step processes a delivery to its end.
  abbrev pub answers : {p q : System W settle} → Pool.Step W settle p q → Bool
  answers (deliver s d e) = false
  answers (take s d rest before after e m) = false
  answers (finish s d before after e) = true
  answers (change s c v o) = false
  answers (leave s before after e x) = false
  answers (run_dry s before after e m x) = false
  answers (stop s) = false
  answers (end s) = false

  pub data Step : Shop → Shop → Type 0 where
    to_start :
        (s : Shop)
        → s.routine ≡ unstarted
        → Step s (record s { routine = start s.pool.client.setup s.routine })
    cancel : (s : Shop) → Step s (record s { pool = record s.pool { stopped = true } })
    -- Other goroutines, at any time.
    elsewhere :
        (s : Shop) (c : Client) (v : W.State)
        → SameOwner s.pool.client c
        → Step s (record s { pool = record s.pool { client = c; wire = v } })
    -- The default of `consume`'s select.
    enter :
        (s : Shop)
        → s.routine ≡ looping
        → s.pool.stopped ≡ false
        → Step s (record s { routine = entering })
    -- The client is connected, and `Consume` was answered; the client may have ended meanwhile.
    begin :
        (s : Shop)
        → s.routine ≡ entering
        → Step s (record s {
          pool = record (started W settle s.pool.client s.pool.wire) { stopped = s.pool.stopped };
          routine = consuming;
        })
    -- Without a connection, or with an error of `Consume`.
    refused : (s : Shop) → s.routine ≡ entering → Step s (record s { routine = looping })
    work :
        (s : Shop) (p : System W settle)
        → s.routine ≡ consuming
        → (w : Pool.Step W settle s.pool p)
        → Step s (record s { pool = p; late = s.late || (is_shut s.stage && answers w) })
    -- `workers.Wait()` is over.
    come_back :
        (s : Shop)
        → s.routine ≡ consuming
        → AreGone s.pool.workers
        → Step s (record s { routine = looping })
    finished :
        (s : Shop)
        → s.routine ≡ looping
        → s.pool.stopped ≡ true
        → Step s (record s { routine = over })
    -- `close(c.done)` and `cancelConsumer`.
    close :
        (s : Shop)
        → s.stage ≡ opened
        → Step s (record s { pool = record s.pool { stopped = true }; stage = draining })
    wait :
        (s : Shop) (w : Wait) (b : Bool)
        → s.stage ≡ draining
        → wait_for_consumer w s.routine ≡ some b
        → Step s (record s { stage = past b })
    shut_down : (s : Shop) (b : Bool) → s.stage ≡ past b → Step s (record s { stage = shut b })

  pub data Reach (s : Shop) : Shop → Type 0 where
    here : Reach s s
    next : {t u : Shop} → Reach s t → Step t u → Reach s u

  -- A client that is not started.
  unfoldable pub unstarted_shop : Client → W.State → Shop
  unfolding started
  unstarted_shop c v = record {
    pool = started W settle c v;
    routine = unstarted;
    stage = opened;
    late = false;
  }
