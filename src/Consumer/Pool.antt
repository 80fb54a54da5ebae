-- ===== src/Consumer/Pool.antt =====
-- rabbitmq/consumer.go: the workers that `consumeMessages` starts, side by side on one channel of
-- deliveries. A step is what one of them, or the other side, does between two points where another
-- may run. Other goroutines may change the client and the other side of the socket at any time, but
-- not the client's setup and, since `Start` comes after every registration, not its handlers.
pub mod Owner
pub mod Counts
pub mod InOrder
use gorabbit.Prelude.{
  ℕ, ◌+◌, Bool, true, false, List, [], ◌∷◌, ◌++◌, Option, ◌≡◌, map, if◌then◌else◌,
}
use gorabbit.Prelude.Int.{pos_part}
use gorabbit.Errors.{Error}
use gorabbit.Client.{Client}
use gorabbit.Amqp.{Delivery}
use gorabbit.Wire.{Wire}
use gorabbit.Consumer.Defs.{Settlement, Outcome, process_message}

-- Where a worker stands in `runWorker`: at its select, in `processMessage`, or returned.
pub data Phase : Type 0 where
  waiting gone : Phase
  handling : Delivery → Phase

-- The later client has the setup and the handlers of the first.
abbrev pub SameOwner : Client → Client → Type 0
SameOwner c c' = (c'.setup ≡ c.setup) × (c'.handlers ≡ c.handlers)

-- So many workers at their select.
unfoldable pub workers_of : ℕ → List Phase
workers_of ℕ.zero = []
workers_of (ℕ.suc n) = waiting ∷ workers_of n

module _ (W : Wire) (settle : Settlement → Option Error) where
  -- A delivery that a worker is through with: the client and the other side as `processMessage` found
  -- them, and what it left.
  pub record Processed : Type 0 where
    pub delivery : Delivery
    pub client : Client
    pub wire : W.State
    pub outcome : Outcome W settle

  abbrev pub process : Delivery → Client → W.State → Processed
  process d c v = record {
    delivery = d;
    client = c;
    wire = v;
    outcome = process_message W settle d c v;
  }

  -- The deliveries of the answers.
  abbrev pub delivery_of : List Processed → List Delivery
  delivery_of [] = []
  delivery_of (p ∷ ps) = p.delivery ∷ delivery_of ps

  pub record System : Type 0 where
    -- What came over the channel so far, in order, and what of it no worker has taken.
    pub sent : List Delivery
    pub msgs : List Delivery
    pub workers : List Phase
    -- The deliveries that were processed, in order.
    pub processed : List Processed
    pub client : Client
    pub wire : W.State
    -- The context or the client has ended; the channel of deliveries is closed.
    pub stopped : Bool
    pub ended : Bool

  abbrev at_worker : System → List Phase → Phase → List Phase → System
  at_worker s before p after = record s { workers = before ++ p ∷ after }

  pub data Step : System → System → Type 0 where
    deliver :
        (s : System) (d : Delivery)
        → s.ended ≡ false
        → Step s (record s { sent = s.sent ++ d ∷ []; msgs = s.msgs ++ d ∷ [] })
    take :
        (s : System) (d : Delivery) (rest : List Delivery) (before after : List Phase)
        → s.workers ≡ before ++ waiting ∷ after
        → s.msgs ≡ d ∷ rest
        → Step s (record s { msgs = rest; workers = before ++ handling d ∷ after })
    finish :
        (s : System) (d : Delivery) (before after : List Phase)
        → s.workers ≡ before ++ handling d ∷ after
        → Step s (record s {
          workers = before ++ waiting ∷ after;
          processed = s.processed ++ process d s.client s.wire ∷ [];
          client = (process d s.client s.wire).outcome.client;
          wire = (process d s.client s.wire).outcome.wire;
        })
    change :
        (s : System) (c : Client) (v : W.State)
        → SameOwner s.client c
        → Step s (record s { client = c; wire = v })
    leave :
        (s : System) (before after : List Phase)
        → s.workers ≡ before ++ waiting ∷ after
        → s.stopped ≡ true
        → Step s (at_worker s before gone after)
    run_dry :
        (s : System) (before after : List Phase)
        → s.workers ≡ before ++ waiting ∷ after
        → s.msgs ≡ []
        → s.ended ≡ true
        → Step s (at_worker s before gone after)
    stop : (s : System) → Step s (record s { stopped = true })
    end : (s : System) → Step s (record s { ended = true })

  pub data Reach (s : System) : System → Type 0 where
    here : Reach s s
    next : {t u : System} → Reach s t → Step t u → Reach s u

  -- What `consumeMessages` starts from: as many workers as the setup says, and no delivery yet.
  unfoldable pub started : Client → W.State → System
  unfolding workers_of
  started c v = record {
    sent = [];
    msgs = [];
    workers = workers_of (pos_part c.setup.concurrency);
    processed = [];
    client = c;
    wire = v;
    stopped = false;
    ended = false;
  }

-- The deliveries that the workers are at.
abbrev pub held : List Phase → List Delivery
held [] = []
held (handling d ∷ ps) = d ∷ held ps
held (waiting ∷ ps) = held ps
held (gone ∷ ps) = held ps

-- `workers.Wait()` is over.
abbrev pub AreGone : List Phase → Type 0
AreGone [] = Unit
AreGone (gone ∷ ps) = AreGone ps
AreGone (_ ∷ ps) = ⊥

-- How many of the deliveries pass the test.
abbrev pub count : (Delivery → Bool) → List Delivery → ℕ
count p [] = 0
count p (d ∷ ds) = (if p d then 1 else 0) + count p ds
