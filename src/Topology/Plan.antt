-- ===== src/Topology/Plan.antt =====
-- `applyTopology` carries out a list of declarations until one is refused.
use gorabbit.Prelude.{
  not, Bool, true, false, none, some, List, [], ◌∷◌, ◌++◌, Assoc, codes, if◌then◌else◌, ◌≡◌, refl,
  ap, ap₂, ◌∙◌, Bool-cases, inl, inr,
}
use mathlib.Core.Path.{fun_ext}
use gorabbit.Errors.{Result, ok, err}
use gorabbit.Setup.{Setup}
use gorabbit.Client.{HandlerInfo}
use gorabbit.Amqp.{
  Amqp, resume, resume_assoc, ◌>>◌, return, call, Call, exchange_declare, queue_declare, queue_bind,
  History, Broker,
}
use gorabbit.Topology.Defs.{
  create_topic_exchanges, create_queues, bind_queues, bind_registered_handlers, apply_topology,
  no_args, retry_args,
}

-- The calls of a list in turn, up to the first that is refused.
unfoldable pub run_all : List Call → Amqp (Unit {0})
run_all [] = return tt
run_all (c ∷ cs) = call c >> run_all cs

run_all-append : (cs ds : List Call) → (run_all cs >> run_all ds) ≡ run_all (cs ++ ds)
unfolding run_all
run_all-append [] ds = refl
run_all-append (c ∷ cs) ds = fun_ext λ b. fun_ext λ h.
    resume_assoc (λ _. run_all cs) (λ _. run_all ds) b (call c b h)
    ∙ ap (λ (k : Amqp (Unit {0})). (call c >> k) b h) (run_all-append cs ds)

-- What a client declares, in order: its exchange; a consumer's own exchange, its dead-letter
-- exchange and, with retry, its retry exchange; the queues of the same names; their bindings; and
-- for each handler the exchange it listens to and the binding.
abbrev exchange_plan : Setup → List Call
exchange_plan s =
    exchange_declare s.queue_name
    ∷ exchange_declare s.dlq_name
    ∷ (if s.with_retry then exchange_declare s.retry_name ∷ [] else [])

abbrev queue_plan : Setup → List Call
queue_plan s =
    queue_declare s.dlq_name no_args
    ∷ queue_declare s.queue_name
        (record { dead_letter_exchange = some s.dlq_name; message_ttl = none })
    ∷ (if s.with_retry then queue_declare s.retry_name (retry_args s) ∷ [] else [])

abbrev bind_plan : Setup → List Call
bind_plan s =
    queue_bind s.dlq_name (codes "#") s.dlq_name
    ∷ queue_bind s.queue_name (codes "#") s.queue_name
    ∷ (if s.with_retry then queue_bind s.retry_name (codes "#") s.retry_name ∷ [] else [])

abbrev pub handler_plan : Setup → Assoc HandlerInfo → List Call
handler_plan s [] = []
handler_plan s ((k, hi) ∷ rest) =
    exchange_declare hi.exchange
    ∷ queue_bind s.queue_name hi.binding_key hi.exchange
    ∷ handler_plan s rest

abbrev pub topology_plan : Setup → Assoc HandlerInfo → List Call
topology_plan s handlers =
    exchange_declare s.exchange_name
    ∷ (if not s.is_consumer
        then []
        else exchange_plan s ++ (queue_plan s ++ (bind_plan s ++ handler_plan s handlers)))

-- The computation makes the calls of the list in turn, up to the first that is refused.
record Runs (m : Amqp (Unit {0})) (cs : List Call) : Type 0 where
  ran : m ≡ run_all cs

resume-return : (b : Broker) (r : History × Result (Unit {0})) → r ≡ resume (λ _. return tt) b r
resume-return b (h, ok a) = refl
resume-return b (h, err e) = refl

Runs-call : (c : Call) → Runs (call c) (c ∷ [])
unfolding run_all
Runs-call c = record { ran = fun_ext λ b. fun_ext λ h. resume-return b (call c b h) }

Runs-return : Runs (return tt) []
unfolding run_all
Runs-return = record { ran = refl }

Runs-then :
    {m k : Amqp (Unit {0})} {cs ds : List Call} → Runs m cs → Runs k ds → Runs (m >> k) (cs ++ ds)
Runs-then {cs} {ds} p q = record {
  ran = ap₂ (λ (m k : Amqp (Unit {0})). m >> k) p.ran q.ran ∙ run_all-append cs ds;
}

Runs-if :
    (t : Bool) {m k : Amqp (Unit {0})} {cs ds : List Call}
    → Runs m cs
    → Runs k ds
    → Runs (if t then m else k) (if t then cs else ds)
Runs-if true p q = p
Runs-if false p q = q

bind_registered_handlers-Runs :
    (s : Setup) (hs : Assoc HandlerInfo) → Runs (bind_registered_handlers s hs) (handler_plan s hs)
unfolding bind_registered_handlers
bind_registered_handlers-Runs s [] = Runs-return
bind_registered_handlers-Runs s ((k, hi) ∷ rest) =
    Runs-then (Runs-then (Runs-call _) (Runs-call _)) (bind_registered_handlers-Runs s rest)

create_topic_exchanges-Runs :
    (s : Setup)
    → Runs
        (create_topic_exchanges s)
        (exchange_declare s.exchange_name ∷ (if not s.is_consumer then [] else exchange_plan s))
unfolding create_topic_exchanges
create_topic_exchanges-Runs s = Runs-then (Runs-call _) (
    Runs-if (not s.is_consumer) Runs-return (
      Runs-then (Runs-call _)
        (Runs-then (Runs-call _) (Runs-if s.with_retry (Runs-call _) Runs-return))))

create_queues-Runs : (s : Setup) → Runs (create_queues s) (queue_plan s)
unfolding create_queues
create_queues-Runs s =
    Runs-then (Runs-call _)
      (Runs-then (Runs-call _) (Runs-if s.with_retry (Runs-call _) Runs-return))

bind_queues-Runs : (s : Setup) → Runs (bind_queues s) (bind_plan s)
unfolding bind_queues
bind_queues-Runs s =
    Runs-then (Runs-call _)
      (Runs-then (Runs-call _) (Runs-if s.with_retry (Runs-call _) Runs-return))

plan_regroup :
    (s : Setup) (hs : Assoc HandlerInfo)
    → exchange_declare s.exchange_name
        ∷ ((if not s.is_consumer then [] else exchange_plan s)
            ++ (if not s.is_consumer
                then []
                else queue_plan s ++ (bind_plan s ++ handler_plan s hs)))
      ≡ topology_plan s hs
plan_regroup s hs = elim (Bool-cases s.is_consumer) [ inl e ↦ rw e | inr e ↦ rw e ]

-- `applyTopology` declares the whole plan of the setup and its handlers in order, and nothing
-- else; a refused declaration ends it with that error, and no later one is made.
pub apply_topology-plan :
    (s : Setup) (hs : Assoc HandlerInfo) → apply_topology s hs ≡ run_all (topology_plan s hs)
unfolding apply_topology
apply_topology-plan s hs =
    (Runs-then (create_topic_exchanges-Runs s) (
      Runs-if (not s.is_consumer) Runs-return (
        Runs-then (create_queues-Runs s)
          (Runs-then (bind_queues-Runs s) (bind_registered_handlers-Runs s hs))))).ran
    ∙ ap run_all (plan_regroup s hs)
