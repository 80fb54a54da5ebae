-- ===== src/Connection/Dial.antt =====
-- rabbitmq/rabbitmq.go: `connect`, as its sections follow each other for a caller that nobody
-- interrupts.
use gorabbit.Prelude.{ℕ, Bool, true, List, ◌++◌}
use gorabbit.Errors.{Result, ok, err}
use gorabbit.Client.{Client, BrokerConn}
use gorabbit.Amqp.{Broker, History, Call}
use gorabbit.Topology.{apply_topology}
use gorabbit.Connection.Defs.{try_dial, recheck, dial_broker, end_failed_dial, end_connect}

abbrev pub Outcome : Type 0
Outcome = Client × History × Result Bool

-- The topology is declared, and the answer decides.
abbrev pub after_dial : Broker → Client → History × Result BrokerConn → Outcome
after_dial b c (h, err e) = let (c', r) = end_failed_dial e c in (c', h, r)
after_dial b c (h, ok bc) =
    let (h', topology) = apply_topology c.setup c.handlers b h in
    let (c', calls, r) = end_connect bc topology c in (c', h' ++ calls, r)

abbrev pub after_recheck : Broker → History → Client × List Call × Result Bool → Outcome
after_recheck b h (c, calls, ok true) = after_dial b c (dial_broker c.setup b (h ++ calls))
after_recheck b h (c, calls, r) = (c, h ++ calls, r)

abbrev pub after_try : (ℕ → Bool) → Broker → History → Client × Result Bool → Outcome
after_try is_closed b h (c, ok true) = after_recheck b h (recheck is_closed c)
after_try is_closed b h (c, r) = (c, h, r)

unfoldable pub connect : (ℕ → Bool) → Broker → Client → History → Outcome
connect is_closed b c h = after_try is_closed b h (try_dial is_closed c)
