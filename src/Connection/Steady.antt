-- ===== src/Connection/Steady.antt =====
-- What `connect` never changes.
use gorabbit.Prelude.{ℕ, Bool, true, false, List, ◌++◌, ◌≡◌, refl, arith, ◌∙◌}
use gorabbit.Errors.{Error, Result, ok, err}
use gorabbit.Client.{Client, BrokerConn}
use gorabbit.Amqp.{Broker, History, Call}
use gorabbit.Topology.{apply_topology}
use gorabbit.Connection.Defs.{
  try_dial, recheck, dial_broker, establish, failed_dial, failed_setup, end_failed_dial,
  end_connect, drop_connection,
}
use gorabbit.Connection.Dial.{after_dial, after_recheck, after_try, connect}

-- The setup, the claim of the key, the mark of `Close` and the flag of the flush are as they were.
pub record IsSteady (c c' : Client) : Type 0 where
  pub setup : c'.setup ≡ c.setup
  pub claimed_key : c'.claimed_key ≡ c.claimed_key
  pub done : c'.done ≡ c.done
  pub flushing : c'.flushing ≡ c.flushing

IsSteady-trans : {a b c : Client} → IsSteady a b → IsSteady b c → IsSteady a c
IsSteady-trans p q = record {
  setup = q.setup ∙ p.setup;
  claimed_key = q.claimed_key ∙ p.claimed_key;
  done = q.done ∙ p.done;
  flushing = q.flushing ∙ p.flushing;
}

IsSteady-refl : {c : Client} → IsSteady c c
IsSteady-refl = record { setup = refl; claimed_key = refl; done = refl; flushing = refl }

try_dial-IsSteady : (f : ℕ → Bool) (c : Client) → IsSteady c (try_dial f c).0
unfolding try_dial
try_dial-IsSteady f c = ground arith

recheck-IsSteady : (f : ℕ → Bool) (c : Client) → IsSteady c (recheck f c).0
unfolding recheck drop_connection
recheck-IsSteady f c = ground arith

end_failed_dial-IsSteady : (e : Error) (c : Client) → IsSteady c (end_failed_dial e c).0
unfolding end_failed_dial failed_dial
end_failed_dial-IsSteady e c = ground arith

end_connect-IsSteady :
    (bc : BrokerConn) (r : Result (Unit {0})) (c : Client) → IsSteady c (end_connect bc r c).0
unfolding end_connect establish failed_setup
end_connect-IsSteady bc (err e) c = ground arith
end_connect-IsSteady bc (ok u) c = ground arith

after_dial-IsSteady :
    (b : Broker) (c : Client) (r : History × Result BrokerConn) → IsSteady c (after_dial b c r).0
after_dial-IsSteady b c (h, err e) = end_failed_dial-IsSteady e c
after_dial-IsSteady b c (h, ok bc) =
    end_connect-IsSteady bc (apply_topology c.setup c.handlers b h).1 c

after_recheck-IsSteady :
    (b : Broker) (h : History) (a : Client) (r : Client × List Call × Result Bool)
    → IsSteady a r.0
    → IsSteady a (after_recheck b h r).0
after_recheck-IsSteady b h a (c, calls, ok true) s =
    IsSteady-trans s (after_dial-IsSteady b c (dial_broker c.setup b (h ++ calls)))
after_recheck-IsSteady b h a (c, calls, ok false) s = s
after_recheck-IsSteady b h a (c, calls, err e) s = s

after_try-IsSteady :
    (f : ℕ → Bool) (b : Broker) (h : History) (a : Client) (r : Client × Result Bool)
    → IsSteady a r.0
    → IsSteady a (after_try f b h r).0
after_try-IsSteady f b h a (c, ok true) s =
    after_recheck-IsSteady b h a (recheck f c) (IsSteady-trans s (recheck-IsSteady f c))
after_try-IsSteady f b h a (c, ok false) s = s
after_try-IsSteady f b h a (c, err e) s = s

-- `connect` never changes the setup, the claim or the mark of `Close`.
pub connect-IsSteady :
    (f : ℕ → Bool) (b : Broker) (c : Client) (h : History) → IsSteady c (connect f b c h).0
unfolding connect
connect-IsSteady f b c h = after_try-IsSteady f b h c (try_dial f c) (try_dial-IsSteady f c)
