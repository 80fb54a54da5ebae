-- ===== src/Connection/Accepted.antt =====
-- What `connect` does over a broker that accepts every call.
use gorabbit.Prelude.{
  ℕ, ◌≤◌, Bool, true, false, some, List, [], ◌∷◌, ◌++◌, ◌≡◌, refl, sym, inl, inr, arith, Bool-cases,
  Assoc, if◌then◌else◌, ◌&&◌, length, length-append,
}
use gorabbit.Prelude.Int.{is_positive}
use gorabbit.Errors.{Result, ok, err}
use gorabbit.Setup.{Setup}
use gorabbit.Client.{Client, BrokerConn, HandlerInfo}
use gorabbit.Amqp.{
  Broker, History, Call, call, open_call, closing, return, qos, confirm_mode, open_channel,
  close_connection, ◌>>=◌, ◌>>◌,
}
use gorabbit.Amqp.Accepting.{
  IsAccepting, Yields, Anything, resume-Yields, call-Yields, open_call-Yields, closing-Yields,
}
use gorabbit.Topology.{apply_topology}
use gorabbit.Topology.Plan.{run_all, topology_plan, apply_topology-plan}
use gorabbit.Connection.Defs.{
  connected, open_conn, dial_broker, dial_call, open_channels, set_prefetch, end_connect,
}
use gorabbit.Connection.Dial.{after_dial, connect}
use gorabbit.Connection.Connect.{try_dial_goes, recheck_goes, dialling}

run_all-Yields :
    (cs : List Call) (b : Broker) (h : History) → IsAccepting b → Yields Anything (run_all cs b h).1
unfolding run_all
run_all-Yields [] b h a = tt
run_all-Yields (c ∷ cs) b h a =
    resume-Yields Anything Anything (λ _. run_all cs) b (call c b h) (call-Yields c b h a)
      (λ _ k _. run_all-Yields cs b k a)

apply_topology-Yields :
    (s : Setup) (hs : Assoc HandlerInfo) (b : Broker) (h : History)
    → IsAccepting b
    → Yields Anything (apply_topology s hs b h).1
apply_topology-Yields s hs b h a =
    rw (apply_topology-plan s hs) (run_all-Yields (topology_plan s hs) b h a)

-- The parts of the connection with this name.
abbrev On : ℕ → BrokerConn → Type 0
On n bc = bc.conn ≡ n

set_prefetch-Yields :
    (s : Setup) (bc : BrokerConn) (b : Broker) (h : History)
    → IsAccepting b
    → Yields (On bc.conn) (set_prefetch s bc b h).1
unfolding set_prefetch
set_prefetch-Yields s bc b h a =
    elim (Bool-cases (s.is_consumer && is_positive s.pre_fetch_count)) [
      | inl e ↦ rw e (
          resume-Yields Anything (On bc.conn) (λ _. return bc) b (call (qos s.pre_fetch_count) b h)
            (call-Yields (qos s.pre_fetch_count) b h a) (λ _ k _. refl))
      | inr e ↦ rw e refl
    ]

open_channels-Yields :
    (s : Setup) (conn : ℕ) (b : Broker) (h : History)
    → IsAccepting b
    → Yields (On conn) (open_channels s conn b h).1
unfolding open_channels
open_channels-Yields s conn b h a =
    let bc = λ (ch pub_ch : ℕ).
      let r : BrokerConn = record { conn = conn; ch = ch; pub_ch = pub_ch; returns = pub_ch } in
      r in
    let confirmed = λ (ch pub_ch : ℕ). call confirm_mode >> set_prefetch s (bc ch pub_ch) in
    let second = λ (ch : ℕ). open_call open_channel >>= confirmed ch in
    resume-Yields (λ n. n ≡ length h) (On conn) second b (open_call open_channel b h)
      (open_call-Yields open_channel b h a)
      λ ch h' p.
        resume-Yields (λ n. n ≡ length h') (On conn) (confirmed ch) b (open_call open_channel b h')
          (open_call-Yields open_channel b h' a)
          λ pub_ch h'' q.
            resume-Yields Anything (On conn) (λ _. set_prefetch s (bc ch pub_ch)) b
              (call confirm_mode b h'') (call-Yields confirm_mode b h'' a)
              (λ _ k _. set_prefetch-Yields s (bc ch pub_ch) b k a)

dial_broker-Yields :
    (s : Setup) (b : Broker) (h : History)
    → IsAccepting b
    → Yields (On (length h)) (dial_broker s b h).1
unfolding dial_broker
dial_broker-Yields s b h a =
    resume-Yields (λ n. n ≡ length h) (On (length h)) (λ conn. closing (open_channels s conn)) b
      (open_call (dial_call s) b h) (open_call-Yields (dial_call s) b h a)
      (λ conn k p.
        rw (sym p)
          (closing-Yields (On conn) (open_channels s conn) b k (open_channels-Yields s conn b k a)))

-- The client is on the connection with this name, and `connect` says that it brought it up.
pub record IsUp (n : ℕ) (r : Client × History × Result Bool) : Type 0 where
  pub on : r.0.conn ≡ some n
  pub up : r.0.is_connected ≡ true
  pub publishes : (ch : ℕ) × (r.0.pub_ch ≡ some ch)
  pub tracks : (k : ℕ) × (r.0.returns ≡ some k)
  pub answer : r.2 ≡ ok true

end_connect-IsUp :
    (bc : BrokerConn) (t : Result (Unit {0})) (c : Client) (h : History)
    → Yields Anything t
    → c.done ≡ false
    → let (c', calls, r) = end_connect bc t c in IsUp bc.conn (c', h ++ calls, r)
unfolding end_connect
end_connect-IsUp bc (err e) c h y d = absurd y
end_connect-IsUp bc (ok _) c h y d = rw d (record {
  on = refl;
  up = refl;
  publishes = (bc.pub_ch, refl);
  tracks = (bc.returns, refl);
  answer = refl;
})

after_dial-IsUp :
    (n : ℕ) (b : Broker) (c : Client) (r : History × Result BrokerConn)
    → IsAccepting b
    → Yields (On n) r.1
    → c.done ≡ false
    → IsUp n (after_dial b c r)
after_dial-IsUp n b c (h, err e) a y d = absurd y
after_dial-IsUp n b c (h, ok bc) a y d = rw (sym y) (
    end_connect-IsUp bc (apply_topology c.setup c.handlers b h).1 c
      (apply_topology c.setup c.handlers b h).0 (apply_topology-Yields c.setup c.handlers b h a) d)

pub connect-IsUp :
    (is_closed : ℕ → Bool) (b : Broker) (c : Client) (h : History)
    → IsAccepting b
    → c.done ≡ false
    → connected is_closed c ≡ false
    → c.dialing ≡ false
    → (n : ℕ) × (length h ≤ n) × IsUp n (connect is_closed b c h)
unfolding connect
connect-IsUp is_closed b c h a d l f =
    let calls : List Call = if open_conn is_closed c.conn then close_connection ∷ [] else [] in
    (
      length (h ++ calls),
      omega (arith, length-append h calls),
      rw (try_dial_goes is_closed c d l f, recheck_goes is_closed c l)
          (after_dial-IsUp (length (h ++ calls)) b (dialling c) (dial_broker c.setup b (h ++ calls))
            a (dial_broker-Yields c.setup b (h ++ calls) a) d),
    )
