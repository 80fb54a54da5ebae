-- ===== src/Connection/Connect.antt =====
-- What `connect` leaves behind, and what it answers.
use gorabbit.Prelude.{
  ℕ, Bool, true, false, none, some, List, [], ◌∷◌, ◌++◌, ◌≡◌, refl, inl, inr, arith, Bool-cases,
  Assoc, if◌then◌else◌, ◌&&◌, ap, length,
}
use gorabbit.Errors.{Error, Result, ok, err, topology_rejected, client_closed, amqp}
use gorabbit.Client.{Client, BrokerConn, HandlerInfo}
use gorabbit.Prelude.Int.{is_positive}
use gorabbit.Setup.{Setup}
use gorabbit.Amqp.{
  Broker, History, Call, call, open_call, closing, return, qos, confirm_mode, open_channel,
  close_connection, ◌>>=◌, ◌>>◌,
}
use gorabbit.Amqp.Foreign.{
  IsForeign, call-IsForeign, resume-IsForeign, open_call-IsForeign, closing-IsForeign,
}
use gorabbit.Topology.Plan.{run_all, topology_plan, apply_topology-plan}
use gorabbit.Topology.{apply_topology}
use gorabbit.Connection.Defs.{
  connected, open_conn, try_dial, recheck, dial_broker, dial_call, open_channels, set_prefetch,
  end_failed_dial, end_connect, pending_err, rejected_topology,
}
use gorabbit.Connection.Dialled.{numbered, dial_broker-ok}
use gorabbit.Connection.Dial.{after_dial, connect}

-- The client has the four parts of this connection, or none.
abbrev pub Holds : Client → BrokerConn → Type 0
Holds c bc =
    (c.conn ≡ some bc.conn)
    × (c.ch ≡ some bc.ch)
    × (c.pub_ch ≡ some bc.pub_ch)
    × (c.returns ≡ some bc.returns)

abbrev pub HoldsNothing : Client → Type 0
HoldsNothing c =
    (c.conn ≡ none)
    × (c.ch ≡ none)
    × (c.pub_ch ≡ none)
    × (c.returns ≡ none)
    × (c.is_connected ≡ false)

-- What a connection attempt that was made leaves, by its answer: `dialled` is what `dial` handed out,
-- and `n` the place of its first call in the history.
abbrev pub Left : Result BrokerConn → ℕ → Client → Result Bool → Type 0
Left dialled n c (ok true) =
    (dialled ≡ ok (numbered n))
    × Holds c (numbered n)
    × (c.is_connected ≡ true)
    × (c.setup_err ≡ none)
Left dialled n c (ok false) = ⊥
Left dialled n c (err (topology_rejected e)) =
    HoldsNothing c × (c.setup_err ≡ some (topology_rejected e)) × (rejected_topology e ≡ true)
Left dialled n c (err e) = HoldsNothing c × (c.setup_err ≡ none)

run_all-IsForeign : (cs : List Call) (b : Broker) (h : History) → IsForeign (run_all cs b h).1
unfolding run_all
run_all-IsForeign [] b h = tt
run_all-IsForeign (c ∷ cs) b h =
    resume-IsForeign (λ _. run_all cs) b (call c b h) (call-IsForeign c b h)
      (λ _ h'. run_all-IsForeign cs b h')

apply_topology-IsForeign :
    (s : Setup) (hs : Assoc HandlerInfo) (b : Broker) (h : History)
    → IsForeign (apply_topology s hs b h).1
apply_topology-IsForeign s hs b h =
    rw (apply_topology-plan s hs) (run_all-IsForeign (topology_plan s hs) b h)

set_prefetch-IsForeign :
    (s : Setup) (bc : BrokerConn) (b : Broker) (h : History) → IsForeign (set_prefetch s bc b h).1
unfolding set_prefetch
set_prefetch-IsForeign s bc b h =
    elim (Bool-cases (s.is_consumer && is_positive s.pre_fetch_count)) [
      | inl e ↦ rw e (
          resume-IsForeign (λ _. return bc) b (call (qos s.pre_fetch_count) b h)
            (call-IsForeign (qos s.pre_fetch_count) b h) (λ _ h'. tt))
      | inr e ↦ rw e tt
    ]

open_channels-IsForeign :
    (s : Setup) (conn : ℕ) (b : Broker) (h : History) → IsForeign (open_channels s conn b h).1
unfolding open_channels
open_channels-IsForeign s conn b h =
    let bc = λ (ch pub_ch : ℕ).
      let r : BrokerConn = record { conn = conn; ch = ch; pub_ch = pub_ch; returns = pub_ch } in
      r in
    let confirmed = λ (ch pub_ch : ℕ). call confirm_mode >> set_prefetch s (bc ch pub_ch) in
    let second = λ (ch : ℕ). open_call open_channel >>= confirmed ch in
    resume-IsForeign second b (open_call open_channel b h) (open_call-IsForeign open_channel b h)
      λ ch h'.
        resume-IsForeign (confirmed ch) b (open_call open_channel b h')
          (open_call-IsForeign open_channel b h')
          λ pub_ch h''.
            resume-IsForeign (λ _. set_prefetch s (bc ch pub_ch)) b (call confirm_mode b h'')
              (call-IsForeign confirm_mode b h'')
              (λ _ k. set_prefetch-IsForeign s (bc ch pub_ch) b k)

dial_broker-IsForeign : (s : Setup) (b : Broker) (h : History) → IsForeign (dial_broker s b h).1
unfolding dial_broker
dial_broker-IsForeign s b h =
    resume-IsForeign (λ conn. closing (open_channels s conn)) b (open_call (dial_call s) b h)
      (open_call-IsForeign (dial_call s) b h)
      (λ conn h'.
        closing-IsForeign (open_channels s conn) b h' (open_channels-IsForeign s conn b h'))

-- The end of a connection attempt that finds the client without a connection and not closed.
end_failed_dial-Left :
    (e : Error) (c : Client) (n : ℕ)
    → IsForeign {A = BrokerConn} (err e)
    → HoldsNothing c
    → Left (err e) n (end_failed_dial e c).0 (end_failed_dial e c).1
unfolding end_failed_dial
end_failed_dial-Left (amqp e) c n f h = (h, refl)
end_failed_dial-Left _ c n f h = absurd f

end_connect-Left :
    (bc : BrokerConn) (t : Result (Unit {0})) (c : Client) (n : ℕ)
    → IsForeign t
    → HoldsNothing c
    → c.done ≡ false
    → bc ≡ numbered n
    → Left (ok bc) n (end_connect bc t c).0 (end_connect bc t c).2
unfolding end_connect
end_connect-Left bc (ok _) c n f h d e = rw d (
  ap ok e,
  (
    ap (λ (x : BrokerConn). some x.conn) e,
    ap (λ (x : BrokerConn). some x.ch) e,
    ap (λ (x : BrokerConn). some x.pub_ch) e,
    ap (λ (x : BrokerConn). some x.returns) e,
  ),
  refl,
  refl,
)
end_connect-Left bc (err (amqp e)) c n f h d q = elim (Bool-cases (rejected_topology (amqp e))) [
  | inl r ↦ rw r (h, refl, r)
  | inr r ↦ rw r (h, refl)
]
end_connect-Left bc (err _) c n f h d q = absurd f

after_dial-Left :
    (b : Broker) (c : Client) (n : ℕ) (r : History × Result BrokerConn)
    → IsForeign r.1
    → HoldsNothing c
    → c.done ≡ false
    → ((bc : BrokerConn) → r.1 ≡ ok bc → bc ≡ numbered n)
    → Left r.1 n (after_dial b c r).0 (after_dial b c r).2
after_dial-Left b c n (h, err e) f none_held d q = end_failed_dial-Left e c n f none_held
after_dial-Left b c n (h, ok bc) f none_held d q =
    let t = apply_topology c.setup c.handlers b h in
    end_connect-Left bc t.1 c n (apply_topology-IsForeign c.setup c.handlers b h) none_held d
      (q bc refl)

end_connect-dialing :
    (bc : BrokerConn) (t : Result (Unit {0})) (c : Client) → (end_connect bc t c).0.dialing ≡ false
unfolding end_connect
end_connect-dialing bc (ok _) c = ground arith
end_connect-dialing bc (err e) c = ground arith

after_dial-dialing :
    (b : Broker) (c : Client) (r : History × Result BrokerConn)
    → (after_dial b c r).0.dialing ≡ false
unfolding end_failed_dial
after_dial-dialing b c (h, err e) = refl
after_dial-dialing b c (h, ok bc) =
    end_connect-dialing bc (apply_topology c.setup c.handlers b h).1 c

-- The client as it dials: it holds the flag and nothing of the last connection.
abbrev pub dialling : Client → Client
dialling c = record c {
  conn = none;
  ch = none;
  pub_ch = none;
  returns = none;
  is_connected = false;
  dialing = true;
}

pub try_dial_goes :
    (is_closed : ℕ → Bool) (c : Client)
    → c.done ≡ false
    → connected is_closed c ≡ false
    → c.dialing ≡ false
    → try_dial is_closed c ≡ (record c { dialing = true }, ok true)
unfolding try_dial
try_dial_goes is_closed c d l f = ground arith

pub recheck_goes :
    (is_closed : ℕ → Bool) (c : Client)
    → connected is_closed c ≡ false
    → recheck is_closed (record c { dialing = true })
      ≡ (dialling c, if open_conn is_closed c.conn then close_connection ∷ [] else [], ok true)
unfolding recheck
recheck_goes is_closed c l = ground arith

-- The history as the client dials: the connection that it still held open is closed first.
abbrev pub dropped : (ℕ → Bool) → Client → History → History
dropped is_closed c h = h ++ (if open_conn is_closed c.conn then close_connection ∷ [] else [])

pub connect_attempt :
    (is_closed : ℕ → Bool) (b : Broker) (c : Client) (h : History)
    → c.done ≡ false
    → connected is_closed c ≡ false
    → c.dialing ≡ false
    → connect is_closed b c h
      ≡ after_dial b (dialling c) (dial_broker c.setup b (dropped is_closed c h))
unfolding connect
connect_attempt is_closed b c h d l f =
    rw (try_dial_goes is_closed c d l f, recheck_goes is_closed c l) refl

-- The answers of `connect`. A closed client and one with a dial in flight answer at once with an
-- error (of the last refused topology, if there is one) and change nothing; a connected client
-- answers false. Otherwise the attempt is made and the flag of the dial is given back. If the answer
-- is true, the client is connected, and holds what this very dial handed out, which is named by the
-- places of its calls: the connection, the channel of the consumer, and the publish channel, with
-- the tracker of the returns on it. Else it holds nothing, and a topology that the broker refuses is
-- kept for those who skip the dial, any other failure is not.
pub connect_lem :
    (is_closed : ℕ → Bool) (b : Broker) (c : Client) (h : History)
    → let (c', h', r) = connect is_closed b c h in
      (c.done ≡ true → (c' ≡ c) × (r ≡ err client_closed))
      × (c.done ≡ false → connected is_closed c ≡ true → (c' ≡ c) × (r ≡ ok false))
      × (c.done ≡ false
          → connected is_closed c ≡ false
          → c.dialing ≡ true
          → (c' ≡ c) × (r ≡ err (pending_err is_closed c)))
      × (c.done ≡ false
          → connected is_closed c ≡ false
          → c.dialing ≡ false
          → let start = dropped is_closed c h in
            Left (dial_broker c.setup b start).1 (length start) c' r × (c'.dialing ≡ false))
unfolding connect try_dial recheck
connect_lem is_closed b c h = (
  λ d. rw d (refl, refl),
  λ d l. rw (d, l) (refl, refl),
  λ d l f. rw (d, l, f) (refl, refl),
  λ d l f.
      let start = dropped is_closed c h in
      rw (connect_attempt is_closed b c h d l f) (
        after_dial-Left b (dialling c) (length start) (dial_broker c.setup b start)
            (dial_broker-IsForeign c.setup b start) (refl, refl, refl, refl, refl) d
            (λ bc e. dial_broker-ok c.setup b start e),
        after_dial-dialing b (dialling c) (dial_broker c.setup b start),
      ),
)
