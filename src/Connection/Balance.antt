-- ===== src/Connection/Balance.antt =====
-- `connect` loses no connection: each one that the broker gave it is closed or is the client's.
use gorabbit.Amqp.Balance.{
  accepted, Balance, Balance-refl, Balance-trans, Balance-frame, Balance-close, call-Balance,
  resume-Balance, IsPlain, ArePlain,
}
use gorabbit.Prelude.{
  ℕ, Bool, true, false, List, [], ◌∷◌, ◌++◌, ◌≡◌, ◌≢◌, refl, none, some, ap, inl, inr, arith,
  Bool-cases, Option-cases, Assoc, if◌then◌else◌, ◌&&◌, ◌||◌, append-nil, length,
}
use gorabbit.Errors.{Result, ok, err, topology_rejected}
use gorabbit.Client.{Client, BrokerConn, HandlerInfo}
use gorabbit.Prelude.Int.{is_positive}
use gorabbit.Setup.{Setup}
use gorabbit.Amqp.{
  Broker, History, Call, call, open_call, closing, close_on_error, return, resume, dial, qos,
  confirm_mode, open_channel, close_connection, ◌>>=◌, ◌>>◌,
}
use gorabbit.Topology.Plan.{run_all, topology_plan, handler_plan, apply_topology-plan}
use gorabbit.Topology.{apply_topology}
use gorabbit.Connection.Defs.{
  connected, open_conn, try_dial, dial_broker, dial_call, open_channels, set_prefetch,
  end_failed_dial, end_connect,
}
use gorabbit.Connection.Connect.{dialling, connect_attempt, dropped, Left, connect_lem}
use gorabbit.Connection.Dial.{after_dial, connect}

abbrev pub one_if : Bool → ℕ
one_if true = 1
one_if false = 0

abbrev pub one_if_ok : Result Bool → ℕ
one_if_ok (ok b) = one_if b
one_if_ok (err e) = 0

IsPlain-cons : (c : Call) (cs : List Call) → ArePlain (c ∷ cs) → IsPlain c × ArePlain cs
IsPlain-cons (dial u n t) cs p = absurd p
IsPlain-cons close_connection cs p = absurd p
IsPlain-cons _ cs p = (tt, p)

run_all-Balance :
    (cs : List Call) (b : Broker) (h : History) → ArePlain cs → Balance b h (run_all cs b h).0 0 0
unfolding run_all
run_all-Balance [] b h p = Balance-refl
run_all-Balance (c ∷ cs) b h p =
    let (head, rest) = IsPlain-cons c cs p in
    resume-Balance (λ _. run_all cs) b h (call c b h) (call-Balance c b h head)
      (λ _ k. run_all-Balance cs b k rest)

handler_plan-ArePlain : (s : Setup) (hs : Assoc HandlerInfo) → ArePlain (handler_plan s hs)
handler_plan-ArePlain s [] = tt
handler_plan-ArePlain s ((k, hi) ∷ rest) = handler_plan-ArePlain s rest

topology_plan-ArePlain : (s : Setup) (hs : Assoc HandlerInfo) → ArePlain (topology_plan s hs)
topology_plan-ArePlain s hs = elim (Bool-cases s.is_consumer) [
  | inr e ↦ rw e tt
  | inl e ↦ elim (Bool-cases s.with_retry) [
    | inl f ↦
        rw (e, f) (handler_plan-ArePlain (record s { with_retry = true; is_consumer = true }) hs)
    | inr f ↦
        rw (e, f) (handler_plan-ArePlain (record s { with_retry = false; is_consumer = true }) hs)
  ]
]

apply_topology-Balance :
    (s : Setup) (hs : Assoc HandlerInfo) (b : Broker) (h : History)
    → Balance b h (apply_topology s hs b h).0 0 0
apply_topology-Balance s hs b h =
    rw (apply_topology-plan s hs)
      (run_all-Balance (topology_plan s hs) b h (topology_plan-ArePlain s hs))

open_channel-Balance : (b : Broker) (h : History) → Balance b h (open_call open_channel b h).0 0 0
unfolding open_call
open_channel-Balance b h =
    resume-Balance (λ _. return (length h)) b h (call open_channel b h)
      (call-Balance open_channel b h tt) (λ _ k. Balance-refl)

set_prefetch-Balance :
    (s : Setup) (bc : BrokerConn) (b : Broker) (h : History)
    → Balance b h (set_prefetch s bc b h).0 0 0
unfolding set_prefetch
set_prefetch-Balance s bc b h = elim (Bool-cases (s.is_consumer && is_positive s.pre_fetch_count)) [
  | inl e ↦ rw e (
      resume-Balance (λ _. return bc) b h (call (qos s.pre_fetch_count) b h)
        (call-Balance (qos s.pre_fetch_count) b h tt) (λ _ k. Balance-refl))
  | inr e ↦ rw e Balance-refl
]

open_channels-Balance :
    (s : Setup) (conn : ℕ) (b : Broker) (h : History) → Balance b h (open_channels s conn b h).0 0 0
unfolding open_channels
open_channels-Balance s conn b h =
    let bc = λ (ch pub_ch : ℕ).
      let r : BrokerConn = record { conn = conn; ch = ch; pub_ch = pub_ch; returns = pub_ch } in
      r in
    let confirmed = λ (ch pub_ch : ℕ). call confirm_mode >> set_prefetch s (bc ch pub_ch) in
    let second = λ (ch : ℕ). open_call open_channel >>= confirmed ch in
    resume-Balance second b h (open_call open_channel b h) (open_channel-Balance b h) λ ch h'.
      resume-Balance (confirmed ch) b h' (open_call open_channel b h') (open_channel-Balance b h')
        λ pub_ch h''.
          resume-Balance (λ _. set_prefetch s (bc ch pub_ch)) b h'' (call confirm_mode b h'')
            (call-Balance confirm_mode b h'' tt) (λ _ k. set_prefetch-Balance s (bc ch pub_ch) b k)

-- How many connections a step leaves open.
abbrev left_open {ℓ} : {A : Type ℓ} → Result A → ℕ
left_open (ok a) = 1
left_open (err e) = 0

close_on_error-Balance {ℓ} :
    {A : Type ℓ} (b : Broker) (h : History) (r : History × Result A)
    → Balance b h r.0 0 0
    → Balance b h (close_on_error r).0 1 (left_open (close_on_error r).1)
close_on_error-Balance b h (k, ok a) p = Balance-frame 1 p
close_on_error-Balance b h (k, err e) p = Balance-trans (Balance-frame 1 p) Balance-close

dial_call-Balance :
    (s : Setup) (b : Broker) (h : History)
    → Balance b h (open_call (dial_call s) b h).0 0 (left_open (open_call (dial_call s) b h).1)
unfolding open_call call
dial_call-Balance s b h = elim (Option-cases (b h (dial_call s))) [
  | inl e ↦
      rw e (record { calls = dial_call s ∷ []; grown = refl; even = omega (arith, ap accepted e) })
  | inr (x, e) ↦
      rw e (record { calls = dial_call s ∷ []; grown = refl; even = omega (arith, ap accepted e) })
]

dial_broker-Balance :
    (s : Setup) (b : Broker) (h : History)
    → Balance b h (dial_broker s b h).0 0 (left_open (dial_broker s b h).1)
unfolding dial_broker closing
dial_broker-Balance s b h = go (open_call (dial_call s) b h) (dial_call-Balance s b h)
  where
    go :
        (r : History × Result ℕ)
        → Balance b h r.0 0 (left_open r.1)
        → Balance b h
            (resume (λ conn. closing (open_channels s conn)) b r).0
            0
            (left_open (resume (λ conn. closing (open_channels s conn)) b r).1)
    go (k, err e) p = p
    go (k, ok conn) p =
        Balance-trans p
          (close_on_error-Balance b k (open_channels s conn b k) (open_channels-Balance s conn b k))

-- What is open once `connect` has the answer of the dial: the new connection of a client that took
-- it, and nothing else.
end_connect-Balance :
    (bc : BrokerConn) (t : Result (Unit {0})) (c : Client) (b : Broker) (h : History)
    → let (c', calls, r) = end_connect bc t c in Balance b h (h ++ calls) 1 (one_if_ok r)
unfolding end_connect
end_connect-Balance bc (err e) c b h = Balance-close
end_connect-Balance bc (ok _) c b h = elim (Bool-cases c.done) [
  | inl d ↦ rw d Balance-close
  | inr d ↦ rw (d, append-nil h) Balance-refl
]

after_dial-Balance :
    (b : Broker) (c : Client) (h : History) (r : History × Result BrokerConn)
    → Balance b h r.0 0 (left_open r.1)
    → Balance b h (after_dial b c r).1 0 (one_if_ok (after_dial b c r).2)
unfolding end_failed_dial
after_dial-Balance b c h (k, err e) p = p
after_dial-Balance b c h (k, ok bc) p =
    let t = apply_topology c.setup c.handlers b k in
    Balance-trans p (
      Balance-trans (Balance-frame 1 (apply_topology-Balance c.setup c.handlers b k))
        (end_connect-Balance bc t.1 c b t.0))

dropped-Balance :
    (b : Broker) (h : History) (t : Bool)
    → Balance b h (h ++ (if t then close_connection ∷ [] else [])) (one_if t) 0
dropped-Balance b h true = Balance-close
dropped-Balance b h false = rw (append-nil h) Balance-refl

-- The connection of a client behind an attempt, by the answer.
held_by_answer :
    (d : Result BrokerConn) (n : ℕ) (c : Client) (r : Result Bool)
    → Left d n c r
    → (r ≡ ok true → c.conn ≡ some n) × (r ≢ ok true → c.conn ≡ none)
held_by_answer d n c (ok true) l = (λ _. l.1.0, λ x. absurd (x refl))
held_by_answer d n c (ok false) l = absurd l
held_by_answer d n c (err (topology_rejected e)) l = (λ x. cc, λ _. l.0.0)
held_by_answer d n c (err _) l = (λ x. cc, λ _. l.0.0)

-- A `connect` that makes no attempt (of a client that is closed, connected or dialing) makes no call
-- and leaves the client as it was. One that makes it leaves no connection behind: of the one that the
-- client held open and those that the broker accepts, as many are closed on the way, but for one if
-- the answer is true, and then the client holds the one that this very dial opened; else it holds
-- none.
pub connect-Balance :
    (is_closed : ℕ → Bool) (b : Broker) (c : Client) (h : History)
    → let (c', h', r) = connect is_closed b c h in
      ((c.done || connected is_closed c || c.dialing) ≡ true → (h' ≡ h) × (c' ≡ c))
      × ((c.done || connected is_closed c || c.dialing) ≡ false
          → Balance b h h' (one_if (open_conn is_closed c.conn)) (one_if_ok r)
            × (r ≡ ok true → c'.conn ≡ some (length (dropped is_closed c h)))
            × (r ≢ ok true → c'.conn ≡ none))
unfolding connect try_dial
connect-Balance is_closed b c h = (
  λ n. ground arith,
  λ n.
      let (d, l, f) : (c.done ≡ false) × (connected is_closed c ≡ false) × (c.dialing ≡ false) =
        ground arith in
      let start = dropped is_closed c h in
      let held =
        held_by_answer (dial_broker c.setup b start).1 (length start) (connect is_closed b c h).0
          (connect is_closed b c h).2 ((connect_lem is_closed b c h).3 d l f).0 in
      (
        rw (connect_attempt is_closed b c h d l f) (
            Balance-trans (dropped-Balance b h (open_conn is_closed c.conn)) (
              after_dial-Balance b (dialling c) start (dial_broker c.setup b start)
                (dial_broker-Balance c.setup b start))),
        held.0,
        held.1,
      ),
)
