-- ===== src/Connection/Refused.antt =====
-- What `connect` does over a broker that refuses every call.
use gorabbit.Prelude.{
  ℕ, ◌≤◌, Bool, false, none, some, List, [], ◌∷◌, ◌++◌, ◌≡◌, refl, arith, if◌then◌else◌, length,
  length-append,
}
use gorabbit.Errors.{AmqpError, err, amqp}
use gorabbit.Setup.{Setup}
use gorabbit.Client.{Client}
use gorabbit.Amqp.{Broker, History, Call, open_call, call, close_connection}
use gorabbit.Connection.Defs.{
  connected, open_conn, dial_broker, dial_call, end_failed_dial, failed_dial,
}
use gorabbit.Connection.Dial.{connect}
use gorabbit.Connection.Connect.{try_dial_goes, recheck_goes, dialling}

abbrev pub IsRefusing : Broker → Type 0
IsRefusing b = (h : History) (c : Call) → (e : AmqpError) × (b h c ≡ some e)

-- The client after a dial that failed.
abbrev pub unconnected : Client → Client
unconnected c = record (dialling c) { dialing = false; setup_err = none }

dial_broker-refused :
    (s : Setup) (b : Broker) (h : History) (e : AmqpError)
    → b h (dial_call s) ≡ some e
    → dial_broker s b h ≡ (h ++ dial_call s ∷ [], err (amqp e))
unfolding dial_broker open_call call
dial_broker-refused s b h e r = rw r refl

pub connect-refused :
    (f : ℕ → Bool) (b : Broker) (c : Client) (h : History)
    → IsRefusing b
    → c.done ≡ false
    → connected f c ≡ false
    → c.dialing ≡ false
    → (h' : History) × (e : AmqpError) × (length h ≤ length h')
      × (connect f b c h ≡ (unconnected c, h', err (amqp e)))
unfolding connect end_failed_dial failed_dial
connect-refused f b c h r d l g =
    let calls : List Call = if open_conn f c.conn then close_connection ∷ [] else [] in
    let (e, q) = r (h ++ calls) (dial_call c.setup) in
    (
      (h ++ calls) ++ dial_call c.setup ∷ [],
      e,
      omega (arith, length-append h calls, length-append (h ++ calls) (dial_call c.setup ∷ [])),
      rw
          (
            try_dial_goes f c d l g,
            recheck_goes f c l,
            dial_broker-refused c.setup b (h ++ calls) e q,
          )
          refl,
    )
