-- ===== src/Connection/Defs.antt =====
-- rabbitmq/rabbitmq.go: how a client connects, and what it takes for a live connection. Each
-- function is a section that the code runs under the client's mutex, or a chain of them;
-- `is_closed` answers `conn.IsClosed()` at that moment.
use gorabbit.Prelude.{
  ℕ, Bool, true, false, ◌&&◌, Option, none, some, List, [], ◌∷◌, not, ◌==◌, ◌||◌, if◌then◌else◌,
}
use gorabbit.Prelude.Int.{is_positive}
use gorabbit.Errors.{
  Error, Result, ok, err, client_closed, dial_in_progress, topology_rejected, amqp, reply,
}
use gorabbit.Setup.{Setup}
use gorabbit.Client.{Client, BrokerConn}
use gorabbit.Amqp.{
  Amqp, ◌>>=◌, ◌>>◌, return, call, open_call, closing, Call, dial, open_channel, confirm_mode, qos,
  close_connection,
}

-- `closed`
unfoldable pub closed : Client → Bool
closed c = c.done

abbrev pub is_set : Option ℕ → Bool
is_set none = false
is_set (some k) = true

module _ (is_closed : ℕ → Bool) where
  -- conn != nil && !conn.IsClosed()
  abbrev pub open_conn : Option ℕ → Bool
  open_conn none = false
  open_conn (some k) = not (is_closed k)

  unfoldable pub live : Client → Bool
  live c = c.is_connected && open_conn c.conn

  -- `connected` (and `Connected`), which takes the mutex for `live`.
  unfoldable pub connected : Client → Bool
  unfolding live
  connected c = live c

  -- The client without its connection, and the call that closes it if it is still open.
  unfoldable pub drop_connection : Client → Client × List Call
  drop_connection c = (
    record c { conn = none; ch = none; pub_ch = none; returns = none; is_connected = false },
    if open_conn c.conn then close_connection ∷ [] else [],
  )

  -- `pendingErr`
  unfoldable pub pending_err : Client → Error
  pending_err c = elim c.setup_err [ none ↦ dial_in_progress | some e ↦ e ]

  -- The swap of `dialing`: `ok true` means that the caller holds the flag.
  unfoldable pub swap_dialing : Client → Client × Result Bool
  unfolding pending_err
  swap_dialing c =
      if c.dialing then (c, err (pending_err c)) else (record c { dialing = true }, ok true)

  -- The first part of `connect`, up to the swap of `dialing`: the answer `ok true` means that the
  -- caller holds `dialing` and goes on.
  unfoldable pub try_dial : Client → Client × Result Bool
  unfolding connected closed swap_dialing
  try_dial c =
      if closed c
      then (c, err client_closed)
      else if connected c
      then (c, ok false)
      else swap_dialing c

  -- The second look at the connection, behind the swap, and `dropConnection`. `ok true` means that
  -- the caller dials.
  unfoldable pub recheck : Client → Client × List Call × Result Bool
  unfolding connected drop_connection
  recheck c =
      if connected c
      then (record c { dialing = false }, [], ok false)
      else let (c', calls) = drop_connection c in (c', calls, ok true)

-- The end of `dial`: the prefetch count of a consumer.
unfoldable pub set_prefetch : Setup → BrokerConn → Amqp BrokerConn
set_prefetch s bc =
    if s.is_consumer && is_positive s.pre_fetch_count
    then call (qos s.pre_fetch_count) >> return bc
    else return bc

-- The part of `dial` behind `DialConfig`. The tracker of returns is named by the publish channel
-- that it listens to.
unfoldable pub open_channels : Setup → ℕ → Amqp BrokerConn
unfolding open_call set_prefetch
open_channels s conn = do
  ch ← open_call open_channel
  pub_ch ← open_call open_channel
  call confirm_mode
  set_prefetch s (record { conn = conn; ch = ch; pub_ch = pub_ch; returns = pub_ch })

abbrev pub dial_call : Setup → Call
dial_call s =
    dial s.amqp_url s.app_name (if is_positive s.dial_timeout then some s.dial_timeout else none)

-- `dial`
unfoldable pub dial_broker : Setup → Amqp BrokerConn
unfolding open_call closing open_channels
dial_broker s = do conn ← open_call (dial_call s); closing (open_channels s conn)

-- The reply codes of amqp091: AccessRefused, NotFound, ResourceLocked, PreconditionFailed.
unfoldable pub rejected_topology : Error → Bool
rejected_topology (amqp (reply code)) = code == 403 || code == 404 || code == 405 || code == 406
rejected_topology _ = false

-- `failedDial`
unfoldable pub failed_dial : Error → Client → Client × Error
failed_dial e c = (record c { setup_err = none }, e)

-- `failedSetup`
unfoldable pub failed_setup : Error → Client → Client × Error
unfolding rejected_topology
failed_setup e c =
    if rejected_topology e
    then (record c { setup_err = some (topology_rejected e) }, topology_rejected e)
    else (record c { setup_err = none }, e)

-- `establish`, with the outcome of `applyTopology`.
unfoldable pub establish : BrokerConn → Result (Unit {0}) → Client → Client × Result (Unit {0})
unfolding closed
establish bc (err e) c = (c, err e)
establish bc (ok _) c = if closed c then (c, err client_closed) else (
  record c {
    conn = some bc.conn;
    ch = some bc.ch;
    pub_ch = some bc.pub_ch;
    returns = some bc.returns;
    setup_err = none;
    is_connected = true;
  },
  ok tt,
)

-- `defer c.dialing.Store(false)`
abbrev pub end_dialing : Client → Client
end_dialing c = record c { dialing = false }

-- The end of `connect` after a dial that failed.
unfoldable pub end_failed_dial : Error → Client → Client × Result Bool
unfolding failed_dial
end_failed_dial e c = let (c', e') = failed_dial e c in (end_dialing c', err e')

-- The end of `connect` after `establish`: the calls that it still makes and its answer.
abbrev after_establish : Client × Result (Unit {0}) → Client × List Call × Result Bool
unfolding failed_setup
after_establish (c, ok _) = (end_dialing c, [], ok true)
after_establish (c, err e) =
    let (c', e') = failed_setup e c in (end_dialing c', close_connection ∷ [], err e')

unfoldable pub end_connect :
    BrokerConn → Result (Unit {0}) → Client → Client × List Call × Result Bool
unfolding establish after_establish
end_connect bc topology c = after_establish (establish bc topology c)

-- `setConnected`
unfoldable pub set_connected : Bool → Client → Client
set_connected b c = record c { is_connected = b }
