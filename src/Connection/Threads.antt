-- ===== src/Connection/Threads.antt =====
-- Several goroutines over one client: the loops and callers that connect, the ones that find the
-- connection lost, and one that runs `Close` (rabbitmq/rabbitmq.go). A step is what one of them
-- does between two points where another may run; `is_closed` may answer differently at each.
pub mod Safety
use gorabbit.Prelude.{
  ℕ, ◌+◌, ◌≤◌, Bytes, Bool, true, false, Option, none, some, List, [], ◌∷◌, ◌++◌, ◌≡◌, ◌≢◌, refl,
  ◌⊎◌, inl, inr, arith, Bool-cases, if◌then◌else◌, not, ◌&&◌,
}
use gorabbit.Errors.{Error, Result, ok, err}
use gorabbit.Client.{Client, BrokerConn}
use gorabbit.Amqp.{Call}
use gorabbit.Connection.Defs.{
  closed, connected, swap_dialing, recheck, establish, failed_dial, failed_setup, set_connected,
  end_dialing,
}

-- Where a goroutine stands in `connect`: outside; behind the look at `done`, and at the connection,
-- that let it go on; behind the swap of `dialing`; in `dial` and
-- `applyTopology`; with a failed dial or setup; before the deferred reset of `dialing`.
pub data Phase : Type 0 where
  outside not_closed not_connected holding dialling ending : Phase
  failing_dial failing_setup : Error → Phase

pub record System : Type 0 where
  pub client : Client
  pub threads : List Phase
  -- The last section of `Close` has run.
  pub shut : Bool

-- The first section of `Close`, under `closeOnce`: close(c.done).
unfoldable pub mark_done : Client → Client
mark_done c = record c { done = true }

-- The last section of `Close`, as far as the state of the client goes.
unfoldable pub shut_connection : Client → Client
shut_connection c = record c { is_connected = false; claimed_key = false }

abbrev pub at_thread : System → Client → List Phase → Phase → List Phase → System
at_thread s c before p after = record s { client = c; threads = before ++ p ∷ after }

pub data Step : System → System → Type 0 where
  see_open :
      (s : System) (before after : List Phase)
      → s.threads ≡ before ++ outside ∷ after
      → closed s.client ≡ false
      → Step s (at_thread s s.client before not_closed after)
  see_cut :
      (s : System) (is_closed : ℕ → Bool) (before after : List Phase)
      → s.threads ≡ before ++ not_closed ∷ after
      → connected is_closed s.client ≡ false
      → Step s (at_thread s s.client before not_connected after)
  -- The client was connected by then, or another dial is in flight.
  turn_back :
      (s : System) (p : Phase) (before after : List Phase)
      → s.threads ≡ before ++ p ∷ after
      → (p ≡ not_closed) ⊎ ((p ≡ not_connected) × (s.client.dialing ≡ true))
      → Step s (at_thread s s.client before outside after)
  swap :
      (s : System) (is_closed : ℕ → Bool) (c : Client) (before after : List Phase)
      → s.threads ≡ before ++ not_connected ∷ after
      → swap_dialing is_closed s.client ≡ (c, ok true)
      → Step s (at_thread s c before holding after)
  look :
      (s : System) (is_closed : ℕ → Bool) (c : Client) (calls : List Call) (b : Bool)
      (before after : List Phase)
      → s.threads ≡ before ++ holding ∷ after
      → recheck is_closed s.client ≡ (c, calls, ok b)
      → Step s (at_thread s c before (if b then dialling else outside) after)
  lose_dial :
      (s : System) (e : Error) (before after : List Phase)
      → s.threads ≡ before ++ dialling ∷ after
      → Step s (at_thread s s.client before (failing_dial e) after)
  fail_dial :
      (s : System) (e : Error) (before after : List Phase)
      → s.threads ≡ before ++ failing_dial e ∷ after
      → Step s (at_thread s (failed_dial e s.client).0 before ending after)
  establish_ok :
      (s : System) (bc : BrokerConn) (c : Client) (before after : List Phase)
      → s.threads ≡ before ++ dialling ∷ after
      → establish bc (ok tt) s.client ≡ (c, ok tt)
      → Step s (at_thread s c before ending after)
  establish_err :
      (s : System) (bc : BrokerConn) (t : Result (Unit {0})) (c : Client) (e : Error)
      (before after : List Phase)
      → s.threads ≡ before ++ dialling ∷ after
      → establish bc t s.client ≡ (c, err e)
      → Step s (at_thread s c before (failing_setup e) after)
  fail_setup :
      (s : System) (e : Error) (before after : List Phase)
      → s.threads ≡ before ++ failing_setup e ∷ after
      → Step s (at_thread s (failed_setup e s.client).0 before ending after)
  reset :
      (s : System) (before after : List Phase)
      → s.threads ≡ before ++ ending ∷ after
      → Step s (at_thread s (end_dialing s.client) before outside after)
  lose : (s : System) → Step s (record s { client = set_connected false s.client })
  mark : (s : System) → s.client.done ≡ false → Step s (record s { client = mark_done s.client })
  shut_down :
      (s : System)
      → s.client.done ≡ true
      → s.shut ≡ false
      → Step s (record s { client = shut_connection s.client; shut = true })

pub data Reach (s : System) : System → Type 0 where
  here : Reach s s
  next : {t u : System} → Reach s t → Step t u → Reach s u

-- How many goroutines are inside the part of `connect` that the flag guards.
abbrev pub weight : Phase → ℕ
weight outside = 0
weight not_closed = 0
weight not_connected = 0
weight _ = 1

abbrev pub busy : List Phase → ℕ
busy [] = 0
busy (p ∷ ps) = weight p + busy ps

abbrev pub flag : Bool → ℕ
flag true = 1
flag false = 0

pub record Inv (s : System) : Type 0 where
  -- The flag is up exactly while one goroutine is inside, and never two are.
  pub one_dialler : busy s.threads ≡ flag s.client.dialing
  -- A client that was shut is marked closed and is not connected.
  pub shut_down : s.shut ≡ true → (s.client.done ≡ true) × (s.client.is_connected ≡ false)

busy-append : (ps qs : List Phase) → busy (ps ++ qs) ≡ busy ps + busy qs
busy-append [] qs = omega arith
busy-append (p ∷ ps) qs = omega (arith, busy-append ps qs)

pub busy_at :
    (before after : List Phase) (p : Phase)
    → busy (before ++ p ∷ after) ≡ weight p + (busy before + busy after)
busy_at before after p = omega (arith, busy-append before (p ∷ after))
