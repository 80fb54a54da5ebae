-- ===== src/Connection/Threads/Safety.antt =====
-- Whatever the order of the steps: one goroutine dials at a time, and a client that was closed
-- never comes back.
use gorabbit.Prelude.{
  ℕ, ◌+◌, ◌≤◌, Bool, true, false, List, ◌∷◌, ◌++◌, ◌≡◌, refl, sym, ap, arith, inl, inr,
  if◌then◌else◌,
}
use gorabbit.Errors.{Error, Result, ok, err}
use gorabbit.Client.{Client, BrokerConn}
use gorabbit.Amqp.{Call}
use gorabbit.Connection.Defs.{
  swap_dialing, recheck, establish, failed_dial, failed_setup, set_connected, end_dialing,
}
use gorabbit.Connection.Threads.{
  Phase, outside, not_closed, not_connected, see_open, see_cut, turn_back, holding, dialling,
  ending, failing_dial, failing_setup, System, Step, Reach, here, next, mark_done, shut_connection,
  busy, busy_at, Inv, at_thread, swap, look, lose_dial, fail_dial, establish_ok, establish_err,
  fail_setup, reset, lose, mark, shut_down, weight, flag,
}

swap_dialing_facts :
    (f : ℕ → Bool) (c c' : Client)
    → swap_dialing f c ≡ (c', ok true)
    → (c.dialing ≡ false)
      × (c'.dialing ≡ true)
      × (c'.done ≡ c.done)
      × (c'.is_connected ≡ c.is_connected)
unfolding swap_dialing
swap_dialing_facts f c c' e = ground arith

recheck_facts :
    (f : ℕ → Bool) (c c' : Client) (calls : List Call) (b : Bool)
    → recheck f c ≡ (c', calls, ok b)
    → (c'.done ≡ c.done)
      × (c'.dialing ≡ (if b then c.dialing else false))
      × (c.is_connected ≡ false → c'.is_connected ≡ false)
unfolding recheck
recheck_facts f c c' calls b e = ground arith

establish_ok_facts :
    (bc : BrokerConn) (c c' : Client)
    → establish bc (ok tt) c ≡ (c', ok tt)
    → (c.done ≡ false) × (c'.dialing ≡ c.dialing)
unfolding establish
establish_ok_facts bc c c' e = ground arith

establish_err_facts :
    (bc : BrokerConn) (t : Result (Unit {0})) (c c' : Client) (x : Error)
    → establish bc t c ≡ (c', err x)
    → c' ≡ c
unfolding establish
establish_err_facts bc (ok _) c c' x e = ground arith
establish_err_facts bc (err y) c c' x e = ap (λ r. r.0) (sym e)

failed_setup_facts :
    (e : Error) (c : Client)
    → let c' = (failed_setup e c).0 in
      (c'.done ≡ c.done) × (c'.dialing ≡ c.dialing) × (c'.is_connected ≡ c.is_connected)
unfolding failed_setup
failed_setup_facts e c = ground arith

-- A step of one goroutine keeps the invariant if it changes the flag by what it does to the count,
-- and leaves a closed client closed.
moved :
    (s : System) (c : Client) (before after : List Phase) (p q : Phase)
    → Inv s
    → s.threads ≡ before ++ p ∷ after
    → weight q + flag s.client.dialing ≡ weight p + flag c.dialing
    → (s.shut ≡ true → (c.done ≡ true) × (c.is_connected ≡ false))
    → Inv (at_thread s c before q after)
moved s c before after p q i e w k = record {
  one_dialler =
      omega (arith, ap busy e, i.one_dialler, busy_at before after p, busy_at before after q);
  shut_down = k;
}

raised : (d : Bool) → 1 ≤ flag d → d ≡ true
raised true h = refl
raised false h = absurd (omega arith)

-- A goroutine that is inside has raised the flag.
inside_raised :
    (s : System) (before after : List Phase) (p : Phase)
    → Inv s
    → s.threads ≡ before ++ p ∷ after
    → weight p ≡ 1
    → s.client.dialing ≡ true
inside_raised s before after p i e w =
    raised s.client.dialing (omega (arith, ap busy e, i.one_dialler, busy_at before after p))

Step-Inv : {s t : System} → Step s t → Inv s → Inv t
unfolding set_connected mark_done shut_connection
Step-Inv (see_open s before after e h) i =
    moved s s.client before after outside not_closed i e (omega arith) i.shut_down
Step-Inv (see_cut s f before after e h) i =
    moved s s.client before after not_closed not_connected i e (omega arith) i.shut_down
Step-Inv (turn_back s p before after e (inl q)) i =
    moved s s.client before after p outside i e (omega (arith, ap weight q)) i.shut_down
Step-Inv (turn_back s p before after e (inr (q, d))) i =
    moved s s.client before after p outside i e (omega (arith, ap weight q)) i.shut_down
Step-Inv (swap s f c before after e h) i =
    let facts = swap_dialing_facts f s.client c h in
    moved s c before after not_connected holding i e (ground arith)
      (λ d. ground (arith, i.shut_down d))
Step-Inv (look s f c calls true before after e h) i =
    let facts = recheck_facts f s.client c calls true h in
    moved s c before after holding dialling i e (ground arith) (λ d. ground (arith, i.shut_down d))
Step-Inv (look s f c calls false before after e h) i =
    let facts = recheck_facts f s.client c calls false h in
    moved s c before after holding outside i e
      (ground (arith, inside_raised s before after holding i e refl))
      (λ d. ground (arith, i.shut_down d))
Step-Inv (lose_dial s x before after e) i =
    moved s s.client before after dialling (failing_dial x) i e (omega arith) i.shut_down
Step-Inv (fail_dial s x before after e) i =
    moved s _ before after (failing_dial x) ending i e (unfold failed_dial in omega arith)
      (unfold failed_dial in i.shut_down)
Step-Inv (establish_ok s bc c before after e h) i =
    let facts = establish_ok_facts bc s.client c h in
    moved s c before after dialling ending i e (ground arith) (λ d. ground (arith, i.shut_down d))
Step-Inv (establish_err s bc t c x before after e h) i =
    let same = establish_err_facts bc t s.client c x h in
    moved s c before after dialling (failing_setup x) i e (ground arith)
      (λ d. ground (arith, i.shut_down d))
Step-Inv (fail_setup s x before after e) i =
    let facts = failed_setup_facts x s.client in
    moved s _ before after (failing_setup x) ending i e (ground arith)
      (λ d. ground (arith, i.shut_down d))
Step-Inv (reset s before after e) i =
    moved s (end_dialing s.client) before after ending outside i e
      (ground (arith, inside_raised s before after ending i e refl)) i.shut_down
Step-Inv (lose s) i = record {
  one_dialler = i.one_dialler;
  shut_down = λ d. ((i.shut_down d).0, refl);
}
Step-Inv (mark s n) i = record {
  one_dialler = i.one_dialler;
  shut_down = λ d. (refl, (i.shut_down d).1);
}
Step-Inv (shut_down s d n) i = record { one_dialler = i.one_dialler; shut_down = λ _. (d, refl) }

-- In every state that any interleaving of the goroutines reaches from one where it holds: at most
-- one goroutine is between the swap of the flag and its reset, and once `Close` has run the client
-- is closed and not connected, also if a dial was in flight.
pub Reach-Inv : {s t : System} → Inv s → Reach s t → Inv t
Reach-Inv i here = i
Reach-Inv i (next r st) = Step-Inv st (Reach-Inv i r)
