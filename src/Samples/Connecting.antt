-- ===== src/Samples/Connecting.antt =====
-- A client that connects, alone and with a second goroutine, and what it declares.
use gorabbit.Prelude.{length, true, false, List, [], ◌∷◌, codes, ◌≡◌, refl}
use gorabbit.Errors.{ok, err, client_closed}
use gorabbit.Client.{Client, new_client}
use gorabbit.Amqp.{Call}
use gorabbit.Topology.{apply_topology}
use gorabbit.Topology.Plan.{run_all, topology_plan, apply_topology-plan}
use gorabbit.Topology.Order.{IsOrdered, apply_topology-IsOrdered}
use gorabbit.Connection.{dial_broker, connected, pending_err, live, swap_dialing, closed}
use gorabbit.Connection.Dial.{connect}
use gorabbit.Connection.Connect.{connect_lem, Left, dropped}
use gorabbit.Connection.Threads.{
  System, outside, holding, Reach, here, next, see_open, see_cut, swap, mark, Inv, mark_done,
}
use gorabbit.Connection.Threads.Safety.{Reach-Inv}
use gorabbit.Samples.Data.{mailer, fresh, all_open, agreeable, on_invoice}

connect_lem_example :
    let (c', h', r) = connect all_open agreeable fresh [] in
    (false ≡ true → (c' ≡ fresh) × (r ≡ err client_closed))
    × (false ≡ false → connected all_open fresh ≡ true → (c' ≡ fresh) × (r ≡ ok false))
    × (false ≡ false
        → connected all_open fresh ≡ false
        → false ≡ true
        → (c' ≡ fresh) × (r ≡ err (pending_err all_open fresh)))
    × (false ≡ false
        → connected all_open fresh ≡ false
        → false ≡ false
        → let start = dropped all_open fresh [] in
          Left (dial_broker fresh.setup agreeable start).1 (length start) c' r
          × (c'.dialing ≡ false))
unfolding fresh new_client
connect_lem_example = connect_lem all_open agreeable fresh []

-- A goroutine of the client and another that has not started.
abbrev two_threads : Client → System
two_threads c = record { client = c; threads = outside ∷ outside ∷ []; shut = false }

two_threads-Inv : Inv (two_threads fresh)
unfolding fresh new_client
two_threads-Inv = record { one_dialler = refl; shut_down = λ e. cc }

-- The first goroutine takes the flag, and the client is closed under it.
abbrev taken : Client → System
taken c = record {
  client = record c { dialing = true };
  threads = holding ∷ outside ∷ [];
  shut = false;
}

taken-Reach : Reach (two_threads fresh) (taken fresh)
unfolding fresh new_client swap_dialing closed connected live
taken-Reach =
    next
      (next (next here (see_open (two_threads fresh) [] (outside ∷ []) refl refl))
        (see_cut _ all_open [] (outside ∷ []) refl refl))
      (swap _ all_open _ [] (outside ∷ []) refl refl)

abbrev marked : Client → System
marked c = record {
  client = record c { dialing = true; done = true };
  threads = holding ∷ outside ∷ [];
  shut = false;
}

marked-Reach : Reach (two_threads fresh) (marked fresh)
unfolding fresh new_client mark_done
marked-Reach = next taken-Reach (mark (taken fresh) refl)

Reach-Inv_example : Inv (marked fresh)
Reach-Inv_example = Reach-Inv two_threads-Inv marked-Reach

apply_topology-plan_example :
    apply_topology mailer ((codes "k", on_invoice) ∷ [])
    ≡ run_all (topology_plan mailer ((codes "k", on_invoice) ∷ []))
apply_topology-plan_example = apply_topology-plan mailer ((codes "k", on_invoice) ∷ [])

apply_topology-IsOrdered_example :
    (plan : List Call) × (apply_topology mailer ((codes "k", on_invoice) ∷ []) ≡ run_all plan)
    × IsOrdered [] [] plan
apply_topology-IsOrdered_example = apply_topology-IsOrdered mailer ((codes "k", on_invoice) ∷ [])
