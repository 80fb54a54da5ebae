-- ===== src/Topology/Order.antt =====
-- The order of the declarations: nothing is named before it exists.
use gorabbit.Prelude.{
  Bytes, true, false, Option, none, some, List, [], ◌∷◌, Assoc, ◌≡◌, refl, ◌⊎◌, inl, inr,
  Bool-cases,
}
use gorabbit.Setup.{Setup}
use gorabbit.Client.{HandlerInfo}
use gorabbit.Amqp.{Call, exchange_declare, queue_declare, queue_bind}
use gorabbit.Topology.Defs.{apply_topology}
use gorabbit.Topology.Plan.{handler_plan, topology_plan, run_all, apply_topology-plan}

abbrev In : Bytes → List Bytes → Type 0
In x [] = ⊥
In x (y ∷ ys) = (x ≡ y) ⊎ In x ys

abbrev DeadLetterIn : Option Bytes → List Bytes → Type 0
DeadLetterIn none xs = Unit
DeadLetterIn (some x) xs = In x xs

-- Given the exchanges and queues that exist, each call names only what exists by then: a binding
-- its queue and its exchange, a queue the exchange that it dead-letters to.
abbrev pub IsOrdered : List Bytes → List Bytes → List Call → Type 0
IsOrdered xs qs [] = Unit
IsOrdered xs qs (exchange_declare x ∷ cs) = IsOrdered (x ∷ xs) qs cs
IsOrdered xs qs (queue_declare q args ∷ cs) =
    DeadLetterIn args.dead_letter_exchange xs × IsOrdered xs (q ∷ qs) cs
IsOrdered xs qs (queue_bind q key x ∷ cs) = In q qs × In x xs × IsOrdered xs qs cs
IsOrdered xs qs (_ ∷ cs) = IsOrdered xs qs cs

handler_plan-IsOrdered :
    (s : Setup) (hs : Assoc HandlerInfo) (xs qs : List Bytes)
    → In s.queue_name qs
    → IsOrdered xs qs (handler_plan s hs)
handler_plan-IsOrdered s [] xs qs h = tt
handler_plan-IsOrdered s ((k, hi) ∷ rest) xs qs h =
    (h, inl refl, handler_plan-IsOrdered s rest (hi.exchange ∷ xs) qs h)

topology_plan-IsOrdered :
    (s : Setup) (hs : Assoc HandlerInfo) → IsOrdered [] [] (topology_plan s hs)
topology_plan-IsOrdered s hs = elim (Bool-cases s.is_consumer) [
  | inr e ↦ rw e tt
  | inl e ↦ elim (Bool-cases s.with_retry) [
    | inr f ↦
        rw (e, f)
          (
            tt,
            (
              inl refl,
              (
                inr (inl refl),
                inl refl,
                (
                  inl refl,
                  inr (inl refl),
                  handler_plan-IsOrdered (record s { with_retry = false; is_consumer = true }) hs _
                      _ (inl refl),
                ),
              ),
            ),
          )
    | inl f ↦
        rw (e, f)
          (
            tt,
            (
              inr (inl refl),
              (
                inr (inr (inl refl)),
                (
                  inr (inr (inl refl)),
                  inr (inl refl),
                  (
                    inr (inl refl),
                    inr (inr (inl refl)),
                    (
                      inl refl,
                      inl refl,
                      handler_plan-IsOrdered (record s { with_retry = true; is_consumer = true }) hs
                          _ _ (inr (inl refl)),
                    ),
                  ),
                ),
              ),
            ),
          )
  ]
]

-- From an empty broker on, `applyTopology` never names an exchange or a queue that it has not
-- declared before: the calls that it makes up to the first refusal are ordered.
pub apply_topology-IsOrdered :
    (s : Setup) (hs : Assoc HandlerInfo)
    → (plan : List Call) × (apply_topology s hs ≡ run_all plan) × IsOrdered [] [] plan
apply_topology-IsOrdered s hs =
    (topology_plan s hs, apply_topology-plan s hs, topology_plan-IsOrdered s hs)
