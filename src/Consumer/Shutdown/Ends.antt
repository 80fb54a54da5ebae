-- ===== src/Consumer/Shutdown/Ends.antt =====
-- `Close` gets behind its wait without the timeout, once the handlers return.
use gorabbit.Prelude.{true, Option, ◌≡◌}
use gorabbit.Errors.{Error}
use gorabbit.Client.{Client}
use gorabbit.Wire.{Wire}
use gorabbit.Consumer.Defs.{Settlement}
use gorabbit.Consumer.Shutdown.{consuming, draining, Reach}
use gorabbit.Consumer.Shutdown.Drains.{Open}

module _ (W : Wire) (settle : Settlement → Option Error) (client : Client) (first : W.State) where
  abbrev Steps : Open W settle client first → Open W settle client first → Type 0
  Steps s t = Reach W settle s t

  -- Inside `consumeMessages`, behind the call of `Close`.
  record IsEnding (s : Open W settle client first) : Type 0 where
    inside : s.routine ≡ consuming
    waits : s.stage ≡ draining
    told : s.pool.stopped ≡ true
