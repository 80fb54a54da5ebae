-- ===== src/Flush/Replicas/Takeover.antt =====
-- A replica that dies with a message in hand does not keep it for ever: rabbitmq/lease.go, where
-- the lease of a message ends with the ttl of `publishLeaseTTL`, and another replica takes it.
use gorabbit.Prelude.{ℕ, ◌+◌, ◌<◌, Bytes, none, ◌≡◌, IsUnique}
use gorabbit.Setup.{Setup}
use gorabbit.Scope.{lease_key}
use gorabbit.Cache.Memory.{get}
use gorabbit.Flush.Replicas.{System}

-- No lease stands for longer than `longest` from now on.
record Ends (scope id : Bytes) (longest : ℕ) (s : System) : Type 0 where
  unique : IsUnique s.entries
  over : (t : ℕ) → s.now + longest < t → get t (lease_key scope id) s.entries ≡ none
