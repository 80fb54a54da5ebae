-- ===== src/Flush/Signal.antt =====
-- The flags of a flush: who may run it, and who hears that messages are left.
use gorabbit.Prelude.{ℕ, ◌<◌, true, false, ◌≡◌}
use gorabbit.Cache.Interface.{Cache}
use gorabbit.Wire.{Wire}
use gorabbit.Flush.Defs.{Codec, World}

module _ (K : Cache) (W : Wire) (J : Codec) where
  -- The flag is down, and where messages are left the place of the signal is taken.
  pub record IsSignalled (r : World K W J × ℕ) : Type 0 where
    pub flag : r.0.client.flushing ≡ false
    pub signal : 0 < r.1 → r.0.client.pending ≡ true
