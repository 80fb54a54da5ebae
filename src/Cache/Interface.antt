-- ===== src/Cache/Interface.antt =====
-- cache.go, `Cache`: the interface that the driver is written against. A method that changes the
-- store returns the new store; `nil` data is `none`. What a caller may rely on is in `Laws`.
use gorabbit.Prelude.{Bytes, Bool, Option, List}
use gorabbit.Prelude.Int.{ℤ}
use gorabbit.Errors.{Error, Result}

pub record Cache : Type 1 where
  pub Store : Type 0
  pub set : Bytes → Bytes → ℤ → Store → Store × Option Error
  pub set_if_absent : Bytes → Bytes → ℤ → Store → Store × Result Bool
  pub get : Bytes → Store → Result (Option Bytes)
  pub get_all_keys : Bytes → Store → Store × Result (List Bytes)
  pub delete : List Bytes → Store → Store × Option Error
