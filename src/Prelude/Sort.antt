-- ===== src/Prelude/Sort.antt =====
-- `slices.Sort` of strings: in the order of their bytes.
pub mod Order
use mathlib.Core.Bool.{Bool, true, false, ◌&&◌, ◌||◌}
use mathlib.Core.List.{List, [], ◌∷◌}
use gorabbit.Prelude.Tests.{ltb, ◌==◌, if◌then◌else◌}
use gorabbit.Prelude.GoStrings.{Bytes}

-- a <= b
unfoldable pub bytes_le : Bytes → Bytes → Bool
bytes_le [] t = true
bytes_le (a ∷ s) [] = false
bytes_le (a ∷ s) (b ∷ t) = ltb a b || a == b && bytes_le s t

unfoldable pub insert_sorted : Bytes → List Bytes → List Bytes
unfolding bytes_le
insert_sorted k [] = k ∷ []
insert_sorted k (j ∷ js) = if bytes_le k j then k ∷ j ∷ js else j ∷ insert_sorted k js

-- The sorted list; which algorithm finds it makes no difference, for the order is total and two
-- strings that are equal in it are one.
unfoldable pub sort : List Bytes → List Bytes
unfolding insert_sorted
sort [] = []
sort (k ∷ ks) = insert_sorted k (sort ks)
