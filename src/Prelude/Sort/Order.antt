-- ===== src/Prelude/Sort/Order.antt =====
-- What `slices.Sort` gives: the order of the bytes is total, the sorted list ascends and holds the
-- same strings, and a common prefix does not matter.
use mathlib.Core.Path.{◌≡◌, refl, ap, ◌∙◌}
use mathlib.Core.Logic.{◌⊎◌, inl, inr}
use mathlib.Core.Bool.{true, false}
use mathlib.Core.List.{List, [], ◌∷◌, ◌++◌, map, Perm}
use mathlib.Core.List.Perm
use native.Mathlib.Omega.{arith}
use gorabbit.Prelude.Tests.{Bool-cases}
use gorabbit.Prelude.GoStrings.{Bytes}
use gorabbit.Prelude.Lists.{All}
use gorabbit.Prelude.Sort.{bytes_le, insert_sorted, sort}

bytes_le_total : (s t : Bytes) → bytes_le s t ≡ false → bytes_le t s ≡ true
unfolding bytes_le
bytes_le_total [] t h = cc
bytes_le_total (a ∷ s) [] h = refl
bytes_le_total (a ∷ s) (b ∷ t) h = ground (arith, bytes_le_total s t)

bytes_le_trans : (s t u : Bytes) → bytes_le s t ≡ true → bytes_le t u ≡ true → bytes_le s u ≡ true
unfolding bytes_le
bytes_le_trans [] t u h k = refl
bytes_le_trans (a ∷ s) [] u h k = cc
bytes_le_trans (a ∷ s) (b ∷ t) [] h k = cc
bytes_le_trans (a ∷ s) (b ∷ t) (c ∷ u) h k = ground (arith, bytes_le_trans s t u)

-- The string is at most each of the list.
abbrev Below : Bytes → List Bytes → Type 0
Below k [] = Unit
Below k (j ∷ js) = (bytes_le k j ≡ true) × Below k js

abbrev pub IsAscending : List Bytes → Type 0
IsAscending [] = Unit
IsAscending (k ∷ ks) = Below k ks × IsAscending ks

Below-trans : (i k : Bytes) (ks : List Bytes) → bytes_le i k ≡ true → Below k ks → Below i ks
Below-trans i k [] h b = tt
Below-trans i k (j ∷ js) h b = (bytes_le_trans i k j h b.0, Below-trans i k js h b.1)

insert_sorted-Below :
    (i k : Bytes) (ks : List Bytes)
    → bytes_le i k ≡ true
    → Below i ks
    → Below i (insert_sorted k ks)
unfolding insert_sorted
insert_sorted-Below i k [] h b = (h, tt)
insert_sorted-Below i k (j ∷ js) h b = elim (Bool-cases (bytes_le k j)) [
  | inl e ↦ rw e (h, b)
  | inr e ↦ rw e (b.0, insert_sorted-Below i k js h b.1)
]

insert_sorted-IsAscending :
    (k : Bytes) (ks : List Bytes) → IsAscending ks → IsAscending (insert_sorted k ks)
unfolding insert_sorted
insert_sorted-IsAscending k [] a = (tt, tt)
insert_sorted-IsAscending k (j ∷ js) a = elim (Bool-cases (bytes_le k j)) [
  | inl e ↦ rw e ((e, Below-trans k j js e a.0), a)
  | inr e ↦
      rw e
        (insert_sorted-Below j k js (bytes_le_total k j e) a.0, insert_sorted-IsAscending k js a.1)
]

pub sort-IsAscending : (ks : List Bytes) → IsAscending (sort ks)
unfolding sort
sort-IsAscending [] = tt
sort-IsAscending (k ∷ ks) = insert_sorted-IsAscending k (sort ks) (sort-IsAscending ks)

insert_sorted-Perm : (k : Bytes) (ks : List Bytes) → Perm (insert_sorted k ks) (k ∷ ks)
unfolding insert_sorted
insert_sorted-Perm k [] = Perm.refl _
insert_sorted-Perm k (j ∷ js) = elim (Bool-cases (bytes_le k j)) [
  | inl e ↦ rw e (Perm.refl _)
  | inr e ↦ rw e (Perm.trans (Perm.cons j (insert_sorted-Perm k js)) (Perm.swap k j js))
]

pub sort-Perm : (ks : List Bytes) → Perm (sort ks) ks
unfolding sort
sort-Perm [] = Perm.refl _
sort-Perm (k ∷ ks) = Perm.trans (insert_sorted-Perm k (sort ks)) (Perm.cons k (sort-Perm ks))

pub bytes_le-append : (p s t : Bytes) → bytes_le (p ++ s) (p ++ t) ≡ bytes_le s t
unfolding bytes_le
bytes_le-append [] s t = refl
bytes_le-append (c ∷ p) s t = ground (arith, bytes_le-append p s t)

-- A function that keeps the order commutes with the sort.
module _ (f : Bytes → Bytes) (h : (s t : Bytes) → bytes_le (f s) (f t) ≡ bytes_le s t) where
  insert_sorted-map :
      (k : Bytes) (ks : List Bytes) → insert_sorted (f k) (map f ks) ≡ map f (insert_sorted k ks)
  unfolding insert_sorted
  insert_sorted-map k [] = refl
  insert_sorted-map k (j ∷ js) = elim (Bool-cases (bytes_le k j)) [
    | inl e ↦ rw (h k j, e) refl
    | inr e ↦ rw (h k j, e) (ap (λ rest. f j ∷ rest) (insert_sorted-map k js))
  ]

  pub sort-map : (ks : List Bytes) → sort (map f ks) ≡ map f (sort ks)
  unfolding sort
  sort-map [] = refl
  sort-map (k ∷ ks) = ap (insert_sorted (f k)) (sort-map ks) ∙ insert_sorted-map k (sort ks)

-- What holds of every string holds of every string of the sorted list.
module _ (P : Bytes → Type 0) where
  insert_sorted-All : (k : Bytes) (ks : List Bytes) → P k → All P ks → All P (insert_sorted k ks)
  unfolding insert_sorted
  insert_sorted-All k [] p h = (p, tt)
  insert_sorted-All k (j ∷ js) p h = elim (Bool-cases (bytes_le k j)) [
    | inl e ↦ rw e (p, h)
    | inr e ↦ rw e (h.0, insert_sorted-All k js p h.1)
  ]

  pub sort-All : (ks : List Bytes) → All P ks → All P (sort ks)
  unfolding sort
  sort-All [] h = tt
  sort-All (k ∷ ks) h = insert_sorted-All k (sort ks) h.0 (sort-All ks h.1)

-- The string is one of the list.
abbrev pub In : Bytes → List Bytes → Type 0
In i [] = ⊥
In i (k ∷ ks) = (k ≡ i) ⊎ In i ks

insert_sorted-In : (i k : Bytes) (ks : List Bytes) → (k ≡ i) ⊎ In i ks → In i (insert_sorted k ks)
unfolding insert_sorted
insert_sorted-In i k [] h = h
insert_sorted-In i k (j ∷ js) h = elim (Bool-cases (bytes_le k j)) [
  | inl e ↦ rw e h
  | inr e ↦ rw e (elim h [
    | inl x ↦ inr (insert_sorted-In i k js (inl x))
    | inr (inl x) ↦ inl x
    | inr (inr x) ↦ inr (insert_sorted-In i k js (inr x))
  ])
]

pub sort-In : (i : Bytes) (ks : List Bytes) → In i ks → In i (sort ks)
unfolding sort
sort-In i [] h = h
sort-In i (k ∷ ks) (inl e) = insert_sorted-In i k (sort ks) (inl e)
sort-In i (k ∷ ks) (inr h) = insert_sorted-In i k (sort ks) (inr (sort-In i ks h))
