-- ===== src/Prelude/GoMaps.antt =====
-- Go maps keyed by strings, as association lists: reading, writing and `delete`.
use mathlib.Core.Path.{◌≡◌, refl}
use mathlib.Core.Logic.{◌≢◌, inl, inr}
use mathlib.Core.List.{List, [], ◌∷◌}
use mathlib.Core.Option.{Option, none, some}
use native.Mathlib.Omega.{arith}
use gorabbit.Prelude.Tests.{if◌then◌else◌, Bool-cases}
use gorabbit.Prelude.GoStrings.{
  Bytes, bytes_eq, bytes_eq_iff, bytes_eq_refl, bytes_eq-false, bytes_eq_sym,
}

abbrev pub Assoc {ℓ} : Type ℓ → Type ℓ
Assoc V = List (Bytes × V)

module _ {ℓ} {V : Type ℓ} where
  unfoldable pub lookup : Bytes → Assoc V → Option V
  unfolding bytes_eq
  lookup k [] = none
  lookup k ((j, v) ∷ m) = if bytes_eq j k then some v else lookup k m

  unfoldable pub insert : Bytes → V → Assoc V → Assoc V
  unfolding bytes_eq
  insert k v [] = (k, v) ∷ []
  insert k v (binding ∷ m) =
      let rest = insert k v m in if bytes_eq binding.0 k then (k, v) ∷ m else binding ∷ rest

  unfoldable pub erase : Bytes → Assoc V → Assoc V
  unfolding bytes_eq
  erase k [] = []
  erase k ((j, w) ∷ m) = let rest = erase k m in if bytes_eq j k then rest else (j, w) ∷ rest

module _ {ℓ} {V : Type ℓ} where
  pub lookup-insert :
      (k j : Bytes) (v : V) (m : Assoc V)
      → lookup j (insert k v m) ≡ (if bytes_eq k j then some v else lookup j m)
  unfolding lookup insert
  lookup-insert k j v (binding ∷ m) =
      let i = binding.0 in
      let ih = lookup-insert k j v m in
      ground (arith, ih, bytes_eq_iff i j, bytes_eq_iff i k, bytes_eq_iff k j)
  lookup-insert k j v [] = refl

  pub lookup-erase :
      (k j : Bytes) (m : Assoc V)
      → lookup j (erase k m) ≡ (if bytes_eq k j then none else lookup j m)
  unfolding lookup erase
  lookup-erase k j [] = ground arith
  lookup-erase k j ((i, w) ∷ m) =
      ground (arith, bytes_eq_iff k j, bytes_eq_iff i k, bytes_eq_iff i j, lookup-erase k j m)

  pub lookup-insert_self : (k : Bytes) (v : V) (m : Assoc V) → lookup k (insert k v m) ≡ some v
  lookup-insert_self k v m = rw (lookup-insert k k v m) (rw (bytes_eq_refl k))

  pub lookup-insert_ne :
      (k j : Bytes) (v : V) (m : Assoc V) → k ≢ j → lookup j (insert k v m) ≡ lookup j m
  lookup-insert_ne k j v m n = rw (lookup-insert k j v m) (rw (bytes_eq-false k j n))

  pub lookup-erase_self : (k : Bytes) (m : Assoc V) → lookup k (erase k m) ≡ none
  lookup-erase_self k m = rw (lookup-erase k k m) (rw (bytes_eq_refl k))

  pub lookup-erase_ne : (k j : Bytes) (m : Assoc V) → k ≢ j → lookup j (erase k m) ≡ lookup j m
  lookup-erase_ne k j m n = rw (lookup-erase k j m) (rw (bytes_eq-false k j n))

-- A Go map has one entry for a key.
abbrev pub IsUnique {ℓ} : {V : Type ℓ} → Assoc V → Type ℓ
IsUnique [] = Unit
IsUnique ((k, v) ∷ m) = (lookup k m ≡ none) × IsUnique m

module _ {ℓ} {V : Type ℓ} where
  pub insert-IsUnique : (k : Bytes) (v : V) (m : Assoc V) → IsUnique m → IsUnique (insert k v m)
  unfolding insert
  insert-IsUnique k v [] u = (unfold lookup in refl, tt)
  insert-IsUnique k v ((j, w) ∷ m) u = elim (Bool-cases (bytes_eq j k)) [
    | inl e ↦ rw e (rw ((bytes_eq_iff j k).0 e) at u)
    | inr n ↦ rw n (rw (lookup-insert k j v m, bytes_eq_sym k j, n) u.0, insert-IsUnique k v m u.1)
  ]

  pub erase-IsUnique : (k : Bytes) (m : Assoc V) → IsUnique m → IsUnique (erase k m)
  unfolding erase
  erase-IsUnique k [] u = tt
  erase-IsUnique k ((j, w) ∷ m) u = elim (Bool-cases (bytes_eq j k)) [
    | inl e ↦ rw e (erase-IsUnique k m u.1)
    | inr n ↦ rw n (rw (lookup-erase k j m, bytes_eq_sym k j, n) u.0, erase-IsUnique k m u.1)
  ]
