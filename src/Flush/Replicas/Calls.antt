-- ===== src/Flush/Replicas/Calls.antt =====
-- What a call of the memory cache does to what a reader finds under one key, then and later.
use gorabbit.Prelude.{
  ℕ, ◌≤◌, Bytes, none, [], ◌∷◌, ◌≡◌, ◌≢◌, ◌⊎◌, inl, inr, refl, ◌==◌, ==_iff, arith, Bool-cases,
  IsUnique, bytes_eq_refl, bytes_eq-false,
}
use gorabbit.Prelude.Int.{ℤ, pos}
use gorabbit.Cache.Memory.{Entries, set, set_if_absent, get, get_all_keys, delete}
use gorabbit.Cache.Memory.Keys.{methods-IsUnique}
use gorabbit.Cache.Memory.View.{get-set, set_if_absent_lem, get-delete, get-evict_expired, has_key}
use gorabbit.Flush.Replicas.{
  Phase, update, Op, op_set, op_set_if_absent, op_list, op_delete, run_op, Spares,
}

-- Under any other key a method leaves what a reader finds, then and later.
set-other :
    (t t' : ℕ) (k j c : Bytes) (ttl : ℤ) (m : Entries)
    → IsUnique m
    → t ≤ t'
    → k ≢ j
    → get t' j (set t k c ttl m) ≡ get t' j m
set-other t t' k j c ttl m u h n = rw (get-set t t' k j c ttl m u h, bytes_eq-false k j n) refl

pub set_if_absent-other :
    (t t' : ℕ) (k j c : Bytes) (ttl : ℤ) (m : Entries)
    → IsUnique m
    → t ≤ t'
    → k ≢ j
    → get t' j (set_if_absent t k c ttl m).0 ≡ get t' j m
set_if_absent-other t t' k j c ttl m u h n =
    let facts = set_if_absent_lem t t' k j c ttl m u h in
    elim (Bool-cases (set_if_absent t k c ttl m).1) [
      | inl e ↦ rw (facts.1 e) (set-other t t' k j c ttl m u h n)
      | inr e ↦ facts.2 e
    ]

pub delete-other :
    (t : ℕ) (k j : Bytes) (m : Entries) → k ≢ j → get t j (delete (k ∷ []) m) ≡ get t j m
unfolding has_key
delete-other t k j m n = rw (get-delete t j (k ∷ []) m, bytes_eq-false k j n) refl

pub delete_self : (t : ℕ) (k : Bytes) (m : Entries) → get t k (delete (k ∷ []) m) ≡ none
unfolding has_key
delete_self t k m = rw (get-delete t k (k ∷ []) m, bytes_eq_refl k) refl

pub run_op-other :
    (t t' : ℕ) (j : Bytes) (o : Op) (m : Entries)
    → IsUnique m
    → t ≤ t'
    → Spares j o
    → get t' j (run_op t o m) ≡ get t' j m
unfolding get_all_keys
run_op-other t t' j (op_set k c ttl) m u h n = set-other t t' k j c ttl m u h n
run_op-other t t' j (op_set_if_absent k c ttl) m u h n = set_if_absent-other t t' k j c ttl m u h n
run_op-other t t' j (op_list p) m u h n = get-evict_expired t t' j m u h
run_op-other t t' j (op_delete k) m u h n = delete-other t' k j m n

pub run_op-IsUnique : (t : ℕ) (o : Op) (m : Entries) → IsUnique m → IsUnique (run_op t o m)
run_op-IsUnique t (op_set k c ttl) m u = (methods-IsUnique t k c ttl [] m u).0
run_op-IsUnique t (op_set_if_absent k c ttl) m u = (methods-IsUnique t k c ttl [] m u).1
run_op-IsUnique t (op_list p) m u = (methods-IsUnique t p [] (pos 0) [] m u).2
run_op-IsUnique t (op_delete k) m u = (methods-IsUnique t [] [] (pos 0) (k ∷ []) m u).3

pub delete-IsUnique : (k : Bytes) (m : Entries) → IsUnique m → IsUnique (delete (k ∷ []) m)
delete-IsUnique k m u = run_op-IsUnique 0 (op_delete k) m u

pub update-cases :
    (i j : ℕ) (p : Phase) (f : ℕ → Phase)
    → ((i ≡ j) × (update i p f j ≡ p)) ⊎ ((i ≢ j) × (update i p f j ≡ f j))
update-cases i j p f = elim (Bool-cases (i == j)) [
  | inl e ↦ inl ((==_iff i j).0 e, rw e refl)
  | inr e ↦ inr (λ x. absurd (ground arith), rw e refl)
]

pub update_self : (i : ℕ) (p : Phase) (f : ℕ → Phase) → update i p f i ≡ p
update_self i p f = elim (update-cases i i p f) [ inl (x, y) ↦ y | inr (x, y) ↦ absurd (x refl) ]

-- The time from which one key shows nothing.
abbrev pub IsGone : Bytes → ℕ → Entries → Type 0
IsGone k now m = (t : ℕ) → now ≤ t → get t k m ≡ none
