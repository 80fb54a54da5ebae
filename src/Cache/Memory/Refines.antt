-- ===== src/Cache/Memory/Refines.antt =====
-- cache.go, `memoryCache`, behind its interface: any run of calls against a map that forgets by the
-- clock, whose entries, eviction and order no caller sees.
use gorabbit.Prelude.{
  ℕ, ◌+◌, ◌≤◌, Bytes, Bool, true, false, Option, none, some, List, [], ◌∷◌, if◌then◌else◌, bytes_eq,
  ◌≡◌, ◌≢◌, ◌↔◌, refl, sym, ap, ◌∙◌, arith, Bool-cases, Lacks, inl, inr, IsUnique, lookup,
}
use gorabbit.Prelude.Int.{ℤ, pos}
use gorabbit.Cache.Glob.Relation.{Matches}
use gorabbit.Cache.Memory.Defs.{
  Entries, new_memory_cache, set, set_if_absent, get, get_all_keys, delete,
}
use gorabbit.Cache.Memory.Keys.{methods-IsUnique}
use gorabbit.Cache.Memory.View.{
  has_key, lasting, get-set, set_if_absent_lem, get-delete, get-evict_expired,
}
use gorabbit.Cache.Memory.Listing.{get_all_keys_lem}

-- The methods of `Cache`, with their arguments and what they answer; the memory cache never fails.
pub data Request : Type 0 where
  to_set to_set_if_absent : Bytes → Bytes → ℤ → Request
  to_get to_list : Bytes → Request
  to_delete : List Bytes → Request

pub data Reply : Type 0 where
  done : Reply
  won : Bool → Reply
  found : Option Bytes → Reply
  listed : List Bytes → Reply

unfoldable pub serve : ℕ → Request → Entries → Entries × Reply
unfolding set set_if_absent get get_all_keys delete
serve now (to_set k c ttl) m = (set now k c ttl m, done)
serve now (to_set_if_absent k c ttl) m = let r = set_if_absent now k c ttl m in (r.0, won r.1)
serve now (to_get k) m = (m, found (get now k m))
serve now (to_list p) m = let r = get_all_keys now p m in (r.0, listed r.1)
serve now (to_delete keys) m = (delete keys m, done)

-- The calls that come one after the other, each with the time that has gone by since the last.
unfoldable pub serve_all : ℕ → List (ℕ × Request) → Entries → List Reply
unfolding serve
serve_all now [] m = []
serve_all now ((d, q) ∷ qs) m = let r = serve (now + d) q m in r.1 ∷ serve_all (now + d) qs r.0

-- The abstract cache: what is under a key at a time.
abbrev pub Timed : Type 0
Timed = ℕ → Bytes → Option Bytes

abbrev pub empty : Timed
empty t k = none

abbrev pub put : ℕ → Bytes → Bytes → ℤ → Timed → Timed
put now k c ttl V t j = if bytes_eq k j then lasting now t c ttl else V t j

abbrev pub is_none : Option Bytes → Bool
is_none none = true
is_none (some b) = false

-- What the call makes of the abstract cache.
abbrev pub after : ℕ → Request → Timed → Timed
after now (to_set k c ttl) V = put now k c ttl V
after now (to_set_if_absent k c ttl) V =
    λ t j. if is_none (V now k) then put now k c ttl V t j else V t j
after now (to_get k) V = V
after now (to_list p) V = V
after now (to_delete keys) V = λ t j. if has_key j keys then none else V t j

-- What the answer says of the abstract cache.
abbrev pub Answers : ℕ → Request → Timed → Reply → Type 0
Answers now (to_set k c ttl) V r = r ≡ done
Answers now (to_set_if_absent k c ttl) V r = r ≡ won (is_none (V now k))
Answers now (to_get k) V r = r ≡ found (V now k)
Answers now (to_list p) V r =
    (keys : List Bytes) × (r ≡ listed keys)
    × ((j : Bytes) → Lacks b'*' j → (has_key j keys ≡ true) ↔ (Matches p j × (V now j ≢ none)))
Answers now (to_delete keys) V r = r ≡ done

-- The answers, one for each call, are those of the abstract cache that starts as `V`.
unfoldable pub Promises : ℕ → List (ℕ × Request) → Timed → List Reply → Type 0
Promises now [] V rs = rs ≡ []
Promises now ((d, q) ∷ qs) V rs =
    (r : Reply) × (rest : List Reply) × (rs ≡ r ∷ rest)
    × Answers (now + d) q V r
    × Promises (now + d) qs (after (now + d) q V) rest

-- From `now` on a reader sees what the abstract cache holds.
record Shows (now : ℕ) (m : Entries) (V : Timed) : Type 0 where
  unique : IsUnique m
  seen : (t : ℕ) (j : Bytes) → now ≤ t → get t j m ≡ V t j

Shows-later : (now t : ℕ) (m : Entries) (V : Timed) → now ≤ t → Shows now m V → Shows t m V
Shows-later now t m V h s = record { unique = s.unique; seen = λ u j l. s.seen u j (omega arith) }

is_none-true : (o : Option Bytes) → is_none o ≡ true → o ≡ none
is_none-true o e = ground arith

is_none-false : (o : Option Bytes) → is_none o ≡ false → o ≢ none
is_none-false o e n = ground arith

not_true : (b : Bool) → b ≢ true → b ≡ false
not_true b n = ground arith

-- The answer of `SetIfAbsent` and what is left, by what is under the key.
set_if_absent-Shows :
    (now : ℕ) (k c : Bytes) (ttl : ℤ) (m : Entries) (V : Timed)
    → Shows now m V
    → ((set_if_absent now k c ttl m).1 ≡ is_none (V now k))
      × ((t : ℕ) (j : Bytes)
          → now ≤ t
          → get t j (set_if_absent now k c ttl m).0 ≡ after now (to_set_if_absent k c ttl) V t j)
set_if_absent-Shows now k c ttl m V s =
    let lem = λ (t : ℕ) (j : Bytes) (l : now ≤ t). set_if_absent_lem now t k j c ttl m s.unique l in
    let here = s.seen now k (omega arith) in
    let iff = (lem now k (omega arith)).0 in
    elim (Bool-cases (is_none (V now k))) [
      | inl e ↦ rw e (
        iff.1 (here ∙ is_none-true _ e),
        λ t j l.
            ap (get t j) ((lem t j l).1 (iff.1 (here ∙ is_none-true _ e)))
            ∙ get-set now t k j c ttl m s.unique l
            ∙ ap (λ o. if bytes_eq k j then lasting now t c ttl else o) (s.seen t j l),
      )
      | inr e ↦
          let lost : (set_if_absent now k c ttl m).1 ≡ false =
            not_true _ (λ w. is_none-false _ e (sym here ∙ iff.0 w)) in
          rw e (lost, λ t j l. (lem t j l).2 lost ∙ s.seen t j l)
    ]

-- A call answers what the abstract cache says, and leaves what it makes of it.
serve-Answers :
    (now : ℕ) (q : Request) (m : Entries) (V : Timed)
    → Shows now m V
    → Answers now q V (serve now q m).1 × Shows now (serve now q m).0 (after now q V)
unfolding serve get_all_keys
serve-Answers now (to_set k c ttl) m V s = (
  refl,
  record {
    unique = (methods-IsUnique now k c ttl [] m s.unique).0;
    seen = λ t j l.
        get-set now t k j c ttl m s.unique l
        ∙ ap (λ o. if bytes_eq k j then lasting now t c ttl else o) (s.seen t j l);
  },
)
serve-Answers now (to_set_if_absent k c ttl) m V s =
    let (won_it, view) = set_if_absent-Shows now k c ttl m V s in
    (ap won won_it, record { unique = (methods-IsUnique now k c ttl [] m s.unique).1; seen = view })
serve-Answers now (to_get k) m V s = (ap found (s.seen now k (omega arith)), s)
serve-Answers now (to_list p) m V s = (
  (
    (get_all_keys now p m).1,
    refl,
    λ j h.
        let lem = (get_all_keys_lem now now p j m s.unique (omega arith) h).0 in
        let here = s.seen now j (omega arith) in
        (
          λ b. let (mt, n) = lem.0 b in (mt, λ e. n (here ∙ e)),
          λ (mt, n). lem.1 (mt, λ e. n (sym here ∙ e)),
        ),
  ),
  record {
    unique = (methods-IsUnique now p [] (pos 0) [] m s.unique).2;
    seen = λ t j l. get-evict_expired now t j m s.unique l ∙ s.seen t j l;
  },
)
serve-Answers now (to_delete keys) m V s = (
  refl,
  record {
    unique = (methods-IsUnique now [] [] (pos 0) keys m s.unique).3;
    seen = λ t j l.
        get-delete t j keys m ∙ ap (λ o. if has_key j keys then none else o) (s.seen t j l);
  },
)

serve_all-Promises :
    (now : ℕ) (qs : List (ℕ × Request)) (m : Entries) (V : Timed)
    → Shows now m V
    → Promises now qs V (serve_all now qs m)
unfolding Promises serve_all
serve_all-Promises now [] m V s = refl
serve_all-Promises now ((d, q) ∷ qs) m V s =
    let (answer, left) =
      serve-Answers (now + d) q m V (Shows-later now (now + d) m V (omega arith) s) in
    (_, _, refl, answer, serve_all-Promises (now + d) qs _ _ left)

-- Whatever calls come to a new memory cache, one after the other and each at a later time or the
-- same: the answers are those of a map from times to what is under each key, which is empty at
-- first, in which `Set` puts its data until the ttl is over, `SetIfAbsent` does so where nothing is
-- under the key, and says whether it did, `Delete` takes its keys away, and `Get` and `GetAllKeys`
-- change nothing; `Get` answers what is under the key, and `GetAllKeys` lists a key without a star
-- exactly if it matches the pattern and something is under it.
pub new_memory_cache-Promises :
    (now : ℕ) (qs : List (ℕ × Request)) → Promises now qs empty (serve_all now qs new_memory_cache)
unfolding new_memory_cache get lookup
new_memory_cache-Promises now qs =
    serve_all-Promises now qs new_memory_cache empty (record { unique = tt; seen = λ t j l. refl })
