-- ===== src/Scope/Isolation.antt =====
-- Which messages a client finds when it lists its cached messages.
use gorabbit.Prelude.{
  ℕ, Bytes, true, [], ◌∷◌, ◌++◌, codes, ◌≡◌, ◌≢◌, ◌↔◌, sym, ◌∙◌, ap, ap₂, arith, Lacks, All-append,
  All-append_left, length, length-append, All-append_right, append_assoc, Bool-cases, inl, inr,
}
use gorabbit.Setup.{Setup}
use gorabbit.Cache.Glob.Relation.{Matches}
use gorabbit.Cache.Glob.Prefix.{Matches-prefix_iff}
use gorabbit.Scope.Defs.{cached_message_prefix, cache_scope, cache_key, cached_message_pattern}
use gorabbit.Scope.Segments.{split_at_separator, append-cancel, roles_differ}

-- No colon and no wildcard.
pub record IsPlain (s : Bytes) : Type 0 where
  pub colon : Lacks b':' s
  pub star : Lacks b'*' s
  pub mark : Lacks b'?' s

-- The names that a scope is made of are plain.
pub record HasPlainNames (s : Setup) : Type 0 where
  pub app : IsPlain s.app_name
  pub exchange : IsPlain s.exchange_name
  pub queue : IsPlain s.queue_name

scope-Lacks :
    (c : ℕ) (s : Setup)
    → Lacks c (codes "consumer:publisher:")
    → b':' ≢ c
    → Lacks c s.app_name
    → Lacks c s.exchange_name
    → Lacks c s.queue_name
    → Lacks c (cache_scope s)
unfolding cache_scope
scope-Lacks c s l n a x q =
    let roles = All-append_left (λ y. y ≢ c) (codes "consumer:") (codes "publisher:") l in
    let roles' = All-append_right (λ y. y ≢ c) (codes "consumer:") (codes "publisher:") l in
    elim (Bool-cases s.is_consumer) [
      | inl e ↦ rw e (
          All-append _ (codes "consumer:") _ roles
            (All-append _ s.app_name _ a (n, All-append _ s.exchange_name _ x (n, q))))
      | inr e ↦
          rw e (All-append _ (codes "publisher:") _ roles' (All-append _ s.app_name _ a (n, x)))
    ]

-- Texts of two and of three segments, each followed by the separator: the segments agree.
two_segments :
    (c : ℕ) (a x a' x' id r : Bytes)
    → Lacks c a
    → Lacks c a'
    → Lacks c x
    → Lacks c x'
    → (a ++ c ∷ x) ++ c ∷ id ≡ (a' ++ c ∷ x') ++ c ∷ r
    → a ++ c ∷ x ≡ a' ++ c ∷ x'
two_segments c a x a' x' id r la la' lx lx' e =
    let (first, rest) =
      split_at_separator c a a' (x ++ c ∷ id) (x' ++ c ∷ r) la la'
        (sym (append_assoc a (c ∷ x) (c ∷ id)) ∙ e ∙ append_assoc a' (c ∷ x') (c ∷ r)) in
    ap₂ (λ y z. y ++ c ∷ z) first (split_at_separator c x x' id r lx lx' rest).0

three_segments :
    (c : ℕ) (a x q a' x' q' id r : Bytes)
    → Lacks c a
    → Lacks c a'
    → Lacks c x
    → Lacks c x'
    → Lacks c q
    → Lacks c q'
    → (a ++ c ∷ (x ++ c ∷ q)) ++ c ∷ id ≡ (a' ++ c ∷ (x' ++ c ∷ q')) ++ c ∷ r
    → a ++ c ∷ (x ++ c ∷ q) ≡ a' ++ c ∷ (x' ++ c ∷ q')
three_segments c a x q a' x' q' id r la la' lx lx' lq lq' e =
    let (first, rest) =
      split_at_separator c a a' ((x ++ c ∷ q) ++ c ∷ id) ((x' ++ c ∷ q') ++ c ∷ r) la la' (
        sym (append_assoc a (c ∷ (x ++ c ∷ q)) (c ∷ id))
        ∙ e
        ∙ append_assoc a' (c ∷ (x' ++ c ∷ q')) (c ∷ r)) in
    ap₂ (λ y z. y ++ c ∷ z) first (two_segments c x q x' q' id r lx lx' lq lq' rest)

-- What stands behind one scope and a colon in a key decides the scope.
scope_prefix :
    (s t : Setup) (id r : Bytes)
    → HasPlainNames s
    → HasPlainNames t
    → cache_scope t ++ b':' ∷ id ≡ cache_scope s ++ b':' ∷ r
    → cache_scope s ≡ cache_scope t
unfolding cache_scope
scope_prefix s t id r ps pt e = elim (Bool-cases s.is_consumer) [
  | inl c ↦ elim (Bool-cases t.is_consumer) [
    | inl d ↦
        rw (c, d)
          (ap (λ n. codes "consumer:" ++ n)
            (three_segments b':' _ _ _ _ _ _ r id ps.app.colon pt.app.colon ps.exchange.colon
              pt.exchange.colon ps.queue.colon pt.queue.colon
              (append-cancel (codes "consumer:") _ _ (sym (rw (c, d) at e)))))
    | inr d ↦ absurd (roles_differ _ _ (sym (rw (c, d) at e)))
  ]
  | inr c ↦ elim (Bool-cases t.is_consumer) [
    | inl d ↦ absurd (roles_differ _ _ (rw (c, d) at e))
    | inr d ↦
        rw (c, d)
          (ap (λ n. codes "publisher:" ++ n)
            (two_segments b':' _ _ _ _ r id ps.app.colon pt.app.colon ps.exchange.colon
              pt.exchange.colon (append-cancel (codes "publisher:") _ _ (sym (rw (c, d) at e)))))
  ]
]

cache_key-append : (scope id : Bytes) → cache_key scope id ≡ cache_key scope [] ++ id
unfolding cache_key
cache_key-append scope id =
    ap (λ t. cached_message_prefix ++ b':' ∷ t) (sym (append_assoc scope (b':' ∷ []) id))

cache_key_scope :
    (s t id r : Bytes) → cache_key t id ≡ cache_key s [] ++ r → t ++ b':' ∷ id ≡ s ++ b':' ∷ r
unfolding cache_key
cache_key_scope s t id r e =
    append-cancel (cached_message_prefix ++ b':' ∷ []) _ _ e ∙ append_assoc s (b':' ∷ []) r

prefix-Lacks :
    (c : ℕ) (scope : Bytes)
    → Lacks c (codes "gorabbit:cached_messages:")
    → Lacks c scope
    → b':' ≢ c
    → Lacks c (cache_key scope [])
unfolding cache_key
prefix-Lacks c scope l ls n =
    All-append _ (codes "gorabbit:cached_messages:") _ l (All-append _ scope _ ls (n, tt))

HasPlainNames-Lacks_star : (s : Setup) → HasPlainNames s → Lacks b'*' (cache_key (cache_scope s) [])
HasPlainNames-Lacks_star s p =
    prefix-Lacks b'*' (cache_scope s) (omega arith)
      (scope-Lacks b'*' s (omega arith) (omega arith) p.app.star p.exchange.star p.queue.star)
      (omega arith)

HasPlainNames-Lacks_mark : (s : Setup) → HasPlainNames s → Lacks b'?' (cache_key (cache_scope s) [])
HasPlainNames-Lacks_mark s p =
    prefix-Lacks b'?' (cache_scope s) (omega arith)
      (scope-Lacks b'?' s (omega arith) (omega arith) p.app.mark p.exchange.mark p.queue.mark)
      (omega arith)

-- Among clients whose names hold no colon and no wildcard, the pattern by which a client lists its
-- cached messages matches the key of a message exactly if the message was cached under its own
-- scope: it misses none of its messages and finds none of another client's.
pub cached_message_pattern_iff :
    (s t : Setup) (id : Bytes)
    → HasPlainNames s
    → HasPlainNames t
    → Matches (cached_message_pattern (cache_scope s)) (cache_key (cache_scope t) id)
      ↔ (cache_scope s ≡ cache_scope t)
unfolding cached_message_pattern
cached_message_pattern_iff s t id ps pt =
    let (only, all) =
      Matches-prefix_iff (cache_key (cache_scope s) []) (cache_key (cache_scope t) id)
        (HasPlainNames-Lacks_star s ps) (HasPlainNames-Lacks_mark s ps) in
    (
      λ m. let (r, e) = only m in scope_prefix s t id r ps pt (cache_key_scope _ _ _ _ e),
      λ e. all (id, cache_key-append _ id ∙ ap (λ k. cache_key k [] ++ id) (sym e)),
    )

longer_scope :
    (s : Setup) (x : Bytes)
    → s.is_consumer ≡ true
    → cache_scope (record s { queue_name = s.queue_name ++ b':' ∷ x }) ≡ cache_scope s ++ b':' ∷ x
unfolding cache_scope
longer_scope s x c = rw c (ap (λ n. codes "consumer:" ++ n) (simp append_assoc))

append_longer : (s x : Bytes) → s ≢ s ++ b':' ∷ x
append_longer s x e = omega (arith, ap length e, length-append s (b':' ∷ x))

longer_key :
    (scope x id : Bytes) → cache_key (scope ++ b':' ∷ x) id ≡ cache_key scope [] ++ (x ++ b':' ∷ id)
unfolding cache_key
longer_key scope x id =
    ap (λ t. cached_message_prefix ++ b':' ∷ t) (append_assoc scope (b':' ∷ x) (b':' ∷ id))
    ∙ cache_key-append scope (x ++ b':' ∷ id)

-- Between clients whose names are else plain, a colon in a queue's name breaks the separation: a
-- consumer of a queue lists the cached messages of the consumer of the same app and exchange whose
-- queue is named after it with a colon behind, and the two scopes differ.
pub queue_name_colon :
    (s : Setup) (x id : Bytes)
    → HasPlainNames s
    → s.is_consumer ≡ true
    → let t = record s { queue_name = s.queue_name ++ b':' ∷ x } in
      Matches (cached_message_pattern (cache_scope s)) (cache_key (cache_scope t) id)
      × (cache_scope s ≢ cache_scope t)
unfolding cached_message_pattern
queue_name_colon s x id p c = rw (longer_scope s x c) (
  (Matches-prefix_iff (cache_key (cache_scope s) []) (cache_key (cache_scope s ++ b':' ∷ x) id)
        (HasPlainNames-Lacks_star s p) (HasPlainNames-Lacks_mark s p)).1
      (x ++ b':' ∷ id, longer_key (cache_scope s) x id),
  append_longer (cache_scope s) x,
)
