-- ===== src/Scope/Segments.antt =====
-- Reading keys back: the message id of a key, and keys that differ.
use gorabbit.Prelude.{
  ℕ, Bytes, true, [], ◌∷◌, ◌++◌, ◌==◌, if◌then◌else◌, codes, ◌≡◌, ◌≢◌, refl, sym, ap, ◌∙◌, ap₂,
  arith, Lacks, Bool-cases, inl, inr,
}
use mathlib.Core.Bool.{false≢true}
use gorabbit.Setup.{Setup}
use gorabbit.Scope.Defs.{
  publish_lease_prefix, cache_scope, cache_key, lease_key, msg_id_from_cache_key, after_last_colon,
}

after_last_colon-none : (t s : Bytes) → Lacks b':' s → after_last_colon t s ≡ t
unfolding after_last_colon
after_last_colon-none t [] h = refl
after_last_colon-none t (c ∷ s) h =
    after_last_colon-none (if c == b':' then s else t) s h.1 ∙ ground arith

after_last_colon-append : (t r s : Bytes) → Lacks b':' s → after_last_colon t (r ++ b':' ∷ s) ≡ s
unfolding after_last_colon
after_last_colon-append t [] s h = after_last_colon-none s s h
after_last_colon-append t (c ∷ r) s h =
    after_last_colon-append (if c == b':' then r ++ b':' ∷ s else t) r s h

-- The id of a message, which has no colon, is read back from its key, whatever colons the scope
-- has.
pub msg_id-cache_key :
    (scope msg_id : Bytes)
    → Lacks b':' msg_id
    → msg_id_from_cache_key (cache_key scope msg_id) ≡ msg_id
unfolding msg_id_from_cache_key cache_key
msg_id-cache_key scope msg_id h = after_last_colon-append (scope ++ b':' ∷ msg_id) scope msg_id h

pub cons-cancel : {a b : ℕ} {s t : Bytes} → a ∷ s ≡ b ∷ t → (a ≡ b) × (s ≡ t)
cons-cancel e = (cc, cc)

-- The text before the first separator, and the one behind it, where the first parts lack it.
pub split_at_separator :
    (c : ℕ) (a b s t : Bytes) → Lacks c a → Lacks c b → a ++ c ∷ s ≡ b ++ c ∷ t → (a ≡ b) × (s ≡ t)
split_at_separator c [] [] s t ha hb e = (refl, (cons-cancel e).1)
split_at_separator c [] (y ∷ b) s t ha hb e = absurd (hb.0 (sym (cons-cancel e).0))
split_at_separator c (x ∷ a) [] s t ha hb e = absurd (ha.0 (cons-cancel e).0)
split_at_separator c (x ∷ a) (y ∷ b) s t ha hb e =
    let (head, tail) = cons-cancel e in
    let (first, rest) = split_at_separator c a b s t ha.1 hb.1 tail in (ap₂ ◌∷◌ head first, rest)

pub append-cancel : (t s u : Bytes) → t ++ s ≡ t ++ u → s ≡ u
append-cancel [] s u e = e
append-cancel (c ∷ t) s u e = append-cancel t s u (cons-cancel e).1

-- Keys under different prefixes differ: a lease is never read as a message, whatever the scopes.
pub lease_key-ne : (scope scope' id id' : Bytes) → lease_key scope id ≢ cache_key scope' id'
unfolding lease_key cache_key
lease_key-ne scope scope' id id' e =
    letters_differ (cons-cancel (append-cancel (codes "gorabbit:") _ _ e)).0
  where
    letters_differ : ¬ (◌≡◌ {A = ℕ} b'p' b'c')
    letters_differ h = omega arith

pub cache_key-ne :
    (scope id id' : Bytes)
    → Lacks b':' id
    → Lacks b':' id'
    → id ≢ id'
    → cache_key scope id ≢ cache_key scope id'
cache_key-ne scope id id' n n' d e =
    d (
      sym (msg_id-cache_key scope id n)
      ∙ ap msg_id_from_cache_key e
      ∙ msg_id-cache_key scope id' n')

pub lease_key-other : (scope id id' : Bytes) → id ≢ id' → lease_key scope id ≢ lease_key scope id'
unfolding lease_key
lease_key-other scope id id' d e =
    d
      (cons-cancel
        (append-cancel scope _ _ (cons-cancel (append-cancel publish_lease_prefix _ _ e)).1)).1

pub roles_differ : (s t : Bytes) → codes "consumer:" ++ s ≢ codes "publisher:" ++ t
roles_differ s t e = absurd_letter (cons-cancel e).0
  where
    absurd_letter : ¬ (◌≡◌ {A = ℕ} b'c' b'p')
    absurd_letter h = omega arith

-- One scope never serves two clients whose app and exchange names have no colon: a publisher's and
-- a consumer's scope differ, two publishers with one scope have one app and one exchange, and two
-- consumers also one queue.
pub cache_scope-injective :
    (s t : Setup)
    → Lacks b':' s.app_name
    → Lacks b':' t.app_name
    → Lacks b':' s.exchange_name
    → Lacks b':' t.exchange_name
    → cache_scope s ≡ cache_scope t
    → (s.is_consumer ≡ t.is_consumer)
      × (s.app_name ≡ t.app_name)
      × (s.exchange_name ≡ t.exchange_name)
      × (s.is_consumer ≡ true → s.queue_name ≡ t.queue_name)
unfolding cache_scope
cache_scope-injective s t sa ta sx tx e = elim (Bool-cases s.is_consumer) [
  | inl c ↦ elim (Bool-cases t.is_consumer) [
    | inl d ↦
        let (same_app, rest) =
          split_at_separator b':' _ _ _ _ sa ta
            (append-cancel (codes "consumer:") _ _ (rw (c, d) at e)) in
        let (same_exchange, same_queue) = split_at_separator b':' _ _ _ _ sx tx rest in
        (c ∙ sym d, same_app, same_exchange, λ _. same_queue)
    | inr d ↦ absurd (roles_differ _ _ (rw (c, d) at e))
  ]
  | inr c ↦ elim (Bool-cases t.is_consumer) [
    | inl d ↦ absurd (roles_differ _ _ (sym (rw (c, d) at e)))
    | inr d ↦
        let (same_app, same_exchange) =
          split_at_separator b':' _ _ _ _ sa ta
            (append-cancel (codes "publisher:") _ _ (rw (c, d) at e)) in
        (c ∙ sym d, same_app, same_exchange, λ b. absurd (false≢true (sym c ∙ b)))
  ]
]
