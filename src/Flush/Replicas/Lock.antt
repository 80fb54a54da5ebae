-- ===== src/Flush/Replicas/Lock.antt =====
-- One replica at a time is at the message: the reservation, through every step.
use gorabbit.Flush.Replicas.Calls.{
  delete-other, run_op-other, run_op-IsUnique, delete-IsUnique, update-cases,
}
use gorabbit.Prelude.{
  ℕ, ◌+◌, ◌≤◌, Bytes, true, none, some, [], ◌∷◌, ◌≡◌, ◌≢◌, inl, inr, refl, sym, ap, ◌∙◌, arith,
  IsUnique, bytes_eq_refl,
}
use gorabbit.Prelude.Int.{ℤ, pos_part}
use gorabbit.Setup.{Setup}
use gorabbit.Scope.{cache_key, lease_key}
use gorabbit.Scope.Segments.{lease_key-ne}
use gorabbit.Cache.Memory.{Entries, set_if_absent, get, delete}
use gorabbit.Cache.Memory.Keys.{methods-IsUnique}
use gorabbit.Cache.Memory.View.{get-set, set_if_absent_lem, lasting}
use gorabbit.Flush.Defs.{publish_lease_ttl}
use gorabbit.Flush.Replicas.{
  Phase, System, update, enter, idle, reserved, holding, confirmed, failed, Step, reserve, lose,
  find, skip, confirm, fail, remove, release, die, elsewhere, tick, won_at,
}

-- The holder of the reservation is alone, and no other can win it while the clock is in its ttl.
pub record Lock (scope id : Bytes) (setups : ℕ → Setup) (s : System) : Type 0 where
  pub unique : IsUnique s.entries
  pub alone : (i j a b : ℕ) → won_at (s.phases i) ≡ some a → won_at (s.phases j) ≡ some b → i ≡ j
  pub leased :
      (i a : ℕ)
      → won_at (s.phases i) ≡ some a
      → (s.now ≤ a + pos_part (publish_lease_ttl (setups i)))
        × ((t : ℕ)
            → s.now ≤ t
            → t ≤ a + pos_part (publish_lease_ttl (setups i))
            → get t (lease_key scope id) s.entries ≢ none)

module _ (scope id : Bytes) (setups : ℕ → Setup) where
  abbrev IsLocked : System → Type 0
  IsLocked s = Lock scope id setups s

  -- A step that takes no reservation and leaves the lease to its readers.
  pub kept :
      (s s' : System)
      → IsLocked s
      → s'.now ≡ s.now
      → IsUnique s'.entries
      → ((j b : ℕ) → won_at (s'.phases j) ≡ some b → won_at (s.phases j) ≡ some b)
      → ((t : ℕ)
          → s.now ≤ t
          → get t (lease_key scope id) s'.entries ≡ get t (lease_key scope id) s.entries)
      → IsLocked s'
  kept s s' l n u f g = record {
    unique = u;
    alone = λ i j a b x y. l.alone i j a b (f i a x) (f j b y);
    leased = λ i a x.
        let (h, k) = l.leased i a (f i a x) in
        (rw n h, λ t v w z. k t (rw n at v) w (sym (g t (rw n at v)) ∙ z));
  }

  -- The phase of one replica that holds the reservation, or did.
  pub no_new :
      (i : ℕ) (p : Phase) (f : ℕ → Phase)
      → ((b : ℕ) → won_at p ≡ some b → won_at (f i) ≡ some b)
      → (j b : ℕ) → won_at (update i p f j) ≡ some b
      → won_at (f j) ≡ some b
  no_new i p f h j b e = elim (update-cases i j p f) [
    | inl (x, y) ↦ rw x at (h b (sym (ap won_at y) ∙ e))
    | inr (x, y) ↦ sym (ap won_at y) ∙ e
  ]

  -- After a step that leaves nobody with the reservation.
  pub emptied :
      (s : System) → IsUnique s.entries → ((j b : ℕ) → won_at (s.phases j) ≢ some b) → IsLocked s
  emptied s u n = record {
    unique = u;
    alone = λ i j a b x y. absurd (n i a x);
    leased = λ i a x. absurd (n i a x);
  }

  no-some : {a : ℕ} → none ≢ some a
  no-some e = cc

  left :
      (i : ℕ) (f : ℕ → Phase) (j b : ℕ)
      → won_at (update i idle f j) ≡ some b
      → won_at (f j) ≡ some b
  left i f = no_new i idle f (λ b e. absurd (no-some e))

  same :
      (i t : ℕ) (p : Phase) (f : ℕ → Phase)
      → won_at p ≡ some t
      → won_at (f i) ≡ some t
      → (j b : ℕ) → won_at (update i p f j) ≡ some b
      → won_at (f j) ≡ some b
  same i t p f x y = no_new i p f (λ b e. y ∙ sym x ∙ e)

  -- What the winner of the reservation finds: nobody had it, and the lease stands for its ttl.
  won :
      (s : System) (i : ℕ) (c : Bytes)
      → IsLocked s
      → (set_if_absent s.now (lease_key scope id) c (publish_lease_ttl (setups i)) s.entries).1
        ≡ true
      → ((j b : ℕ) → won_at (s.phases j) ≢ some b)
  won s i c l e j b x =
      let (h, k) = l.leased j b x in
      k s.now (omega arith) h (
        (set_if_absent_lem s.now s.now (lease_key scope id) (lease_key scope id) c
            (publish_lease_ttl (setups i)) s.entries l.unique (omega arith)).0.0
          e)

  stands :
      (t t' : ℕ) (k c : Bytes) (ttl : ℤ) (m : Entries)
      → IsUnique m
      → t ≤ t'
      → t' ≤ t + pos_part ttl
      → (set_if_absent t k c ttl m).1 ≡ true
      → get t' k (set_if_absent t k c ttl m).0 ≢ none
  stands t t' k c ttl m u h b e x =
      let facts = set_if_absent_lem t t' k k c ttl m u h in
      let view : get t' k (set_if_absent t k c ttl m).0 ≡ lasting t t' c ttl =
        ap (get t' k) (facts.1 e) ∙ get-set t t' k k c ttl m u h ∙ rw (bytes_eq_refl k) refl in
      ground (arith, sym view ∙ x)

  pub Step-Lock : {s s' : System} → Step scope id setups s s' → IsLocked s → IsLocked s'
  Step-Lock (reserve s i c e w) l =
      let ttl = publish_lease_ttl (setups i) in
      let u = (methods-IsUnique s.now (lease_key scope id) c ttl [] s.entries l.unique).1 in
      let nobody = won s i c l w in
      let mine : (j b : ℕ)
          → won_at (update i (reserved s.now) s.phases j) ≡ some b
          → (i ≡ j) × (s.now ≡ b) =
        λ j b x. elim (update-cases i j (reserved s.now) s.phases) [
          | inl (y, z) ↦ (y, cc)
          | inr (y, z) ↦ absurd (nobody j b (sym (ap won_at z) ∙ x))
        ] in
      record {
        unique = u;
        alone = λ j k a b x y. sym (mine j a x).0 ∙ (mine k b y).0;
        leased = λ j a x.
            let (y, z) = mine j a x in
            rw (sym z, sym y)
              (
                omega arith,
                λ v h b. stands s.now v (lease_key scope id) c ttl s.entries l.unique h b w,
              );
      }
  Step-Lock (lose s i c e w) l =
      let ttl = publish_lease_ttl (setups i) in
      kept s _ l refl (methods-IsUnique s.now (lease_key scope id) c ttl [] s.entries l.unique).1
        (λ j b x. x)
        (λ t h.
          (set_if_absent_lem s.now t (lease_key scope id) (lease_key scope id) c ttl s.entries
              l.unique h).2
            w)
  Step-Lock (find s i t json e g) l =
      kept s _ l refl l.unique (same i t (holding t) s.phases refl (ap won_at e)) (λ t h. refl)
  Step-Lock (skip s i t e) l = kept s _ l refl l.unique (left i s.phases) (λ t h. refl)
  Step-Lock (confirm s i t e) l =
      kept s _ l refl l.unique (same i t (confirmed t) s.phases refl (ap won_at e)) (λ t h. refl)
  Step-Lock (fail s i t e) l =
      kept s _ l refl l.unique (same i t (failed t) s.phases refl (ap won_at e)) (λ t h. refl)
  Step-Lock (remove s i t e) l =
      kept s _ l refl (delete-IsUnique _ s.entries l.unique) (left i s.phases) (λ t h.
        delete-other t (cache_key scope id) (lease_key scope id) s.entries
          (λ e. lease_key-ne scope scope id id (sym e)))
  Step-Lock (release s i t e) l =
      emptied (enter s i idle (delete (lease_key scope id ∷ []) s.entries))
        (delete-IsUnique _ s.entries l.unique)
        (λ j b x. elim (update-cases i j idle s.phases) [
          | inl (y, z) ↦ no-some (sym (ap won_at z) ∙ x)
          | inr (y, z) ↦ y (l.alone i j t b (ap won_at e) (left i s.phases j b x))
        ])
  Step-Lock (die s i n) l = kept s _ l refl l.unique (left i s.phases) (λ t h. refl)
  Step-Lock (elsewhere s o n n') l =
      kept s _ l refl (run_op-IsUnique s.now o s.entries l.unique) (λ j b x. x)
        (λ t h. run_op-other s.now t (lease_key scope id) o s.entries l.unique h n')
  Step-Lock (tick s t h n) l = record {
    unique = l.unique;
    alone = l.alone;
    leased = λ i a x. (n i a x, λ v w z. (l.leased i a x).1 v (omega (arith, h, w)) z);
  }
