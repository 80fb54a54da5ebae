-- ===== src/Flush/Replicas/Once.antt =====
-- The broker confirms the message once: what the confirmation leaves behind, through every step.
use gorabbit.Prelude.{
  ℕ, ◌≤◌, Bytes, Option, none, some, [], ◌∷◌, ◌≡◌, ◌≢◌, inl, inr, refl, sym, ap, ◌∙◌, arith,
}
use gorabbit.Setup.{Setup}
use gorabbit.Scope.{cache_key, lease_key}
use gorabbit.Scope.Segments.{lease_key-ne}
use gorabbit.Cache.Memory.{Entries, set_if_absent, get, delete}
use gorabbit.Flush.Defs.{publish_lease_ttl}
use gorabbit.Flush.Replicas.Calls.{
  set_if_absent-other, delete-other, delete_self, run_op-other, update-cases, update_self, IsGone,
}
use gorabbit.Flush.Replicas.Lock.{Lock, Step-Lock, emptied}
use gorabbit.Flush.Replicas.{
  Phase, System, update, won_at, enter, idle, reserved, holding, confirmed, failed, Step, reserve,
  lose, find, skip, confirm, fail, remove, release, die, elsewhere, tick, Reach, here, next,
  IsInitial,
}

-- Nothing confirmed; confirmed to one that has not yet removed the message; removed.
data Account (scope id : Bytes) (s : System) : Type 0 where
  unsent : s.accepted ≡ 0 → Account scope id s
  unremoved : (i t : ℕ) → s.phases i ≡ confirmed t → s.accepted ≡ 1 → Account scope id s
  removed :
      ((j t : ℕ) → s.phases j ≢ holding t)
      → IsGone (cache_key scope id) s.now s.entries
      → s.accepted ≡ 1
      → Account scope id s

clash : {p : Phase} {t u : ℕ} → p ≡ holding t → p ≡ confirmed u → ⊥
clash a b = cc

unheld : {p : Phase} {t : ℕ} → p ≡ idle → won_at p ≡ some t → ⊥
unheld e x = cc

early : {p : Phase} {t u : ℕ} → p ≡ reserved t → p ≡ confirmed u → ⊥
early a b = cc

found : {o : Option Bytes} {c : Bytes} → o ≡ some c → o ≡ none → ⊥
found a b = cc

module _ (scope id : Bytes) (setups : ℕ → Setup) where
  abbrev key : Bytes
  key = cache_key scope id

  -- A step of one replica that neither confirms, nor starts to publish.
  quiet :
      (s : System) (i : ℕ) (p : Phase) (m : Entries)
      → ((t : ℕ) → s.phases i ≢ confirmed t)
      → ((t : ℕ) → p ≢ holding t)
      → ((t : ℕ) → s.now ≤ t → get t key m ≡ get t key s.entries)
      → Account scope id s
      → Account scope id (enter s i p m)
  quiet s i p m nc nh g (unsent z) = unsent z
  quiet s i p m nc nh g (unremoved j t e z) = elim (update-cases i j p s.phases) [
    | inl (x, y) ↦ absurd (nc t (ap s.phases x ∙ e))
    | inr (x, y) ↦ unremoved j t (y ∙ e) z
  ]
  quiet s i p m nc nh g (removed n k z) =
      removed
        (λ j t e. elim (update-cases i j p s.phases) [
          | inl (x, y) ↦ nh t (sym y ∙ e)
          | inr (x, y) ↦ n j t (sym y ∙ e)
        ])
        (λ t h. g t h ∙ k t h) z

  -- A step that moves the cache or the clock alone.
  still :
      (s s' : System)
      → s'.phases ≡ s.phases
      → s'.accepted ≡ s.accepted
      → s.now ≤ s'.now
      → ((t : ℕ) → s.now ≤ t → get t key s'.entries ≡ get t key s.entries)
      → Account scope id s
      → Account scope id s'
  still s s' p a n g (unsent z) = unsent (a ∙ z)
  still s s' p a n g (unremoved j t e z) = unremoved j t (ap (λ f. f j) p ∙ e) (a ∙ z)
  still s s' p a n g (removed o k z) =
      removed (λ j t e. o j t (sym (ap (λ f. f j) p) ∙ e))
        (λ t h. g t (omega (arith, n, h)) ∙ k t (omega (arith, n, h))) (a ∙ z)

  -- The one at the message is the only one, so another has not confirmed it.
  unconfirmed :
      (s : System) (i j t u : ℕ)
      → Lock scope id setups s
      → won_at (s.phases i) ≡ some t
      → s.phases j ≡ confirmed u
      → s.phases i ≡ confirmed u
  unconfirmed s i j t u l a b = ap s.phases (l.alone i j t u a (ap won_at b)) ∙ b

  -- Once the one that confirmed has left, nobody publishes.
  vacant :
      (s : System) (i t : ℕ)
      → Lock scope id setups s
      → s.phases i ≡ confirmed t
      → (j u : ℕ) → update i idle s.phases j ≢ holding u
  vacant s i t l e j u x = elim (update-cases i j idle s.phases) [
    | inl (y, z) ↦ cc
    | inr (y, z) ↦ y (l.alone i j t u (ap won_at e) (ap won_at (sym z ∙ x)))
  ]

  Step-Account :
      {s s' : System}
      → Step scope id setups s s'
      → Lock scope id setups s
      → Account scope id s
      → Account scope id s'
  Step-Account (reserve s i c e w) l a =
      quiet s i (reserved s.now)
        (set_if_absent s.now (lease_key scope id) c (publish_lease_ttl (setups i)) s.entries).0
        (λ t x. cc) (λ t x. cc)
        (λ t h.
          set_if_absent-other s.now t (lease_key scope id) key c (publish_lease_ttl (setups i))
            s.entries l.unique h (lease_key-ne scope scope id id))
        a
  Step-Account (lose s i c e w) l a =
      still s _ refl refl (omega arith)
        (λ t h.
          set_if_absent-other s.now t (lease_key scope id) key c (publish_lease_ttl (setups i))
            s.entries l.unique h (lease_key-ne scope scope id id))
        a
  Step-Account (find s i t json e g) l (unsent z) = unsent z
  Step-Account (find s i t json e g) l (unremoved j u x z) =
      absurd (early e (unconfirmed s i j t u l (ap won_at e) x))
  Step-Account (find s i t json e g) l (removed n k z) = absurd (found g (k s.now (omega arith)))
  Step-Account (skip s i t e) l a = quiet s i idle s.entries (λ u x. cc) (λ u x. cc) (λ u h. refl) a
  Step-Account (confirm s i t e) l (unsent z) =
      unremoved i t (update_self i (confirmed t) s.phases) (omega (arith, z))
  Step-Account (confirm s i t e) l (unremoved j u x z) =
      absurd (clash e (unconfirmed s i j t u l (ap won_at e) x))
  Step-Account (confirm s i t e) l (removed n k z) = absurd (n i t e)
  Step-Account (fail s i t e) l a =
      quiet s i (failed t) s.entries (λ u x. clash e x) (λ u x. cc) (λ u h. refl) a
  Step-Account (remove s i t e) l (unsent z) = unsent z
  Step-Account (remove s i t e) l (unremoved j u x z) =
      removed (vacant s i t l e) (λ v h. delete_self v key s.entries) z
  Step-Account (remove s i t e) l (removed n k z) =
      removed (vacant s i t l e) (λ v h. delete_self v key s.entries) z
  Step-Account (release s i t e) l a =
      quiet s i idle (delete (lease_key scope id ∷ []) s.entries) (λ u x. cc) (λ u x. cc)
        (λ v h. delete-other v (lease_key scope id) key s.entries (lease_key-ne scope scope id id))
        a
  Step-Account (die s i n) l a = quiet s i idle s.entries n (λ u x. cc) (λ u h. refl) a
  Step-Account (elsewhere s o n n') l a =
      still s _ refl refl (omega arith) (λ t h. run_op-other s.now t key o s.entries l.unique h n) a
  Step-Account (tick s t h n) l a = still s _ refl refl h (λ u x. refl) a

-- From one entry for a key, nobody at the message and nothing confirmed, in every order of the
-- steps of any number of replicas that share a memory cache, where the clock does not run over a
-- reservation that is held, and no process dies between the confirmation and the removal: never are
-- two replicas at the message, and the broker confirms it at most once.
pub Reach-once :
    (scope id : Bytes) (setups : ℕ → Setup) {s s' : System}
    → IsInitial s
    → Reach scope id setups s s'
    → ((i j a b : ℕ) → won_at (s'.phases i) ≡ some a → won_at (s'.phases j) ≡ some b → i ≡ j)
      × (s'.accepted ≤ 1)
Reach-once scope id setups {s} {s'} o r = let (l, a) = both r in (l.alone, bound a)
  where
    bound : {s : System} → Account scope id s → s.accepted ≤ 1
    bound (unsent z) = omega (arith, z)
    bound (unremoved i t e z) = omega (arith, z)
    bound (removed n k z) = omega (arith, z)

    both : {t : System} → Reach scope id setups s t → Lock scope id setups t × Account scope id t
    both here =
        (emptied scope id setups s o.unique (λ j b x. unheld (o.at_rest j) x), unsent o.unsent)
    both (next r st) =
        let (l, a) = both r in (Step-Lock scope id setups st l, Step-Account scope id setups st l a)
