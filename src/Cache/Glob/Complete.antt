-- ===== src/Cache/Glob/Complete.antt =====
-- On a text without a star the loop of `globMatch` misses no match: going back to the last star
-- only loses nothing.
use gorabbit.Prelude.{
  ℕ, zero, suc, Bytes, true, false, ◌||◌, none, some, [], ◌∷◌, ◌==◌, ◌≡◌, ◌≢◌, ◌⊎◌, inl, inr, refl,
  arith, Lacks, Bool-cases, ==_iff,
}
use gorabbit.Cache.Glob.Defs.{Star, rest_of, backtrack, glob_loop}
use gorabbit.Cache.Glob.Relation.{
  Fits, Matches, byte, skip, grow, Later, Later-now, Later-on, Later-cases,
}
use gorabbit.Cache.Glob.Sound.{Matches-only_stars, StarGoal, Later-rest}

byte_inv : {x c : ℕ} {p s : Bytes} → x ≢ b'*' → Matches (x ∷ p) (c ∷ s) → Fits x c × Matches p s
byte_inv n (byte f m) = (f, m)
byte_inv n (skip e m) = absurd (n e)
byte_inv n (grow e m) = absurd (n e)

-- Where a byte pattern follows the star, the rest of the pattern follows one byte later.
Later-drop : {x c : ℕ} {p : Bytes} (s : Bytes) → x ≢ b'*' → Later (x ∷ p) (c ∷ s) → Later p s
Later-drop s n (skip _ m) = Later-now (byte_inv n m).1
Later-drop [] n (grow _ (skip _ m)) = absurd (no_byte n m)
  where
    no_byte : {y : ℕ} {q : Bytes} → y ≢ b'*' → ¬ Matches (y ∷ q) []
    no_byte n (skip e m) = n e
Later-drop (c ∷ s) n (grow _ m) = Later-on (Later-drop s n m)
Later-drop s n (byte f m) = absurd (f.0 refl)

Later-nested : {x : ℕ} {p s : Bytes} → x ≡ b'*' → Later (x ∷ p) s → Later p s
Later-nested e (skip _ m) = rw e at m
Later-nested e (grow _ m) = Later-on (Later-nested e m)
Later-nested e (byte f m) = absurd (f.0 refl)

-- What is known when the matcher looks at `p` and `s`: the star's matches are also matches of
-- `p` further on, and no text in play has a star.
abbrev pub StarText : Star → Type 0
StarText none = Unit
StarText (some (bp, bs)) = Lacks b'*' bs

pub record Ready (p s : Bytes) (star : Star) : Type 0 where
  pub later : StarGoal star → Later p s
  pub text : Lacks b'*' s
  pub saved : StarText star

Lacks-rest_of : (s : Bytes) → Lacks b'*' s → Lacks b'*' (rest_of s)
Lacks-rest_of [] h = tt
Lacks-rest_of (c ∷ s) h = h.1

Later-at_end : {p : Bytes} → Later p [] → Matches p []
Later-at_end (skip _ m) = m

Later-split : (p s : Bytes) → Later p s → Matches p s ⊎ Later p (rest_of s)
Later-split p [] (skip _ m) = inl m
Later-split p (c ∷ s) m = Later-cases m

backtrack_complete :
    (f : ℕ) (p s : Bytes) (star : Star)
    → ((p' s' : Bytes) (st : Star)
        → Ready p' s' st
        → glob_loop f p' s' st ≡ some false
        → ¬ (Matches p' s' ⊎ StarGoal st))
    → Ready p s star
    → ¬ Matches p s
    → backtrack star (glob_loop f) ≡ some false
    → ¬ (Matches p s ⊎ StarGoal star)
unfolding backtrack
backtrack_complete f p s none ih r n h (inl m) = n m
backtrack_complete f p s none ih r n h (inr m) = m
backtrack_complete f p s (some (bp, bs)) ih r n h (inl m) = n m
backtrack_complete f p s (some (bp, bs)) ih r n h (inr m) =
    ih bp (rest_of bs) (some (bp, rest_of bs))
      (record {
        later = Later-rest bp (rest_of bs);
        text = Lacks-rest_of bs r.saved;
        saved = Lacks-rest_of bs r.saved;
      })
      h (Later-split bp (rest_of bs) m)

byte_not_star : {x c : ℕ} → c ≢ b'*' → (x == c || x == b'?') ≡ true → x ≢ b'*'
byte_not_star n e = ground arith

misfit : {x c : ℕ} → (x == c || x == b'?') ≡ false → ¬ Fits x c
misfit e f = ground arith

misfit_not_star : {x : ℕ} → (x == b'*') ≡ false → x ≢ b'*'
misfit_not_star a = ground arith

byte_goal :
    {x c : ℕ} {p s : Bytes} (star : Star)
    → x ≢ b'*'
    → Matches (x ∷ p) (c ∷ s) ⊎ StarGoal star
    → Matches p s ⊎ StarGoal star
byte_goal star n (inl m) = inl (byte_inv n m).1
byte_goal star n (inr m) = inr m

star_goal :
    {x c : ℕ} {p s : Bytes} (star : Star)
    → x ≡ b'*'
    → (StarGoal star → Later (x ∷ p) (c ∷ s))
    → Matches (x ∷ p) (c ∷ s) ⊎ StarGoal star
    → Matches p (c ∷ s) ⊎ Later p s
star_goal star e later (inl m) = Later-cases (rw e at m)
star_goal star e later (inr m) = Later-cases (Later-nested e (later m))

pub glob_loop_complete :
    (f : ℕ) (p s : Bytes) (star : Star)
    → Ready p s star
    → glob_loop f p s star ≡ some false
    → ¬ (Matches p s ⊎ StarGoal star)
unfolding glob_loop
glob_loop_complete f p [] star r h g = elim g [
  | inl m ↦ cc (Matches-only_stars m)
  | inr m ↦ cc (Matches-only_stars (Later-at_end (r.later m)))
]
glob_loop_complete zero p (c ∷ s) star r h g = cc
glob_loop_complete (suc f) [] (c ∷ s) star r h g =
    backtrack_complete f [] (c ∷ s) star (glob_loop_complete f) r (λ m. elim m [ ]) h g
glob_loop_complete (suc f) (x ∷ p) (c ∷ s) star r h g = elim (Bool-cases (x == c || x == b'?')) [
  | inl e ↦
      let n : x ≢ b'*' = byte_not_star r.text.0 e in
      glob_loop_complete f p s star
        (record { later = λ m. Later-drop s n (r.later m); text = r.text.1; saved = r.saved })
        (rw e at h) (byte_goal star n g)
  | inr e ↦ elim (Bool-cases (x == b'*')) [
    | inl a ↦
        glob_loop_complete f p (c ∷ s) (some (p, c ∷ s))
          (record { later = Later-on; text = r.text; saved = r.text }) (rw (e, a) at h)
          (star_goal star ((==_iff x _).0 a) r.later g)
    | inr a ↦
        backtrack_complete f (x ∷ p) (c ∷ s) star (glob_loop_complete f) r
          (λ m. misfit e (byte_inv (misfit_not_star a) m).0) (rw (e, a) at h) g
  ]
]
