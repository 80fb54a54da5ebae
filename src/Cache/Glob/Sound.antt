-- ===== src/Cache/Glob/Sound.antt =====
-- Every true answer of the loop of `globMatch` is a match, here or after the saved star.
use gorabbit.Prelude.{
  ℕ, zero, suc, Bytes, true, ◌||◌, none, some, [], ◌∷◌, ◌==◌, ◌≡◌, ◌⊎◌, inl, inr, refl, arith,
  Bool-cases, ==_iff,
}
use gorabbit.Cache.Glob.Defs.{Star, rest_of, backtrack, only_stars, glob_loop}
use gorabbit.Cache.Glob.Relation.{Matches, done, byte, skip, grow, Later, Later-now, Later-on}

pub only_stars-Matches : (p : Bytes) → only_stars p ≡ true → Matches p []
unfolding only_stars
only_stars-Matches [] h = done
only_stars-Matches (x ∷ p) h = skip (ground arith) (only_stars-Matches p (ground arith))

pub Matches-only_stars : {p : Bytes} → Matches p [] → only_stars p ≡ true
unfolding only_stars
Matches-only_stars done = refl
Matches-only_stars (skip e m) = ground (arith, Matches-only_stars m)

-- What the saved star still offers: a match of its pattern further on in its text.
abbrev pub StarGoal : Star → Type 0
StarGoal none = ⊥
StarGoal (some (bp, bs)) = Later bp (rest_of bs)

pub Later-rest : (p s : Bytes) → Later p (rest_of s) → Later p s
Later-rest p [] m = m
Later-rest p (c ∷ s) m = Later-on m

take_byte :
    {x c : ℕ} {p s : Bytes} → (x == c || x == b'?') ≡ true → Matches p s → Matches (x ∷ p) (c ∷ s)
take_byte {x} {c} {p} {s} h m = elim (Bool-cases (x == b'*')) [
  | inl e ↦ grow ((==_iff x _).0 e) (skip ((==_iff x _).0 e) m)
  | inr e ↦ byte (ground arith) m
]

star_step :
    {x c : ℕ} {p s : Bytes} → x ≡ b'*' → Matches p (c ∷ s) ⊎ Later p s → Matches (x ∷ p) (c ∷ s)
star_step e (inl m) = skip e m
star_step e (inr m) = grow e (rw e m)

module _ (f : ℕ) where
  backtrack_sound :
      (star : Star)
      → ((p s : Bytes) (st : Star) → glob_loop f p s st ≡ some true → Matches p s ⊎ StarGoal st)
      → backtrack star (glob_loop f) ≡ some true
      → StarGoal star
  unfolding backtrack
  backtrack_sound none ih h = cc
  backtrack_sound (some (bp, bs)) ih h = elim (ih bp (rest_of bs) (some (bp, rest_of bs)) h) [
    | inl m ↦ Later-now m
    | inr m ↦ Later-rest bp (rest_of bs) m
  ]

pub glob_loop_sound :
    (f : ℕ) (p s : Bytes) (star : Star)
    → glob_loop f p s star ≡ some true
    → Matches p s ⊎ StarGoal star
unfolding glob_loop
glob_loop_sound f p [] star h = inl (only_stars-Matches p (cc))
glob_loop_sound zero p (c ∷ s) star h = cc
glob_loop_sound (suc f) [] (c ∷ s) star h = inr (backtrack_sound f star (glob_loop_sound f) h)
glob_loop_sound (suc f) (x ∷ p) (c ∷ s) star h = elim (Bool-cases (x == c || x == b'?')) [
  | inl e ↦ elim (glob_loop_sound f p s star (rw e at h)) [
    | inl m ↦ inl (take_byte e m)
    | inr m ↦ inr m
  ]
  | inr e ↦ elim (Bool-cases (x == b'*')) [
    | inl a ↦ inl (
        star_step ((==_iff x _).0 a)
          (glob_loop_sound f p (c ∷ s) (some (p, c ∷ s)) (rw (e, a) at h)))
    | inr a ↦ inr (backtrack_sound f star (glob_loop_sound f) (rw (e, a) at h))
  ]
]
