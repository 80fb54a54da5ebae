-- ===== src/Cache/Glob/Ends.antt =====
-- The loop of `globMatch` ends: every round uses up pattern, or text behind a star.
use gorabbit.Prelude.{
  ℕ, zero, suc, ◌+◌, ◌*◌, ◌≤◌, ◌<◌, Bytes, ◌||◌, none, some, [], ◌∷◌, ◌==◌, length, ◌≢◌, inl, inr,
  arith, Bool-cases,
}
use gorabbit.Cache.Glob.Defs.{Star, rest_of, backtrack, glob_loop}

-- A length and a position that bound what is left to do. `m` bounds the text that a star can still
-- take, `k` every pattern in play.
abbrev pub StarBound : ℕ → ℕ → Bytes → Star → Type 0
StarBound m k s none = Unit
StarBound m k s (some (bp, bs)) = (length bp < k) × (length bs ≤ m) × (length s ≤ length bs)

pub record Bounded (f m k : ℕ) (p s : Bytes) (star : Star) : Type 0 where
  pub text : length s ≤ m
  pub pattern_below : length p < k
  pub saved : StarBound m k s star
  pub fuel : m * k + length p < f

StarBound-byte :
    (m k c : ℕ) (s : Bytes) (star : Star) → StarBound m k (c ∷ s) star → StarBound m k s star
StarBound-byte m k c s none b = tt
StarBound-byte m k c s (some (bp, bs)) b = omega arith

length-rest_of : (m : ℕ) (s : Bytes) → length s ≤ suc m → length (rest_of s) ≤ m
length-rest_of m [] h = omega arith
length-rest_of m (c ∷ s) h = omega arith

backtrack_ends :
    (f m k c : ℕ) (p s : Bytes) (star : Star)
    → ((m' : ℕ) (p' s' : Bytes) (st : Star) → Bounded f m' k p' s' st → glob_loop f p' s' st ≢ none)
    → Bounded (suc f) m k p (c ∷ s) star
    → backtrack star (glob_loop f) ≢ none
unfolding backtrack
backtrack_ends f m k c p s none ih b = λ e. cc
backtrack_ends f zero k c p s (some (bp, bs)) ih b = absurd (omega arith)
backtrack_ends f (suc m) k c p s (some (bp, bs)) ih b =
    let short : length (rest_of bs) ≤ m = length-rest_of m bs (omega arith) in
    ih m bp (rest_of bs) (some (bp, rest_of bs)) (record {
      text = short;
      pattern_below = b.saved.0;
      saved = (b.saved.0, short, omega arith);
      fuel = omega arith;
    })

pub glob_loop_ends :
    (f m k : ℕ) (p s : Bytes) (star : Star) → Bounded f m k p s star → glob_loop f p s star ≢ none
unfolding glob_loop
glob_loop_ends f m k p [] star b = λ e. cc
glob_loop_ends zero m k p (c ∷ s) star b = absurd (omega arith)
glob_loop_ends (suc f) m k [] (c ∷ s) star b =
    backtrack_ends f m k c [] s star (λ m'. glob_loop_ends f m' k) b
glob_loop_ends (suc f) m k (x ∷ p) (c ∷ s) star b = elim (Bool-cases (x == c || x == b'?')) [
  | inl e ↦ rw e (
      glob_loop_ends f m k p s star (record {
        text = omega arith;
        pattern_below = omega arith;
        saved = StarBound-byte m k c s star b.saved;
        fuel = omega arith;
      }))
  | inr e ↦ elim (Bool-cases (x == b'*')) [
    | inl a ↦
        rw (e, a)
          (glob_loop_ends f m k p (c ∷ s) (some (p, c ∷ s)) (record {
            text = b.text;
            pattern_below = omega arith;
            saved = (omega arith, b.text, omega arith);
            fuel = omega arith;
          }))
    | inr a ↦ rw (e, a) (backtrack_ends f m k c (x ∷ p) s star (λ m'. glob_loop_ends f m' k) b)
  ]
]
