-- ===== src/Cache/Glob/Prefix.antt =====
-- The patterns that the driver lists keys by: a plain text and one star behind it.
use gorabbit.Prelude.{
  ℕ, Bytes, [], ◌∷◌, ◌++◌, ◌≡◌, ◌≢◌, ◌↔◌, inl, inr, refl, sym, ap₂, subst, Lacks, codes,
}
use gorabbit.Cache.Glob.Relation.{Fits, Matches, done, byte, skip, grow}

Matches-star : (s : Bytes) → Matches (codes "*") s
Matches-star [] = skip refl done
Matches-star (c ∷ s) = grow refl (Matches-star s)

Prefix-Matches : (p r : Bytes) → Lacks b'*' p → Matches (p ++ codes "*") (p ++ r)
Prefix-Matches [] r h = Matches-star r
Prefix-Matches (x ∷ p) r h = byte (h.0, inl refl) (Prefix-Matches p r h.1)

Fits-eq : {x c : ℕ} → x ≢ b'?' → Fits x c → x ≡ c
Fits-eq n (_, inl e) = e
Fits-eq n (_, inr e) = absurd (n e)

Matches-Prefix :
    (p s : Bytes)
    → Lacks b'*' p
    → Lacks b'?' p
    → Matches (p ++ codes "*") s
    → (r : Bytes) × (s ≡ p ++ r)
Matches-Prefix [] s h q m = (s, refl)
Matches-Prefix (x ∷ p) s h q (skip e m) = absurd (h.0 e)
Matches-Prefix (x ∷ p) (c ∷ s) h q (grow e m) = absurd (h.0 e)
Matches-Prefix (x ∷ p) (c ∷ s) h q (byte f m) =
    let (r, e) = Matches-Prefix p s h.1 q.1 m in (r, ap₂ ◌∷◌ (sym (Fits-eq q.0 f)) e)

-- A text without wildcards, and a star: exactly the texts that begin so.
pub Matches-prefix_iff :
    (p s : Bytes)
    → Lacks b'*' p
    → Lacks b'?' p
    → Matches (p ++ codes "*") s ↔ ((r : Bytes) × (s ≡ p ++ r))
Matches-prefix_iff p s h q = (
  Matches-Prefix p s h q,
  λ (r, e). subst (Matches (p ++ codes "*")) (sym e) (Prefix-Matches p r h),
)
