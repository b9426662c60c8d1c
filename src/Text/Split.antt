-- ===== src/Text/Split.antt =====
-- strings.Split for a separator of one character, and its inverse.
use normgate.Prelude.{
  ◌≡◌, refl, ap, ℕ, ◌==◌, if◌then◌else◌, List, [], ◌∷◌, ◌++◌, arith, ◌∙◌, Bool-cases, inl, inr,
}
use normgate.Text.{Text}

cons_first : ℕ → List Text → List Text
cons_first x [] = (x ∷ []) ∷ []
cons_first x (p ∷ ps) = (x ∷ p) ∷ ps

-- strings.Split(s, c)
unfoldable pub split : ℕ → Text → List Text
unfolding cons_first
split c [] = [] ∷ []
split c (x ∷ s) = let rest = split c s in if x == c then [] ∷ rest else cons_first x rest

-- strings.Join(ps, c)
unfoldable pub join : ℕ → List Text → Text
join c [] = []
join c (p ∷ []) = p
join c (p ∷ q ∷ ps) = p ++ c ∷ join c (q ∷ ps)

join-cons_first : (c x : ℕ) (ps : List Text) → join c (cons_first x ps) ≡ x ∷ join c ps
unfolding join cons_first
join-cons_first c x [] = refl
join-cons_first c x (p ∷ []) = refl
join-cons_first c x (p ∷ q ∷ ps) = refl

split-cons : (c : ℕ) (s : Text) → (p : Text) × (ps : List Text) × (split c s ≡ p ∷ ps)
unfolding split cons_first
split-cons c [] = ([], [], refl)
split-cons c (x ∷ s) = elim (Bool-cases (x == c)) [
  | inl e ↦ ([], split c s, rw e refl)
  | inr e ↦ let (p, ps, h) = split-cons c s in (x ∷ p, ps, rw e (rw h refl))
]

-- Joining the pieces of a text gives the text.
pub join-split : (c : ℕ) (s : Text) → join c (split c s) ≡ s
unfolding join split
join-split c [] = refl
join-split c (x ∷ s) = elim (Bool-cases (x == c)) [
  | inl e ↦
      let (p, ps, h) = split-cons c s in
      let same : c ≡ x = ground (arith, e) in rw e (rw h (cc (same, ap (join c) h, join-split c s)))
  | inr e ↦ rw e (join-cons_first c x (split c s) ∙ ap (λ t. x ∷ t) (join-split c s))
]
