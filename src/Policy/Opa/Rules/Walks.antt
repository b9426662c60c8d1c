-- ===== src/Policy/Opa/Rules/Walks.antt =====
-- Proofs on Compile: what a walk over the graph visits.
use normgate.Prelude.{
  ◌≡◌, refl, sym, ◌≤◌, ◌⊎◌, inl, inr, ℕ, zero, suc, true, false, Option, some, List, [], ◌∷◌, ◌==◌,
  arith, Bool-cases, Elem, if◌then◌else◌, subst,
}
use normgate.Policy.Opa.Rules.{Rule, Visit, is_in, visit_rules, is_entry, visit, visit_entries}
use normgate.Policy.Opa.Rules.Depths.{highest, AreHeights, max_left, max_right}

pub Elem-is_in : (xs : List ℕ) (r : ℕ) → is_in xs r ≡ true → Elem r xs
unfolding is_in
Elem-is_in [] r h = cc
Elem-is_in (x ∷ xs) r h = elim (Bool-cases (x == r)) [
  | inl e ↦ inl (ground arith)
  | inr e ↦ inr (Elem-is_in xs r (ground arith))
]

pub is_in_of_Elem : (xs : List ℕ) (r : ℕ) → Elem r xs → is_in xs r ≡ true
unfolding is_in
is_in_of_Elem [] r m = absurd m
is_in_of_Elem (x ∷ xs) r (inl e) = ground (arith, e)
is_in_of_Elem (x ∷ xs) r (inr m) = ground (arith, is_in_of_Elem xs r m)

-- The entry points.
unfoldable pub entries : List Rule → List ℕ
entries [] = []
entries (r ∷ rs) = if is_entry r then r.id ∷ entries rs else entries rs

entries_entry :
    (r : Rule) (rs : List Rule) → is_entry r ≡ true → entries (r ∷ rs) ≡ r.id ∷ entries rs
unfolding entries
entries_entry r rs h = rw h refl

entries_other : (r : Rule) (rs : List Rule) → is_entry r ≡ false → entries (r ∷ rs) ≡ entries rs
unfolding entries
entries_other r rs h = rw h refl

module _ (dependencies : ℕ → List ℕ) where
  -- Everything that a rule depends on has been visited.
  abbrev Followed : List ℕ → ℕ → Type 0
  Followed seen r = (c : ℕ) → Elem c (dependencies r) → Elem c seen

  -- A walk: what was visited stays so, what is new has been followed, and a property that goes over
  -- to dependencies holds of it.
  pub record IsWalk (starts seen seen' : List ℕ) : Type 1 where
    pub keeps : (x : ℕ) → Elem x seen → Elem x seen'
    pub starts_seen : (x : ℕ) → Elem x starts → Elem x seen'
    pub follows : (x : ℕ) → Elem x seen' → Elem x seen ⊎ Followed seen' x
    pub sound :
        (P : ℕ → Type 0)
        → ((x c : ℕ) → P x → Elem c (dependencies x) → P c)
        → ((x : ℕ) → Elem x starts → P x)
        → (x : ℕ) → Elem x seen'
        → Elem x seen ⊎ P x

  unfoldable pub Walks : List ℕ → List ℕ → Option (List ℕ) → Type 1
  Walks starts seen o = (seen' : List ℕ) × (o ≡ some seen') × IsWalk starts seen seen'

  stand : (seen : List ℕ) → IsWalk [] seen seen
  stand seen = record {
    keeps = λ x m. m;
    starts_seen = λ x m. absurd m;
    follows = λ x m. inl m;
    sound = λ P f g x m. inl m;
  }

  go_on : (c : ℕ) (cs a b d : List ℕ) → IsWalk (c ∷ []) a b → IsWalk cs b d → IsWalk (c ∷ cs) a d
  go_on c cs a b d v w = record {
    keeps = λ x m. w.keeps x (v.keeps x m);
    starts_seen =
        λ x m. elim m [ inl e ↦ w.keeps x (v.starts_seen x (inl e)) | inr n ↦ w.starts_seen x n ];
    follows = λ x m. elim (w.follows x m) [
      | inr f ↦ inr f
      | inl n ↦ elim (v.follows x n) [ inl k ↦ inl k | inr f ↦ inr (λ y e. w.keeps y (f y e)) ]
    ];
    sound = λ P f g x m. elim (w.sound P f (λ y e. g y (inr e)) x m) [
      | inr p ↦ inr p
      | inl n ↦ v.sound P f (λ y e. elim e [ inl q ↦ g y (inl q) | inr q ↦ absurd q ]) x n
    ];
  }

  -- A rule is marked, and its dependencies are visited.
  enter :
      (r : ℕ) (seen seen' : List ℕ)
      → IsWalk (dependencies r) (r ∷ seen) seen'
      → IsWalk (r ∷ []) seen seen'
  enter r seen seen' w = record {
    keeps = λ x m. w.keeps x (inr m);
    starts_seen = λ x m. elim m [ inl e ↦ w.keeps x (inl e) | inr n ↦ absurd n ];
    follows = λ x m. elim (w.follows x m) [
      | inr f ↦ inr f
      | inl (inl e) ↦ inr (λ c n. w.starts_seen c (subst (λ y. Elem c (dependencies y)) e n))
      | inl (inr n) ↦ inl n
    ];
    sound = λ P f g x m. elim (w.sound P f (λ y n. f r y (g r (inl refl)) n) x m) [
      | inr p ↦ inr p
      | inl (inl e) ↦ inr (g x (inl e))
      | inl (inr n) ↦ inl n
    ];
  }

  already : (r : ℕ) (seen : List ℕ) → Elem r seen → IsWalk (r ∷ []) seen seen
  already r seen n = record {
    keeps = λ x m. m;
    starts_seen = λ x m. elim m [ inl e ↦ subst (λ y. Elem y seen) (sym e) n | inr k ↦ absurd k ];
    follows = λ x m. inl m;
    sound = λ P f g x m. inl m;
  }

  module _ (limit : ℕ) (h : ℕ → ℕ) where
    visit_rules-Walks :
        (go : Visit) (cs seen : List ℕ)
        → ((c : ℕ) (s : List ℕ) → h c ≤ highest h cs → Walks (c ∷ []) s (go c s))
        → Walks cs seen (visit_rules go cs seen)
    unfolding visit_rules Walks highest
    visit_rules-Walks go [] seen f = (seen, refl, stand seen)
    visit_rules-Walks go (c ∷ cs) seen f =
        let (s, e, v) = f c seen (max_left (h c) (highest h cs)) in
        let (s', e', w) =
          visit_rules-Walks go cs s
            (λ x t z. f x t (omega (arith, z, max_right (h c) (highest h cs)))) in
        (s', rw (e, visit_rules) e', go_on c cs seen s s' v w)

    visit-Walks :
        (w : AreHeights dependencies limit h) (fuel r : ℕ) (seen : List ℕ)
        → h r ≤ fuel
        → Walks (r ∷ []) seen (visit dependencies fuel r seen)
    unfolding visit Walks
    visit-Walks w zero r seen l = absurd (omega (arith, w.above r))
    visit-Walks w (suc fuel) r seen l = elim (Bool-cases (is_in seen r)) [
      | inl e ↦ (seen, rw e refl, already r seen (Elem-is_in seen r e))
      | inr e ↦
          let (s, k, v) =
            visit_rules-Walks (visit dependencies fuel) (dependencies r) (r ∷ seen)
              (λ c t z. visit-Walks w fuel c t (omega (arith, l, z, w.above r))) in
          (s, rw e k, enter r seen s v)
    ]

    pub visit_entries-Walks :
        (w : AreHeights dependencies limit h) (fuel : ℕ) (rs : List Rule) (seen : List ℕ)
        → limit ≤ fuel
        → Walks (entries rs) seen (visit_entries dependencies fuel rs seen)
    unfolding visit_entries Walks entries
    visit_entries-Walks w fuel [] seen l = (seen, refl, stand seen)
    visit_entries-Walks w fuel (r ∷ rs) seen l = elim (Bool-cases (is_entry r)) [
      | inl e ↦
          let (s, k, v) = visit-Walks w fuel r.id seen (omega (arith, l, w.bounded r.id)) in
          let (s', k', v') = visit_entries-Walks w fuel rs s l in
          (
            s',
            rw (e, visit_entries) (rw k k'),
            subst (λ cs. IsWalk cs seen s') (sym (entries_entry r rs e))
                (go_on r.id (entries rs) seen s s' v v'),
          )
      | inr e ↦
          let (s, k, v) = visit_entries-Walks w fuel rs seen l in
          (
            s,
            rw (e, visit_entries) k,
            subst (λ cs. IsWalk cs seen s) (sym (entries_other r rs e)) v,
          )
    ]
