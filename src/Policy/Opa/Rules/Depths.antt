-- ===== src/Policy/Opa/Rules/Depths.antt =====
-- Proofs on Compile: the depths that are remembered are those of a definition without a memory.
use normgate.Prelude.{
  ◌≡◌, refl, sym, ap, ◌∙◌, ◌≤◌, ◌⊎◌, inl, inr, ℕ, zero, suc, Option, some, List, [], ◌∷◌, ◌==◌, ltb,
  leb, length, arith, all, Bool-cases,
}
use normgate.Policy.Opa.{max_rule_depth}
use normgate.Policy.Opa.Rules.{
  Rule, Graph, Depths, depth_in, max, Deepen, deepest, depth, are_shallow, is_shallow,
}

-- The greatest of some heights.
unfoldable pub highest : (ℕ → ℕ) → List ℕ → ℕ
highest h [] = 0
highest h (c ∷ cs) = max (h c) (highest h cs)

pub max_left : (a b : ℕ) → a ≤ max a b
unfolding max
max_left a b = ground arith

pub max_right : (a b : ℕ) → b ≤ max a b
unfolding max
max_right a b = ground arith

max_one : (n : ℕ) → 1 ≤ n → max n 1 ≡ n
unfolding max
max_one n l = ground arith

max_one_left : (n : ℕ) → max 1 (suc n) ≡ suc n
unfolding max
max_one_left n = ground arith

max_nested : (n a b : ℕ) → max (max n (suc a)) (suc b) ≡ max n (suc (max a b))
unfolding max
max_nested n a b = ground arith

-- The number of rules in the longest chain of dependencies, in a graph without cycles.
pub record AreHeights (dependencies : ℕ → List ℕ) (limit : ℕ) (h : ℕ → ℕ) : Type 0 where
  pub above : (r : ℕ) → h r ≡ suc (highest h (dependencies r))
  pub bounded : (r : ℕ) → h r ≤ limit

module _ (dependencies : ℕ → List ℕ) (limit : ℕ) (h : ℕ → ℕ) where
  -- What is remembered is right.
  Remembers : Depths → Type 0
  Remembers ds = (r : ℕ) → (depth_in ds r ≡ 0) ⊎ (depth_in ds r ≡ h r)

  -- A call gives the height, and remembers what is right.
  IsHeight : ℕ → Option (ℕ × Depths) → Type 0
  IsHeight n o = (ds : Depths) × (o ≡ some (n, ds)) × Remembers ds

  deepest-IsHeight :
      (go : Deepen) (cs : List ℕ) (n : ℕ) (ds : Depths)
      → ((c : ℕ) (ds : Depths) → h c ≤ highest h cs → Remembers ds → IsHeight (h c) (go c ds))
      → 1 ≤ n
      → Remembers ds
      → IsHeight (max n (suc (highest h cs))) (deepest go cs n ds)
  unfolding deepest highest IsHeight
  deepest-IsHeight go [] n ds f l m = (ds, ap (λ k. some (k, ds)) (sym (max_one n l)), m)
  deepest-IsHeight go (c ∷ cs) n ds f l m =
      let (ds', e, m') = f c ds (max_left (h c) (highest h cs)) m in
      let (ds'', e', m'') =
        deepest-IsHeight go cs (max n (suc (h c))) ds'
          (λ x y z. f x y (omega (arith, z, max_right (h c) (highest h cs))))
          (omega (arith, l, max_left n (suc (h c)))) m' in
      (
        ds'',
        rw (e, deepest) (e' ∙ ap (λ k. some (k, ds'')) (max_nested n (h c) (highest h cs))),
        m'',
      )

  save-Remembers : (r n : ℕ) (ds : Depths) → n ≡ h r → Remembers ds → Remembers ((r, n) ∷ ds)
  unfolding Remembers depth_in
  save-Remembers r n ds e m x = elim (Bool-cases (r == x)) [
    | inl q ↦ let same : r ≡ x = ground arith in inr (ground (arith, q, e, ap h same))
    | inr q ↦ elim (m x) [ inl z ↦ inl (ground (arith, q, z)) | inr z ↦ inr (ground (arith, q, z)) ]
  ]

  depth-IsHeight :
      (w : AreHeights dependencies limit h) (fuel r : ℕ) (ds : Depths)
      → h r ≤ fuel
      → Remembers ds
      → IsHeight (h r) (depth dependencies fuel r ds)
  unfolding depth IsHeight Remembers
  depth-IsHeight w zero r ds l m = absurd (omega (arith, w.above r))
  depth-IsHeight w (suc fuel) r ds l m = elim (Bool-cases (ltb 0 (depth_in ds r))) [
    | inl e ↦ elim (m r) [
      | inl z ↦ absurd (ground arith)
      | inr z ↦ (ds, rw e (ap (λ k. some (k, ds)) z), m)
    ]
    | inr e ↦
        let (ds', e', m') =
          deepest-IsHeight (depth dependencies fuel) (dependencies r) 1 ds
            (λ c ds z m. depth-IsHeight w fuel c ds (omega (arith, z, w.above r)) m) (omega arith)
            m in
        let same : max 1 (suc (highest h (dependencies r))) ≡ h r =
          max_one_left (highest h (dependencies r)) ∙ sym (w.above r) in
        (
          (r, h r) ∷ ds',
          rw e (rw e' (ap (λ k. some (k, (r, k) ∷ ds')) same)),
          save-Remembers r (h r) ds' refl m',
        )
  ]

  are_shallow-all :
      (w : AreHeights dependencies limit h) (fuel : ℕ) (rs : List Rule) (ds : Depths)
      → limit ≤ fuel
      → Remembers ds
      → are_shallow dependencies fuel rs ds
        ≡ some (all (λ (r : Rule). leb (h r.id) max_rule_depth) rs)
  unfolding are_shallow IsHeight
  are_shallow-all w fuel [] ds l m = refl
  are_shallow-all w fuel (r ∷ rs) ds l m =
      let (ds', e, m') = depth-IsHeight w fuel r.id ds (omega (arith, w.bounded r.id, l)) m in
      rw (e, are_shallow) (ground (arith, are_shallow-all w fuel rs ds' l m'))

-- The check of the depths ends on a graph without cycles, and accepts exactly if no chain of
-- dependencies that starts at a rule has more than 64 rules.
pub is_shallow_heights :
    (g : Graph) (h : ℕ → ℕ)
    → AreHeights g.dependencies (length g.rules) h
    → is_shallow g ≡ some (all (λ (r : Rule). leb (h r.id) max_rule_depth) g.rules)
unfolding is_shallow Remembers depth_in
is_shallow_heights g h w =
    are_shallow-all g.dependencies (length g.rules) h w (suc (length g.rules)) g.rules []
      (omega arith) (λ r. inl refl)
