-- ===== src/Policy/Opa/Rules/Reached.antt =====
-- Proofs on Compile: the rules that are visited are those that an entry point reaches.
use normgate.Prelude.{
  ◌≡◌, refl, ◌↔◌, inl, inr, ℕ, suc, Bool, true, some, List, [], length, arith, All, all, Elem,
  All-imp, All-of_all, all_of_All,
}
use normgate.Policy.Opa.Rules.{Rule, Graph, is_in, is_reached}
use normgate.Policy.Opa.Rules.Depths.{AreHeights}
use normgate.Policy.Opa.Rules.Walks.{
  Elem-is_in, is_in_of_Elem, entries, IsWalk, Walks, visit_entries-Walks,
}

-- A rule that an entry point reaches by dependencies.
pub data IsReached (g : Graph) : ℕ → Type 0 where
  entry : (r : ℕ) → Elem r (entries g.rules) → IsReached g r
  follow : (r c : ℕ) → IsReached g r → Elem c (g.dependencies r) → IsReached g c

Elem-IsReached :
    (g : Graph) (seen : List ℕ)
    → IsWalk g.dependencies (entries g.rules) [] seen
    → (r : ℕ) → IsReached g r
    → Elem r seen
Elem-IsReached g seen w r (entry _ m) = w.starts_seen r m
Elem-IsReached g seen w c (follow r _ i m) = elim (w.follows r (Elem-IsReached g seen w r i)) [
  | inl e ↦ absurd e
  | inr f ↦ f c m
]

-- The walk from the entry points ends on a graph without cycles, and accepts exactly if each rule
-- is reached from a rule named "decisions".
pub is_reached_iff :
    (g : Graph) (h : ℕ → ℕ)
    → AreHeights g.dependencies (length g.rules) h
    → (b : Bool) × (is_reached g ≡ some b) × ((b ≡ true) ↔ All (λ r. IsReached g r.id) g.rules)
unfolding is_reached Walks
is_reached_iff g h w =
    let (seen, e, v) =
      visit_entries-Walks g.dependencies (length g.rules) h w (suc (length g.rules)) g.rules []
        (omega arith) in
    (
      all (λ (r : Rule). is_in seen r.id) g.rules,
      rw e refl,
      (
        λ k.
            All-imp (λ r. is_in seen r.id ≡ true) (λ r. IsReached g r.id)
              (λ r i.
                elim (v.sound (IsReached g) (λ x c p m. follow x c p m) (λ x m. entry x m) r.id
                  (Elem-is_in seen r.id i)) [ inl m ↦ absurd m | inr p ↦ p ])
              g.rules (All-of_all (λ r. is_in seen r.id) g.rules k),
        λ a.
            all_of_All (λ r. is_in seen r.id) g.rules
              (All-imp (λ r. IsReached g r.id) (λ r. is_in seen r.id ≡ true)
                (λ r i. is_in_of_Elem seen r.id (Elem-IsReached g seen v r.id i)) g.rules a),
      ),
    )
