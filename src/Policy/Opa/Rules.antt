-- ===== src/Policy/Opa/Rules.antt =====
-- The two walks over the graph of compiled rules in Compile of internal/policy/opa/engine.go. The
-- graph is what the third-party compiler gives; a rule is the number of its pointer. Each walk ends
-- on a graph without cycles; its fuel is one more than the number of rules.
pub mod Depths
pub mod Walks
pub mod Reached
use normgate.Prelude.{
  ℕ, zero, suc, Bool, true, false, ◌&&◌, ◌||◌, not, Option, none, some, List, [], ◌∷◌, ◌==◌, ltb,
  if◌then◌else◌, any, all, length,
}
use normgate.Text.{Text, codes, text_eq}
use normgate.Policy.Opa.{max_rule_depth}

pub record Rule : Type 0 where
  pub id : ℕ
  pub name : Text

-- The rules of compiler.Modules in the order of the range, and compiler.Graph on rules.
pub record Graph : Type 0 where
  pub rules : List Rule
  pub dependencies : ℕ → List ℕ

-- The map `depths`, the latest entry first.
abbrev pub Depths : Type 0
Depths = List (ℕ × ℕ)

-- depths[rule], which is 0 where there is none
unfoldable pub depth_in : Depths → ℕ → ℕ
depth_in [] r = 0
depth_in ((x, n) ∷ depths) r = if x == r then n else depth_in depths r

unfoldable pub max : ℕ → ℕ → ℕ
max a b = if ltb a b then b else a

-- A call of `depth`; `none` where the fuel is used up.
abbrev pub Deepen : Type 0
Deepen = ℕ → Depths → Option (ℕ × Depths)

-- The loop over the dependencies.
unfoldable pub deepest : Deepen → List ℕ → ℕ → Depths → Option (ℕ × Depths)
deepest go [] n depths = some (n, depths)
deepest go (c ∷ cs) n depths = elim (go c depths) [
  | none ↦ none
  | some (k, depths') ↦ deepest go cs (max n (suc k)) depths'
]

abbrev pub save_depth : ℕ → Option (ℕ × Depths) → Option (ℕ × Depths)
save_depth r none = none
save_depth r (some (n, depths)) = some (n, (r, n) ∷ depths)

-- The map `reachable`, and a call of `visit`.
abbrev pub Visit : Type 0
Visit = ℕ → List ℕ → Option (List ℕ)

unfoldable pub is_in : List ℕ → ℕ → Bool
is_in [] r = false
is_in (x ∷ xs) r = x == r || is_in xs r

unfoldable pub visit_rules : Visit → List ℕ → List ℕ → Option (List ℕ)
visit_rules go [] seen = some seen
visit_rules go (c ∷ cs) seen = elim (go c seen) [
  | none ↦ none
  | some seen' ↦ visit_rules go cs seen'
]

abbrev pub is_entry : Rule → Bool
is_entry r = text_eq r.name (codes "decisions")

module _ (dependencies : ℕ → List ℕ) where
  -- depth
  unfoldable pub depth : ℕ → Deepen
  depth zero r depths = none
  depth (suc fuel) r depths =
      let deeper = save_depth r (deepest (depth fuel) (dependencies r) 1 depths) in
      if ltb 0 (depth_in depths r) then some (depth_in depths r, depths) else deeper

  -- The loop over the rules: whether all are within the limit.
  unfoldable pub are_shallow : ℕ → List Rule → Depths → Option Bool
  are_shallow fuel [] depths = some true
  are_shallow fuel (r ∷ rs) depths = elim (depth fuel r.id depths) [
    | none ↦ none
    | some (n, depths') ↦
        let rest = are_shallow fuel rs depths' in if ltb max_rule_depth n then some false else rest
  ]

  -- visit
  unfoldable pub visit : ℕ → Visit
  visit zero r seen = none
  visit (suc fuel) r seen =
      let deeper = visit_rules (visit fuel) (dependencies r) (r ∷ seen) in
      if is_in seen r then some seen else deeper

  -- The visits of the rules that are named "decisions".
  unfoldable pub visit_entries : ℕ → List Rule → List ℕ → Option (List ℕ)
  visit_entries fuel [] seen = some seen
  visit_entries fuel (r ∷ rs) seen = elim (is_entry r) [
    | false ↦ visit_entries fuel rs seen
    | true ↦ elim (visit fuel r.id seen) [ none ↦ none | some seen' ↦ visit_entries fuel rs seen' ]
  ]

-- No rule is deeper than the limit.
unfoldable pub is_shallow : Graph → Option Bool
is_shallow g = are_shallow g.dependencies (suc (length g.rules)) g.rules []

abbrev pub all_in : List Rule → Option (List ℕ) → Option Bool
all_in rs none = none
all_in rs (some seen) = some (all (λ (r : Rule). is_in seen r.id) rs)

-- Every rule is reachable from an entry point.
unfoldable pub is_reached : Graph → Option Bool
is_reached g = all_in g.rules (visit_entries g.dependencies (suc (length g.rules)) g.rules [])
