-- ===== src/Policy/Composition/Tallies.antt =====
-- Proofs on internal/policy/composition.go: the rounds of the loop of `Compose`.
use normgate.Prelude.{
  ◌≡◌, refl, Bool, true, false, ◌||◌, some, List, [], ◌∷◌, ◌++◌, arith, All, any, elements,
}
use normgate.Text.{Text, codes, text_eq, contains}
use normgate.Contracts.{Schemas}
use normgate.Policy.{Contribution}
use normgate.Policy.Composition.{
  Tally, Flow, next, stop, layer_names, validation, add_part, add_parts, add_obligations,
}

-- The checks that a contribution passes.
pub record Accepts (schemas : Schemas) (p : Contribution) : Type 0 where
  pub has_outcome : text_eq p.outcome [] ≡ false
  pub known_layer : contains layer_names p.layer ≡ true
  pub has_rule : text_eq p.rule_id [] ≡ false
  pub valid : schemas.decision_valid (validation p) ≡ true

abbrev pub has_outcome : Text → Contribution → Bool
has_outcome outcome p = text_eq p.outcome outcome

-- One round that goes on.
pub record Round (schemas : Schemas) (p : Contribution) (t u : Tally) : Type 0 where
  pub accepts : Accepts schemas p
  pub deny : u.deny ≡ (t.deny || has_outcome (codes "deny") p)
  pub approval : u.approval ≡ (t.approval || has_outcome (codes "require_approval") p)
  pub transform : u.transform ≡ (t.transform || has_outcome (codes "transform") p)
  pub reason_codes : u.reason_codes ≡ t.reason_codes ++ elements p.reason_codes
  pub by_id : add_obligations (elements p.obligations) t.by_id ≡ some u.by_id

add_part-Round :
    (schemas : Schemas) (p : Contribution) (t u : Tally)
    → add_part schemas p t ≡ next u
    → Round schemas p t u
unfolding add_part
add_part-Round schemas p t u e = ground arith

pub add_parts-cons :
    (schemas : Schemas) (p : Contribution) (ps : List Contribution) (t u : Tally)
    → add_parts schemas (p ∷ ps) t ≡ next u
    → (m : Tally) × Round schemas p t m × (add_parts schemas ps m ≡ next u)
unfolding add_parts
add_parts-cons schemas p ps t u e = go (add_part schemas p t) refl e
  where
    go :
        (r : Flow Tally)
        → add_part schemas p t ≡ r
        → elim r as (λ _. Flow Tally) [ next v ↦ add_parts schemas ps v | stop x ↦ stop x ] ≡ next u
        → (m : Tally) × Round schemas p t m × (add_parts schemas ps m ≡ next u)
    go (next m) q h = (m, add_part-Round schemas p t m q, h)
    go (stop x) q h = cc

module _ (schemas : Schemas) where
  pub add_parts-Accepts :
      (ps : List Contribution) (t u : Tally)
      → add_parts schemas ps t ≡ next u
      → All (Accepts schemas) ps
  add_parts-Accepts [] t u e = tt
  add_parts-Accepts (p ∷ ps) t u e =
      let (m, r, h) = add_parts-cons schemas p ps t u e in (r.accepts, add_parts-Accepts ps m u h)

  -- The flags are set by some contribution with the outcome.
  pub add_parts_flags :
      (ps : List Contribution) (t u : Tally)
      → add_parts schemas ps t ≡ next u
      → (u.deny ≡ (t.deny || any (has_outcome (codes "deny")) ps))
        × (u.approval ≡ (t.approval || any (has_outcome (codes "require_approval")) ps))
        × (u.transform ≡ (t.transform || any (has_outcome (codes "transform")) ps))
  unfolding add_parts
  add_parts_flags [] t u e = ground arith
  add_parts_flags (p ∷ ps) t u e =
      let (m, r, h) = add_parts-cons schemas p ps t u e in
      ground (arith, r.deny, r.approval, r.transform, add_parts_flags ps m u h)
