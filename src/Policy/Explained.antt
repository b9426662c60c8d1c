-- ===== src/Policy/Explained.antt =====
-- ExplainResult of internal/policy/composition.go. The copy of the contributions by way of their JSON
-- is equal to them; where two have the same layer and rule, slices.SortFunc may put them in any order,
-- and here they keep theirs. A Go map is the list of its entries.
pub mod Provenance
use normgate.Prelude.{
  ℕ, zero, suc, Bool, ◌&&◌, ◌||◌, Option, none, some, List, [], ◌∷◌, ◌++◌, ltb, ◌==◌, if◌then◌else◌,
  elements,
}
use normgate.Text.{Text, codes, text_eq, text_leb}
use normgate.Sort.{sort}
use normgate.Contracts.{Obligation, Decision}
use normgate.Policy.{Contribution, Result, Try, ok, err, panic, ◌>>=◌}
use normgate.Policy.Composition.{layer_names}

-- The number of the first element that is the text, counted from n, or 0 if there is none.
unfoldable pub place_from : Text → ℕ → List Text → ℕ
unfolding text_eq
place_from s n [] = 0
place_from s n (x ∷ xs) = if text_eq x s then n else place_from s (suc n) xs

-- slices.Index(xs, s) + 1
unfoldable pub place : List Text → Text → ℕ
unfolding place_from
place xs s = place_from s 1 xs

-- The order of the rules: by layer, and then by name.
unfoldable pub rule_leb : Contribution → Contribution → Bool
unfolding place text_leb
rule_leb a b =
    ltb (place layer_names a.layer) (place layer_names b.layer)
    || (place layer_names a.layer == place layer_names b.layer && text_leb a.rule_id b.rule_id)

abbrev pub ProvenanceMap : Type 0
ProvenanceMap = List (Text × List Text)

-- provenance[id]
unfoldable pub refs_of : Text → ProvenanceMap → List Text
refs_of id [] = []
refs_of id ((j, refs) ∷ m) = if text_eq j id then refs else refs_of id m

-- provenance[id] = append(provenance[id], ref)
unfoldable pub add_ref : Text → Text → ProvenanceMap → ProvenanceMap
add_ref ref id [] = (id, ref ∷ []) ∷ []
add_ref ref id ((j, refs) ∷ m) =
    if text_eq j id then (j, refs ++ ref ∷ []) ∷ m else (j, refs) ∷ add_ref ref id m

unfoldable pub ref_of : Contribution → Text
ref_of p = p.layer ++ codes ":" ++ p.rule_id

unfoldable pub add_obligations : Text → List Obligation → ProvenanceMap → ProvenanceMap
unfolding add_ref
add_obligations ref [] m = m
add_obligations ref (o ∷ os) m = add_obligations ref os (add_ref ref o.id m)

unfoldable pub add_rules : List Contribution → ProvenanceMap → ProvenanceMap
unfolding add_obligations ref_of
add_rules [] m = m
add_rules (p ∷ ps) m = add_rules ps (add_obligations (ref_of p) (elements p.obligations) m)

-- slices.Compact after a text that is kept
unfoldable pub compact_after : Text → List Text → List Text
compact_after s [] = s ∷ []
compact_after s (t ∷ ts) =
    let same = compact_after s ts in
    let other = s ∷ compact_after t ts in if text_eq s t then same else other

unfoldable pub compact : List Text → List Text
unfolding compact_after
compact [] = []
compact (s ∷ ss) = compact_after s ss

unfoldable pub compact_all : ProvenanceMap → ProvenanceMap
unfolding compact
compact_all [] = []
compact_all ((id, refs) ∷ m) = (id, compact (sort text_leb refs)) ∷ compact_all m

-- The contributions under each obligation, by its id.
unfoldable pub provenance : List Contribution → ProvenanceMap
unfolding add_rules compact_all
provenance rules = compact_all (add_rules rules [])

pub record Explanation : Type 0 where
  pub decision : Decision
  pub rules : List Contribution
  pub obligation_provenance : ProvenanceMap

-- ExplainResult, over Decision for a revision and an event, and Compose
unfoldable pub explain_result :
    (Result → Try Decision) → (List Contribution → Try Result) → List Contribution → Try Explanation
unfolding provenance rule_leb
explain_result decide compose parts = do
  result ← compose (sort rule_leb parts)
  decision ← decide result
  ok (record {
    decision = decision;
    rules = sort rule_leb parts;
    obligation_provenance = provenance (sort rule_leb parts);
  })
