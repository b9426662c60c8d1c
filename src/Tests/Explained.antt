-- ===== src/Tests/Explained.antt =====
-- A run of ExplainResult of internal/policy/composition.go.
use normgate.Prelude.{◌≡◌, ◌↔◌, refl, Elem, none, some, List, [], ◌∷◌}
use normgate.Text.{Text, codes, text_eq, text_leb}
use normgate.Sort.{sort}
use normgate.Contracts.{Obligation, Decision}
use normgate.Policy.{Contribution, Result, ok}
use normgate.Policy.Composition.{zero_digest}
use normgate.Policy.Explained.{
  Explanation, refs_of, provenance, place, place_from, rule_leb, add_ref, ref_of, add_obligations,
  add_rules, compact_after, compact, compact_all, explain_result,
}
use normgate.Policy.Explained.Provenance.{Contributes, explain_result-provenance}

abbrev masking : Obligation
masking = record {
  schema_version = codes "1.0";
  id = codes "mask";
  kind = codes "redact";
  paths = none;
  limit = none;
  destination_id = none;
  reviewer_group = none;
  check_ref = none;
  extensions = none;
}

abbrev rule : Text → Text → Contribution
rule layer id = record {
  layer = layer;
  rule_id = id;
  outcome = codes "allow";
  reason_codes = none;
  obligations = some (masking ∷ []);
}

abbrev parts : List Contribution
parts = rule (codes "tenant") (codes "b") ∷ rule (codes "baseline") (codes "a") ∷ []

abbrev result : Result
result = record { outcome = codes "allow"; reason_codes = []; obligations = masking ∷ [] }

abbrev decision : Decision
decision = record {
  schema_version = codes "1.0";
  id = zero_digest;
  outcome = codes "allow";
  policy_revision = zero_digest;
  operation_digest = zero_digest;
  reason_codes = some [];
  obligations = some (masking ∷ []);
  evaluated_at = codes "2026-01-01T00:00:00Z";
  external_facts_digest = zero_digest;
  extensions = none;
}

abbrev explained : Explanation
explained = record {
  decision = decision;
  rules = rule (codes "baseline") (codes "a") ∷ rule (codes "tenant") (codes "b") ∷ [];
  obligation_provenance = (codes "mask", codes "baseline:a" ∷ codes "tenant:b" ∷ []) ∷ [];
}

explain_run : explain_result (λ r. ok decision) (λ ps. ok result) parts ≡ ok explained
unfolding explain_result sort rule_leb place place_from text_eq text_leb provenance add_rules
    add_obligations add_ref ref_of compact_all compact compact_after
explain_run = refl

explain_result-provenance_example :
    Elem (codes "tenant:b") (refs_of (codes "mask") explained.obligation_provenance)
    ↔ Contributes parts (codes "mask") (codes "tenant:b")
explain_result-provenance_example =
    explain_result-provenance (λ r. ok decision) (λ ps. ok result) parts explained explain_run
      (codes "mask") (codes "tenant:b")
