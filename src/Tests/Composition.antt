-- ===== src/Tests/Composition.antt =====
-- Runs of internal/policy/composition.go: two layers that allow and transform, and one that denies.

use mathlib.Core.List.Perm
use normgate.Prelude.{
  ◌≡◌, ◌≢◌, refl, inl, true, ◌&&◌, none, some, List, [], ◌∷◌, arith, all, All, Elem, elements,
}
use normgate.Text.{Text, codes, text_eq, text_eq→eq, text_leb, contains}
use normgate.Sort.{sort}
use normgate.Json.{marshal}
use normgate.Json.Struct.{struct}
use normgate.Contracts.{
  Obligation, Decision, Schemas, outcomes, names_destination, obligation_value,
}
use normgate.Policy.{Contribution, Result, contribution_value, ok}
use normgate.Policy.Composition.{
  deny, compose, sort_paths, conflict, compose_sorted, add_parts, add_part, finish, decide,
  any_conflict, conflicts_with, by_paths, add_obligations, add_obligation, find_id,
  contribution_leb, validation, compact,
}
use normgate.Policy.Composition.Order.{compose-perm}
use normgate.Policy.Composition.Tallies.{Accepts}
use normgate.Policy.Composition.Outcomes.{compose_deny, compose_allow}
use normgate.Policy.Composition.Obligations.{compose_total, compose_obligations}

Elem-of_contains : (xs : List Text) (s : Text) → contains xs s ≡ true → Elem s xs
unfolding contains
Elem-of_contains [] s h = cc
Elem-of_contains (x ∷ xs) s h = ground (arith, text_eq→eq s x, Elem-of_contains xs s)

Elem-of_all :
    (os : List Obligation)
    → all names_destination os ≡ true
    → (o : Obligation) → Elem o os
    → names_destination o ≡ true
Elem-of_all [] h o m = absurd m
Elem-of_all (x ∷ os) h o m = ground (arith, Elem-of_all os (ground arith) o)

lenient_outcome :
    (d : Decision)
    → (contains outcomes d.outcome && all names_destination (elements d.obligations)) ≡ true
    → Elem d.outcome outcomes
lenient_outcome d h = Elem-of_contains outcomes d.outcome (ground arith)

lenient_destination :
    (d : Decision)
    → (contains outcomes d.outcome && all names_destination (elements d.obligations)) ≡ true
    → (o : Obligation) → Elem o (elements d.obligations)
    → names_destination o ≡ true
lenient_destination d h = Elem-of_all (elements d.obligations) (ground arith)

-- A validator that checks no more than the code relies on.
abbrev lenient : Schemas
lenient = record {
  decision_valid =
      λ d. contains outcomes d.outcome && all names_destination (elements d.obligations);
  known_outcome = lenient_outcome;
  known_destination = lenient_destination;
}

abbrev obligation : Text → Text → Obligation
obligation id kind = record {
  schema_version = codes "1.0";
  id = id;
  kind = kind;
  paths = none;
  limit = none;
  destination_id = none;
  reviewer_group = none;
  check_ref = none;
  extensions = none;
}

abbrev pinned : Obligation
pinned = record (obligation (codes "pin") (codes "restrict_destination")) {
  destination_id = some (codes "model-a");
}

abbrev removal : Obligation
removal = record (obligation (codes "drop") (codes "remove_paths")) {
  paths = some (codes "/b" ∷ codes "/a" ∷ []);
}

abbrev allowing : Contribution
allowing = record {
  layer = codes "baseline";
  rule_id = codes "r1";
  outcome = codes "allow";
  reason_codes = some (codes "ng.policy.ok" ∷ []);
  obligations = some (pinned ∷ []);
}

abbrev transforming : Contribution
transforming = record {
  layer = codes "tenant";
  rule_id = codes "r2";
  outcome = codes "transform";
  reason_codes = some (codes "ng.policy.trim" ∷ codes "ng.policy.ok" ∷ []);
  obligations = some (removal ∷ []);
}

abbrev denying : Contribution
denying = record {
  layer = codes "application";
  rule_id = codes "r3";
  outcome = codes "deny";
  reason_codes = some (codes "ng.policy.no" ∷ []);
  obligations = some [];
}

abbrev transformed : Result
transformed = record {
  outcome = codes "transform";
  reason_codes = codes "ng.policy.ok" ∷ codes "ng.policy.trim" ∷ [];
  obligations = record removal { paths = some (codes "/a" ∷ codes "/b" ∷ []) } ∷ pinned ∷ [];
}

abbrev two : List Contribution
two = transforming ∷ allowing ∷ []

compose_test : compose lenient two ≡ ok transformed
unfolding compose compose_sorted add_parts add_part finish decide any_conflict conflicts_with
    conflict by_paths add_obligations add_obligation find_id sort_paths sort text_leb text_eq
    contains names_destination contribution_leb contribution_value obligation_value marshal struct
    validation compact
compose_test = refl

abbrev allowed : Result
allowed = record {
  outcome = codes "allow";
  reason_codes = codes "ng.policy.ok" ∷ [];
  obligations = pinned ∷ [];
}

abbrev denied : Result
denied = record {
  outcome = codes "deny";
  reason_codes = codes "ng.policy.no" ∷ codes "ng.policy.ok" ∷ [];
  obligations = [];
}

allowed_run : compose lenient (allowing ∷ []) ≡ ok allowed
unfolding compose compose_sorted add_parts add_part finish decide any_conflict conflicts_with
    conflict by_paths add_obligations add_obligation find_id sort_paths sort text_leb text_eq
    contains names_destination contribution_leb contribution_value obligation_value marshal struct
    validation compact
allowed_run = refl

denied_run : compose lenient (denying ∷ allowing ∷ []) ≡ ok denied
unfolding compose compose_sorted add_parts add_part finish decide any_conflict conflicts_with
    conflict by_paths add_obligations add_obligation find_id sort_paths sort text_leb text_eq
    contains names_destination contribution_leb contribution_value obligation_value marshal struct
    validation compact
denied_run = refl

empty_run : compose lenient [] ≡ ok (deny "no_decision")
unfolding compose compose_sorted sort
empty_run = refl

compose-perm_example : compose lenient two ≡ compose lenient (allowing ∷ transforming ∷ [])
compose-perm_example =
    compose-perm lenient two (allowing ∷ transforming ∷ []) (((tt, tt)), (((tt, tt)), tt))
      (Perm.swap allowing transforming [])

compose_deny_example : (denied.outcome ≡ codes "deny") × (denied.obligations ≡ [])
compose_deny_example =
    compose_deny lenient (denying ∷ allowing ∷ []) denied denied_run denying (inl refl) refl

compose_allow_example :
    (allowing ∷ [] ≢ [])
    × All (λ p. Accepts lenient p × (p.outcome ≡ codes "allow")) (allowing ∷ [])
compose_allow_example = compose_allow lenient (allowing ∷ []) allowed allowed_run refl

compose_total_example : (r : Result) × (compose lenient two ≡ ok r)
compose_total_example = compose_total lenient two (((tt, tt)), (((tt, tt)), tt))

transform_ne_deny : codes "transform" ≢ codes "deny"
transform_ne_deny e = cc

compose_obligations_example :
    ((p : Contribution) (o : Obligation)
      → Elem p two
      → Elem o (elements p.obligations)
      → Elem (sort_paths o) transformed.obligations)
    × ((x : Obligation)
        → Elem x transformed.obligations
        → (p : Contribution) × (o : Obligation) × Elem p two
          × Elem o (elements p.obligations)
          × (x ≡ sort_paths o))
compose_obligations_example =
    compose_obligations lenient two (((tt, tt)), (((tt, tt)), tt)) transformed compose_test
      transform_ne_deny
