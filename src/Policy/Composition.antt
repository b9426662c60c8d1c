-- ===== src/Policy/Composition.antt =====
-- internal/policy/composition.go: Deny, Compose and the conflict tests.
pub mod Order
pub mod Tallies
pub mod Kept
pub mod Outcomes
pub mod Conflicts
pub mod Obligations
use normgate.Prelude.{
  ◌≡◌, refl, ◌⊎◌, inl, inr, Bool, true, false, ◌&&◌, ◌||◌, not, Option, none, some, List, [], ◌∷◌,
  ◌++◌, String, if◌then◌else◌, elements, any,
}
use normgate.Text.{Text, codes, text_eq, text_leb, has_prefix, contains}
use normgate.Sort.{sort}
use normgate.Json.{marshal}
use normgate.Contracts.{Obligation, Decision, Schemas, obligation_value, texts_value}
use normgate.Policy.{Contribution, Result, contribution_value, Try, ok, panic}
use mathlib.Core.Option

abbrev pub layer_names : List Text
layer_names =
    codes "baseline"
    ∷ codes "organization"
    ∷ codes "tenant"
    ∷ codes "application"
    ∷ codes "local_override"
    ∷ []

-- Deny(code)
unfoldable pub deny : String → Result
deny code = record {
  outcome = codes "deny";
  reason_codes = (codes "ng.policy." ++ codes code) ∷ [];
  obligations = [];
}

abbrev pub zero_digest : Text
zero_digest = codes "sha256:0000000000000000000000000000000000000000000000000000000000000000"

-- The comparison of the first sort: by the JSON text.
unfoldable pub contribution_leb : Contribution → Contribution → Bool
contribution_leb a b = text_leb (marshal (contribution_value a)) (marshal (contribution_value b))

unfoldable pub same_obligation : Obligation → Obligation → Bool
same_obligation a b = text_eq (marshal (obligation_value a)) (marshal (obligation_value b))

unfoldable pub same_paths : List Text → List Text → Bool
same_paths a b = text_eq (marshal (texts_value a)) (marshal (texts_value b))

unfoldable pub overlaps : Text → Text → Bool
overlaps a b = text_eq a b || has_prefix a (b ++ codes "/") || has_prefix b (a ++ codes "/")

-- Whether two obligations that share a path, or nest, cannot both be met.
unfoldable pub exclusive : Obligation → Obligation → Bool
exclusive a b =
    not (text_eq a.kind b.kind)
    || text_eq a.kind (codes "tokenize")
    || text_eq a.kind (codes "mask")

abbrev pub retain_paths : Text
retain_paths = codes "retain_paths"

-- The rules of `conflict` for two obligations that both have paths.
unfoldable pub paths_conflict : Obligation → Obligation → List Text → List Text → Bool
paths_conflict a b xs ys =
    if text_eq a.kind retain_paths || text_eq b.kind retain_paths
    then not (text_eq a.kind b.kind) || not (same_paths xs ys)
    else any (λ x. any (λ y. overlaps x y && exclusive a b) ys) xs

abbrev pub restrict_destination : Text
restrict_destination = codes "restrict_destination"

-- `none` is the dereference of a destination that is not there.
unfoldable pub differ : Option Text → Option Text → Option Bool
differ none b = none
differ (some x) none = none
differ (some x) (some y) = some (not (text_eq x y))

-- The rules for paths speak of two obligations that both have some.
unfoldable pub by_paths : Obligation → Obligation → Option (List Text) → Option (List Text) → Bool
by_paths a b (some xs) (some ys) = paths_conflict a b xs ys
by_paths a b _ _ = false

unfoldable pub conflict : Obligation → Obligation → Option Bool
unfolding differ
conflict a b =
    if text_eq a.kind restrict_destination && text_eq b.kind a.kind
    then differ a.destination_id b.destination_id
    else some (by_paths a b a.paths b.paths)

-- The loops over the pairs of obligations, which end at the first conflict.
unfoldable pub conflicts_with : Obligation → List Obligation → Option Bool
conflicts_with a [] = some false
conflicts_with a (b ∷ bs) = elim (conflict a b) [
  | none ↦ none
  | some true ↦ some true
  | some false ↦ conflicts_with a bs
]

unfoldable pub any_conflict : List Obligation → Option Bool
any_conflict [] = some false
any_conflict (a ∷ os) = elim (conflicts_with a os) [
  | none ↦ none
  | some true ↦ some true
  | some false ↦ any_conflict os
]

-- The variables of `Compose`: the three flags, the reason codes and the map byID, whose keys are
-- the ids of its obligations.
pub record Tally : Type 0 where
  pub deny : Bool
  pub approval : Bool
  pub transform : Bool
  pub reason_codes : List Text
  pub by_id : List Obligation

abbrev pub empty_tally : Tally
empty_tally = record {
  deny = false;
  approval = false;
  transform = false;
  reason_codes = [];
  by_id = [];
}

-- A round of the loop goes on, or `Compose` returns.
pub data Flow (A : Type 0) : Type 0 where
  next : A → Flow A
  stop : Result → Flow A

pub Flow-cases :
    {A : Type 0} (f : Flow A) → ((a : A) × (f ≡ next a)) ⊎ ((r : Result) × (f ≡ stop r))
Flow-cases (next a) = inl (a, refl)
Flow-cases (stop r) = inr (r, refl)

unfoldable pub sort_paths : Obligation → Obligation
unfolding sort
sort_paths o = record o { paths = Option.map (sort text_leb) o.paths }

unfoldable pub find_id : Text → List Obligation → Option Obligation
find_id id [] = none
find_id id (o ∷ os) = if text_eq o.id id then some o else find_id id os

-- `none` is a conflict with the obligation of the same id.
unfoldable pub add_obligation : Obligation → List Obligation → Option (List Obligation)
add_obligation o by_id = elim (find_id o.id by_id) [
  | none ↦ some (o ∷ by_id)
  | some previous ↦ if same_obligation previous o then some by_id else none
]

unfoldable pub add_obligations : List Obligation → List Obligation → Option (List Obligation)
add_obligations [] by_id = some by_id
add_obligations (o ∷ os) by_id = elim (add_obligation (sort_paths o) by_id) [
  | none ↦ none
  | some by_id' ↦ add_obligations os by_id'
]

-- The decision that validates a contribution.
unfoldable pub validation : Contribution → Decision
validation p = record {
  schema_version = codes "1.0";
  id = codes "validation";
  outcome = p.outcome;
  policy_revision = codes "validation";
  operation_digest = zero_digest;
  reason_codes = p.reason_codes;
  obligations = p.obligations;
  evaluated_at = codes "2026-01-01T00:00:00Z";
  external_facts_digest = zero_digest;
  extensions = none;
}

-- slices.Compact
unfoldable pub compact : List Text → List Text
compact [] = []
compact (x ∷ []) = x ∷ []
compact (x ∷ y ∷ xs) = let rest = compact (y ∷ xs) in if text_eq x y then rest else x ∷ rest

abbrev pub id_leb : Obligation → Obligation → Bool
id_leb a b = text_leb a.id b.id

-- The outcome, by precedence.
unfoldable pub decide : Tally → List Obligation → Result
decide t os =
    let codes' = compact (sort text_leb t.reason_codes) in
    if t.deny
    then record { outcome = codes "deny"; reason_codes = codes'; obligations = [] }
    else if t.approval
    then record { outcome = codes "require_approval"; reason_codes = codes'; obligations = os }
    else if t.transform
    then record { outcome = codes "transform"; reason_codes = codes'; obligations = os }
    else record { outcome = codes "allow"; reason_codes = codes'; obligations = os }

-- What follows the loop over the contributions.
unfoldable pub finish : Tally → Try Result
finish t =
    let os = sort id_leb t.by_id in
    elim (any_conflict os) [
      | none ↦ panic
      | some true ↦ ok (deny "obligation_conflict")
      | some false ↦ ok (decide t os)
    ]

module _ (schemas : Schemas) where
  unfoldable pub add_part : Contribution → Tally → Flow Tally
  add_part p t =
      if text_eq p.outcome []
      then stop (deny "no_decision")
      else if not (contains layer_names p.layer) || text_eq p.rule_id []
      then stop (deny "invalid_decision")
      else if not (schemas.decision_valid (validation p))
      then stop (deny "invalid_decision")
      else elim (add_obligations (elements p.obligations) t.by_id) [
        | none ↦ stop (deny "obligation_conflict")
        | some by_id ↦ next (record {
          deny = t.deny || text_eq p.outcome (codes "deny");
          approval = t.approval || text_eq p.outcome (codes "require_approval");
          transform = t.transform || text_eq p.outcome (codes "transform");
          reason_codes = t.reason_codes ++ elements p.reason_codes;
          by_id = by_id;
        })
      ]

  unfoldable pub add_parts : List Contribution → Tally → Flow Tally
  add_parts [] t = next t
  add_parts (p ∷ ps) t = elim (add_part p t) [ next u ↦ add_parts ps u | stop r ↦ stop r ]

  unfoldable pub compose_sorted : List Contribution → Try Result
  compose_sorted [] = ok (deny "no_decision")
  compose_sorted (p ∷ ps) = elim (add_parts (p ∷ ps) empty_tally) [
    | next t ↦ finish t
    | stop r ↦ ok r
  ]

  -- Compose(parts)
  unfoldable pub compose : List Contribution → Try Result
  compose parts = compose_sorted (sort contribution_leb parts)
