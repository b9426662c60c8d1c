-- ===== src/Policy/Decisions.antt =====
-- CanonicalEvent, DigestValue and Decision of internal/policy/engine.go. The generated type of events
-- with its JSON is the parameter `Events`, and SHA-256 is a function on bytes.
pub mod Same
use normgate.Prelude.{ℕ, zero, suc, pos, Option, none, some, List, [], ◌∷◌, ◌++◌}
use normgate.Text.{Text, codes}
use normgate.Text.Utf8.{Bytes, utf8}
use normgate.Json.{Value, str, obj, marshal}
use normgate.Json.Struct.{struct, slice_value}
use normgate.Json.Decimal.{format_int}
use normgate.Contracts.{Decision, obligation_value}
use normgate.Contracts.Validation.{SchemaMap, or_error, result_of, validate}
use normgate.Policy.{Result, Try, ok, err, panic, failure, ◌>>=◌, ◌>>◌}
use normgate.Normalization.Decode
use normgate.Normalization.Normalize
use normgate.Normalization.Normalize.{Profile}
use normgate.Normalization.Canonicalize.{canonicalize}
use mathlib.Core.Option

-- v1.EventEnvelope: its JSON and how it is read, and what the code takes of it.
pub record Events : Type 1 where
  pub Event : Type 0
  pub event_value : Event → Value
  pub unmarshal : Bytes → Option Event
  pub resource_count : Event → ℕ
  pub fact_count : Event → ℕ
  pub operation_value : Event → Value
  pub facts_value : Event → Value
  pub occurred_at : Event → Text

abbrev pub decision_keys : List Text
decision_keys =
    codes "schema_version"
    ∷ codes "id"
    ∷ codes "outcome"
    ∷ codes "policy_revision"
    ∷ codes "operation_digest"
    ∷ codes "reason_codes"
    ∷ codes "obligations"
    ∷ codes "evaluated_at"
    ∷ codes "external_facts_digest"
    ∷ codes "extensions"
    ∷ []

-- The JSON of a decision.
unfoldable pub decision_value : Decision → Value
decision_value d = obj (
    struct decision_keys (
      some (str d.schema_version)
      ∷ some (str d.id)
      ∷ some (str d.outcome)
      ∷ some (str d.policy_revision)
      ∷ some (str d.operation_digest)
      ∷ some (slice_value str d.reason_codes)
      ∷ some (slice_value obligation_value d.obligations)
      ∷ some (str d.evaluated_at)
      ∷ some (str d.external_facts_digest)
      ∷ Option.map obj d.extensions
      ∷ []))

-- The paths of the entries from the i-th on, of which n are left.
unfoldable pub indexed_paths : Text → (first second : Text) → (n i : ℕ) → List Text
indexed_paths prefix first second zero i = []
indexed_paths prefix first second (suc n) i =
    (prefix ++ format_int (pos i) ++ first)
    ∷ (prefix ++ format_int (pos i) ++ second)
    ∷ indexed_paths prefix first second n (suc i)

abbrev pub fixed_sets : List Text
fixed_sets =
    codes "/principal/roles"
    ∷ codes "/principal/claim_refs"
    ∷ codes "/operation/data_refs"
    ∷ codes "/operation/classifications"
    ∷ []

-- The profile of an event with so many resources and facts.
unfoldable pub event_profile : (resources facts : ℕ) → Profile
unfolding indexed_paths
event_profile resources facts = record {
  sets =
      fixed_sets
      ++ indexed_paths (codes "/operation/resources/") (codes "/classifications")
          (codes "/data_refs") resources 0;
  timestamps =
      codes "/occurred_at"
      ∷ indexed_paths (codes "/external_facts/") (codes "/resolved_at") (codes "/expires_at") facts
          0;
  omit = codes "/transport" ∷ [];
}

abbrev pub no_profile : Profile
no_profile = record { sets = []; timestamps = []; omit = [] }

module _ (V : Events) (D : Decode.Packages) (N : Normalize.Packages) (compiled : Option SchemaMap)
    (digest : Bytes → Text) where
  open V use {Event}

  abbrev pub profile_of : Event → Profile
  profile_of e = event_profile (V.resource_count e) (V.fact_count e)

  abbrev pub event_bytes : Event → Bytes
  event_bytes e = utf8 (marshal (V.event_value e))

  -- CanonicalEvent
  unfoldable pub canonical_event : Event → Try (Event × Text)
  canonical_event e = do
    or_error (failure "invalid_event")
        (validate D compiled (codes "event-envelope") (event_bytes e))
    raw ← or_error (failure "invalid_event") (canonicalize D N (profile_of e) (event_bytes e))
    canonical ← result_of (failure "invalid_event") (V.unmarshal (utf8 raw))
    ok (canonical, raw)

  -- DigestValue
  unfoldable pub digest_value : Value → Try Text
  digest_value v = do raw ← canonicalize D N no_profile (utf8 (marshal v)); ok (digest (utf8 raw))

  abbrev pub decision_for : Text → Result → Event × Text → (operation facts : Text) → Decision
  decision_for revision result p operation facts = record {
    schema_version = codes "1.0";
    id = digest (utf8 (revision ++ codes "\n" ++ p.1));
    outcome = result.outcome;
    policy_revision = revision;
    operation_digest = operation;
    reason_codes = some result.reason_codes;
    obligations = some result.obligations;
    evaluated_at = V.occurred_at p.0;
    external_facts_digest = facts;
    extensions = none;
  }

  -- What Decision does with a canonical event.
  unfoldable pub decide_canonical : Text → Result → Event × Text → Try Decision
  unfolding digest_value decision_value
  decide_canonical revision result p = do
    operation ← digest_value (V.operation_value p.0)
    facts ← digest_value (V.facts_value p.0)
    or_error (failure "invalid_decision") (
        validate D compiled (codes "decision")
          (utf8 (marshal (decision_value (decision_for revision result p operation facts)))))
    ok (decision_for revision result p operation facts)

  -- Decision
  unfoldable pub decide : Text → Event → Result → Try Decision
  unfolding canonical_event decide_canonical
  decide revision e result = do p ← canonical_event e; decide_canonical revision result p
