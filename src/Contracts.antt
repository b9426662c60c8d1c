-- ===== src/Contracts.antt =====
-- The transport types of internal/contracts/v1/types.gen.go that the policy code reads, the JSON
-- that json.Marshal gives for them, and what the code relies on of the embedded schemas. The
-- validator is a third-party package: `Schemas` stands for contracts.Validate on a marshalled value.
pub mod Validation
pub mod Encoding
use normgate.Prelude.{
  ◌≡◌, ◌⊎◌, Bool, true, false, ◌||◌, not, Option, none, some, List, [], ◌∷◌, all, Slice, elements,
  ℤ, Elem,
}
use normgate.Text.{Text, codes, text_eq}
use normgate.Json.{Value, str, number, arr, obj, Fields}
use normgate.Json.Struct.{struct, items_of, slice_value}
use normgate.Json.Decimal.{format_int}
use mathlib.Core.Option

-- An extensions map is the list of its entries in the order of the keys.
pub record Obligation : Type 0 where
  pub schema_version : Text
  pub id : Text
  pub kind : Text
  pub paths : Option (List Text)
  pub limit : Option ℤ
  pub destination_id : Option Text
  pub reviewer_group : Option Text
  pub check_ref : Option Text
  pub extensions : Option Fields

pub record Decision : Type 0 where
  pub schema_version : Text
  pub id : Text
  pub outcome : Text
  pub policy_revision : Text
  pub operation_digest : Text
  pub reason_codes : Slice Text
  pub obligations : Slice Obligation
  pub evaluated_at : Text
  pub external_facts_digest : Text
  pub extensions : Option Fields

pub record ExternalFact : Type 0 where
  pub schema_version : Text
  pub id : Text
  pub source : Text
  pub revision : Text
  pub value_ref : Text
  pub value_digest : Text
  pub resolved_at : Text
  pub expires_at : Text
  pub extensions : Option Fields

pub record PolicyManifest : Type 0 where
  pub schema_version : Text
  pub id : Text
  pub version : Text
  pub minimum_core_version : Text
  pub namespaces : List Text
  pub dependencies : List Text
  pub external_fact_sources : List Text
  pub source_digest : Text
  pub build_digest : Text
  pub signing_identity : Text
  pub created_at : Text
  pub extensions : Option Fields

abbrev pub texts_value : List Text → Value
texts_value xs = arr (items_of str xs)

abbrev pub int_value : ℤ → Value
int_value n = number (format_int n)

abbrev pub obligation_keys : List Text
obligation_keys =
    codes "schema_version"
    ∷ codes "id"
    ∷ codes "kind"
    ∷ codes "paths"
    ∷ codes "limit"
    ∷ codes "destination_id"
    ∷ codes "reviewer_group"
    ∷ codes "check_ref"
    ∷ codes "extensions"
    ∷ []

abbrev pub obligation_fields : Obligation → List (Option Value)
obligation_fields o =
    some (str o.schema_version)
    ∷ some (str o.id)
    ∷ some (str o.kind)
    ∷ Option.map texts_value o.paths
    ∷ Option.map int_value o.limit
    ∷ Option.map str o.destination_id
    ∷ Option.map str o.reviewer_group
    ∷ Option.map str o.check_ref
    ∷ Option.map obj o.extensions
    ∷ []

unfoldable pub obligation_value : Obligation → Value
obligation_value o = obj (struct obligation_keys (obligation_fields o))

abbrev pub manifest_keys : List Text
manifest_keys =
    codes "schema_version"
    ∷ codes "id"
    ∷ codes "version"
    ∷ codes "minimum_core_version"
    ∷ codes "namespaces"
    ∷ codes "dependencies"
    ∷ codes "external_fact_sources"
    ∷ codes "source_digest"
    ∷ codes "build_digest"
    ∷ codes "signing_identity"
    ∷ codes "created_at"
    ∷ codes "extensions"
    ∷ []

abbrev pub manifest_fields : PolicyManifest → List (Option Value)
manifest_fields m =
    some (str m.schema_version)
    ∷ some (str m.id)
    ∷ some (str m.version)
    ∷ some (str m.minimum_core_version)
    ∷ some (texts_value m.namespaces)
    ∷ some (texts_value m.dependencies)
    ∷ some (texts_value m.external_fact_sources)
    ∷ some (str m.source_digest)
    ∷ some (str m.build_digest)
    ∷ some (str m.signing_identity)
    ∷ some (str m.created_at)
    ∷ Option.map obj m.extensions
    ∷ []

unfoldable pub manifest_value : PolicyManifest → Value
manifest_value m = obj (struct manifest_keys (manifest_fields m))

abbrev is_some {ℓ} : {A : Type ℓ} → Option A → Bool
is_some none = false
is_some (some a) = true

-- A destination restriction names its destination.
unfoldable pub names_destination : Obligation → Bool
unfolding text_eq
names_destination o =
    not (text_eq o.kind (codes "restrict_destination")) || is_some o.destination_id

abbrev pub outcomes : List Text
outcomes = codes "allow" ∷ codes "deny" ∷ codes "transform" ∷ codes "require_approval" ∷ []

-- schemas/v1/decision.schema.json and schemas/v1/obligation.schema.json, as far as the code relies
-- on them: the four outcomes, and `destination_id` where the kind requires it.
pub record Schemas : Type 0 where
  pub decision_valid : Decision → Bool
  pub known_outcome : (d : Decision) → decision_valid d ≡ true → Elem d.outcome outcomes
  pub known_destination :
      (d : Decision)
      → decision_valid d ≡ true
      → (o : Obligation) → Elem o (elements d.obligations)
      → names_destination o ≡ true
