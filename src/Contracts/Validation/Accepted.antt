-- ===== src/Contracts/Validation/Accepted.antt =====
-- Proofs on the validation of contracts: what an accepted input is.
use normgate.Prelude.{◌≡◌, true, some, inl, inr, arith, Option, Option-cases, Bool-cases}
use normgate.Text.{Text}
use normgate.Text.Utf8.{Bytes}
use normgate.Json.{Value}
use normgate.Policy.{ok, Try-cases}
use normgate.Normalization.Decode
use normgate.Normalization.Decode.{decode}
use normgate.Normalization.Canonicalize.Unique.{IsDecoded, decode-IsDecoded}
use normgate.Contracts.Validation.{
  Schema, SchemaMap, find_schema, is_supported, validate, decode_contract,
}

-- The input is safe JSON of major version 1, or of none, that its schema accepts.
pub record IsAccepted (D : Decode.Packages) (compiled : Option SchemaMap) (name : Text)
    (raw : Bytes) : Type 0 where
  pub value : Value
  pub decoded : IsDecoded D raw value
  pub schemas : SchemaMap
  pub schema : Schema
  pub is_compiled : compiled ≡ some schemas
  pub found : find_schema name schemas ≡ some schema
  pub supported : is_supported value ≡ true
  pub accepted : schema value ≡ true

module _ (D : Decode.Packages) (compiled : Option SchemaMap) (name : Text) (raw : Bytes) where
  pub validate-IsAccepted : validate D compiled name raw ≡ ok tt → IsAccepted D compiled name raw
  unfolding validate
  validate-IsAccepted h = elim (Option-cases compiled) [
    | inl c ↦ absurd (ground arith)
    | inr (m, c) ↦ elim (Option-cases (find_schema name m)) [
      | inl f ↦ absurd (ground arith)
      | inr (s, f) ↦ elim (Try-cases (decode D raw)) [
        | inr e ↦ absurd (ground arith)
        | inl (v, e) ↦ elim (Bool-cases (is_supported v)) [
          | inr k ↦ absurd (ground arith)
          | inl k ↦ record {
            value = v;
            decoded = decode-IsDecoded D raw v e;
            schemas = m;
            schema = s;
            is_compiled = c;
            found = f;
            supported = k;
            accepted = ground arith;
          }
        ]
      ]
    ]
  ]

  pub decode_contract-IsAccepted :
      {T : Type 0} (unmarshal : Bytes → Option T) (t : T)
      → decode_contract D compiled unmarshal name raw ≡ ok t
      → IsAccepted D compiled name raw × (unmarshal raw ≡ some t)
  unfolding decode_contract
  decode_contract-IsAccepted unmarshal t h = elim (Try-cases (validate D compiled name raw)) [
    | inr e ↦ absurd (ground arith)
    | inl (u, e) ↦ elim (Option-cases (unmarshal raw)) [
      | inl f ↦ absurd (ground arith)
      | inr (x, f) ↦ (validate-IsAccepted e, ground arith)
    ]
  ]
