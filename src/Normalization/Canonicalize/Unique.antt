-- ===== src/Normalization/Canonicalize/Unique.antt =====
-- Proofs on Canonicalize: which inputs have the same canonical text.
use normgate.Prelude.{ap, true, [], ◌∙◌, ◌≤◌, ◌≡◌, ◌↔◌, sym, inl, inr, arith, length}
use normgate.Text.{Text}
use normgate.Text.Utf8.{Bytes}
use normgate.Json.{Value}
use normgate.Json.Unique.{IsWellFormed}
use normgate.Policy.{ok, Try-cases}
use normgate.Normalization.Decode
use normgate.Normalization.Normalize
use normgate.Normalization.Decode.{decode, decode_tokens, max_bytes, valid_surrogates}
use normgate.Normalization.Decode.Safe.{IsSafe}
use normgate.Normalization.Decode.Sound.{decode_tokens-IsSafe}
use normgate.Normalization.Normalize.{Profile, normalize}
use normgate.Normalization.Encode.{encode}
use normgate.Normalization.Encode.Same.{Same}
use normgate.Normalization.Encode.Canonical.{encode_iff}
use normgate.Normalization.Canonicalize.{normal_value, canonicalize}
use normgate.Normalization.Canonicalize.Numerals.{Safe-IsWellFormed, normalized-IsWellFormed}

-- What Decode returns is safe, and its input was short, valid UTF-8 with paired surrogates.
pub record IsDecoded (D : Decode.Packages) (raw : Bytes) (v : Value) : Type 0 where
  pub short : length raw ≤ max_bytes
  pub utf8 : D.is_utf8 raw ≡ true
  pub paired : valid_surrogates raw ≡ true
  pub safe : IsSafe D 0 v

pub decode-IsDecoded :
    (D : Decode.Packages) (raw : Bytes) (v : Value) → decode D raw ≡ ok v → IsDecoded D raw v
unfolding decode
decode-IsDecoded D raw v h = record {
  short = ground arith;
  utf8 = ground arith;
  paired = ground arith;
  safe = (decode_tokens-IsSafe D (D.tokens raw) v (ground arith)).0;
}

module _ (D : Decode.Packages) (N : Normalize.Packages) (profile : Profile) where
  normal_value-IsWellFormed :
      (raw : Bytes) (v : Value) → normal_value D N profile raw ≡ ok v → IsWellFormed v
  unfolding normal_value
  normal_value-IsWellFormed raw v h = elim (Try-cases (decode D raw)) [
    | inr e ↦ absurd (ground arith)
    | inl (w, e) ↦
        normalized-IsWellFormed N profile [] w v
          (Safe-IsWellFormed D 0 w (decode-IsDecoded D raw w e).safe) (rw e at h)
  ]

  canonicalize-ok :
      (raw : Bytes) (out : Text)
      → canonicalize D N profile raw ≡ ok out
      → (v : Value) × (normal_value D N profile raw ≡ ok v) × (out ≡ encode v)
  unfolding canonicalize
  canonicalize-ok raw out h = elim (Try-cases (normal_value D N profile raw)) [
    | inr e ↦ absurd (ground arith)
    | inl (v, e) ↦ (v, e, ground arith)
  ]

  -- Two inputs that Canonicalize accepts have the same canonical text exactly if their normalized
  -- values are equal but for the order of the entries of their objects.
  pub canonicalize_iff :
      (raw raw' : Bytes) (out out' : Text)
      → canonicalize D N profile raw ≡ ok out
      → canonicalize D N profile raw' ≡ ok out'
      → (v : Value) × (v' : Value) × (normal_value D N profile raw ≡ ok v)
        × (normal_value D N profile raw' ≡ ok v')
        × ((out ≡ out') ↔ Same v v')
  canonicalize_iff raw raw' out out' h h' =
      let (v, e, o) = canonicalize-ok raw out h in
      let (v', e', o') = canonicalize-ok raw' out' h' in
      let same =
        encode_iff v v' (normal_value-IsWellFormed raw v e)
          (normal_value-IsWellFormed raw' v' e') in
      (v, v', e, e', (λ t. same.0 (sym o ∙ t ∙ o'), λ s. o ∙ same.1 s ∙ sym o'))

-- Normalized values that are equal but for the order of entries are encoded alike, whatever the
-- profiles are.
pub canonicalize-Same :
    (D : Decode.Packages) (N : Normalize.Packages) (profile profile' : Profile) (raw raw' : Bytes)
    (v v' : Value)
    → normal_value D N profile raw ≡ ok v
    → normal_value D N profile' raw' ≡ ok v'
    → Same v v'
    → canonicalize D N profile raw ≡ canonicalize D N profile' raw'
unfolding canonicalize
canonicalize-Same D N profile profile' raw raw' v v' e e' s =
    let same =
      encode_iff v v' (normal_value-IsWellFormed D N profile raw v e)
        (normal_value-IsWellFormed D N profile' raw' v' e') in
    rw (e, e') (ap ok (same.1 s))
