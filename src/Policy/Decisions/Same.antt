-- ===== src/Policy/Decisions/Same.antt =====
-- Proofs on decisions: which events get the same decision.
use normgate.Prelude.{refl, subst, Option-cases, some, ◌≡◌, ap, sym, ◌∙◌, Option, inl, inr, arith}
use normgate.Text.{Text, codes}
use normgate.Text.Utf8.{Bytes, utf8}
use normgate.Json.{Value}
use normgate.Policy.{ok-injective, Result, ok, Try-cases}
use normgate.Contracts.Validation.{SchemaMap, validate}
use normgate.Normalization.Decode
use normgate.Normalization.Normalize
use normgate.Normalization.Encode.Same.{Same}
use normgate.Normalization.Canonicalize.Unique.{canonicalize-Same}
use normgate.Normalization.Canonicalize.{canonicalize, normal_value}
use normgate.Policy.Decisions.{Events, event_bytes, profile_of, canonical_event, decide}

module _ (V : Events) (D : Decode.Packages) (N : Normalize.Packages) (compiled : Option SchemaMap)
    (digest : Bytes → Text) where
  canonical_event-ok :
      (e : V.Event) (p : V.Event × Text)
      → canonical_event V D N compiled digest e ≡ ok p
      → (V.unmarshal (utf8 p.1) ≡ some p.0)
        × (canonicalize D N
              (profile_of V D N compiled digest e)
              (event_bytes V D N compiled digest e)
            ≡ ok p.1)
  unfolding canonical_event
  canonical_event-ok e p h =
      let raw = event_bytes V D N compiled digest e in
      elim (Try-cases (validate D compiled (codes "event-envelope") raw)) [
        | inr f ↦ absurd (ground arith)
        | inl (u, f) ↦
            elim (Try-cases (canonicalize D N (profile_of V D N compiled digest e) raw)) [
              | inr g ↦ absurd (ground arith)
              | inl (text, g) ↦ elim (Option-cases (V.unmarshal (utf8 text))) [
                | inl k ↦ absurd (ground arith)
                | inr (c, k) ↦
                    let same : (c, text) ≡ p = ground arith in
                    subst
                      (λ (q : V.Event × Text).
                        (V.unmarshal (utf8 q.1) ≡ some q.0)
                        × (canonicalize D N (profile_of V D N compiled digest e) raw ≡ ok q.1))
                      same (k, g)
              ]
            ]
      ]

  canonical_event-Same :
      (e e' : V.Event) (p p' : V.Event × Text) (v v' : Value)
      → canonical_event V D N compiled digest e ≡ ok p
      → canonical_event V D N compiled digest e' ≡ ok p'
      → normal_value D N (profile_of V D N compiled digest e) (event_bytes V D N compiled digest e)
        ≡ ok v
      → normal_value D N
          (profile_of V D N compiled digest e')
          (event_bytes V D N compiled digest e')
        ≡ ok v'
      → Same v v'
      → p ≡ p'
  canonical_event-Same e e' (c, t) (c', t') v v' h h' n n' s =
      let (read, text) = canonical_event-ok e (c, t) h in
      let (read', text') = canonical_event-ok e' (c', t') h' in
      let same : t ≡ t' =
        ok-injective t t' (sym text ∙ canonicalize-Same D N _ _ _ _ v v' n n' s ∙ text') in
      cc (same, read, read', ap (λ x. V.unmarshal (utf8 x)) same)

  -- Events that CanonicalEvent accepts and whose normalized values are equal but for the order of entries get the
  -- same decision, or the same refusal, from a revision and a result of its rules.
  pub decide-Same :
      (e e' : V.Event) (p p' : V.Event × Text) (v v' : Value) (revision : Text) (result : Result)
      → canonical_event V D N compiled digest e ≡ ok p
      → canonical_event V D N compiled digest e' ≡ ok p'
      → normal_value D N (profile_of V D N compiled digest e) (event_bytes V D N compiled digest e)
        ≡ ok v
      → normal_value D N
          (profile_of V D N compiled digest e')
          (event_bytes V D N compiled digest e')
        ≡ ok v'
      → Same v v'
      → decide V D N compiled digest revision e result
        ≡ decide V D N compiled digest revision e' result
  unfolding decide
  decide-Same e e' p p' v v' revision result h h' n n' s =
      rw (h, h', canonical_event-Same e e' p p' v v' h h' n n' s) refl
