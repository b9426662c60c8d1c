-- ===== src/Policy/Bundle/Dependencies/Register.antt =====
-- Proofs on ValidateDependencies: the map byID after the first loop.
use normgate.Prelude.{
  ◌≡◌, sym, ap, subst, true, none, some, List, [], ◌∷◌, arith, Bool-cases, Option-cases, inl, inr,
  ◌⊎◌, Elem,
}
use normgate.Text.{Text, text_eq, text_eq→eq, text_eq_refl}
use normgate.Contracts.{PolicyManifest}
use normgate.Policy.{ok, Try-cases}
use normgate.Policy.Bundle.Version.{compatible}
use normgate.Policy.Bundle.Dependencies.{Registry, find_manifest, own, register}

-- The id that a manifest is found under is its own, and the manifest stands in the map.
pub find_manifest-some :
    (id : Text) (ms : List PolicyManifest) (p : PolicyManifest)
    → find_manifest id ms ≡ some p
    → (p.id ≡ id) × Elem p ms
unfolding find_manifest
find_manifest-some id [] p h = absurd (ground arith)
find_manifest-some id (m ∷ ms) p h = elim (Bool-cases (text_eq m.id id)) [
  | inl e ↦
      let same : m ≡ p = ground arith in
      (subst (λ (z : PolicyManifest). z.id ≡ id) same (text_eq→eq m.id id e), inl (sym same))
  | inr e ↦ let (a, b) = find_manifest-some id ms p (ground arith) in (a, inr b)
]

find_manifest-cons :
    (m : PolicyManifest) (ms : List PolicyManifest) (id : Text) (p : PolicyManifest)
    → find_manifest m.id ms ≡ none
    → find_manifest id ms ≡ some p
    → find_manifest id (m ∷ ms) ≡ some p
unfolding find_manifest
find_manifest-cons m ms id p e q = elim (Bool-cases (text_eq m.id id)) [
  | inl s ↦ cc (q, e, ap (λ i. find_manifest i ms) (text_eq→eq m.id id s))
  | inr s ↦ ground (arith, q)
]

find_manifest_first :
    (m : PolicyManifest) (ms : List PolicyManifest) → find_manifest m.id (m ∷ ms) ≡ some m
unfolding find_manifest
find_manifest_first m ms = ground (arith, text_eq_refl m.id)

-- What the loop did.
pub record Registers (ms : List PolicyManifest) (r r' : Registry) : Type 0 where
  pub keeps :
      (id : Text) (p : PolicyManifest)
      → find_manifest id r.by_id ≡ some p
      → find_manifest id r'.by_id ≡ some p
  pub finds : (p : PolicyManifest) → Elem p ms → find_manifest p.id r'.by_id ≡ some p
  pub origin : (p : PolicyManifest) → Elem p r'.by_id → Elem p ms ⊎ Elem p r.by_id

pub register-cons :
    (m : PolicyManifest) (ms : List PolicyManifest) (r r' : Registry)
    → register (m ∷ ms) r ≡ ok r'
    → (compatible m.minimum_core_version ≡ true)
      × (find_manifest m.id r.by_id ≡ none)
      × ((owners : List Text) × (own m.namespaces r.owners ≡ ok owners)
          × (register ms (record { by_id = m ∷ r.by_id; owners = owners }) ≡ ok r'))
unfolding register
register-cons m ms r r' h = elim (Option-cases (find_manifest m.id r.by_id)) [
  | inr (p, e) ↦ absurd (ground arith)
  | inl e ↦ elim (Try-cases (own m.namespaces r.owners)) [
    | inr f ↦ absurd (ground arith)
    | inl (o, f) ↦ (ground arith, e, (o, f, ground arith))
  ]
]

pub register-Registers :
    (ms : List PolicyManifest) (r r' : Registry) → register ms r ≡ ok r' → Registers ms r r'
unfolding register
register-Registers [] r r' h =
    let same : r ≡ r' = ground arith in
    subst (Registers [] r) same
      (record { keeps = λ id p e. e; finds = λ p i. absurd i; origin = λ p i. inr i })
register-Registers (m ∷ ms) r r' h =
    let (c, e, (o, f, g)) = register-cons m ms r r' h in
    let t = register-Registers ms (record { by_id = m ∷ r.by_id; owners = o }) r' g in
    record {
      keeps = λ id p q. t.keeps id p (find_manifest-cons m r.by_id id p e q);
      finds = λ p i. elim i [
        | inl q ↦
            subst (λ (z : PolicyManifest). find_manifest z.id r'.by_id ≡ some z) (sym q)
              (t.keeps m.id m (find_manifest_first m r.by_id))
        | inr j ↦ t.finds p j
      ];
      origin = λ p i. elim (t.origin p i) [
        | inl j ↦ inl (inr j)
        | inr (inl q) ↦ inl (inl q)
        | inr (inr j) ↦ inr j
      ];
    }
