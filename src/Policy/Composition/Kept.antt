-- ===== src/Policy/Composition/Kept.antt =====
-- Proofs on internal/policy/composition.go: the map byID.
use normgate.Prelude.{
  ◌≡◌, refl, sym, ap, ◌⊎◌, inl, inr, true, some, List, [], ◌∷◌, arith, All, All-Elem, Elem,
  elements, Option-cases, Bool-cases, subst,
}
use normgate.Text.{Text, text_eq→eq}
use normgate.Json.Unique.{marshal-injective}
use normgate.Contracts.{Obligation, Schemas, obligation_value}
use normgate.Contracts.Encoding.{
  IsEncodable, obligation_value-injective, obligation_value-IsWellFormed,
}
use normgate.Policy.{Contribution}
use normgate.Policy.Composition.{
  Tally, next, add_parts, add_obligation, add_obligations, find_id, sort_paths, same_obligation,
}
use normgate.Policy.Composition.Order.{AreEncodable, ContributionIsEncodable}
use normgate.Policy.Composition.Tallies.{add_parts-cons}

-- Equal JSON is equality.
pub same_obligation→eq :
    (a b : Obligation) → IsEncodable a → IsEncodable b → same_obligation a b ≡ true → a ≡ b
unfolding same_obligation
same_obligation→eq a b h k e = obligation_value-injective a b (
    marshal-injective (obligation_value a) (obligation_value b) (obligation_value-IsWellFormed a h)
      (obligation_value-IsWellFormed b k) (text_eq→eq _ _ e))

find_id-Elem :
    (id : Text) (os : List Obligation) (o : Obligation) → find_id id os ≡ some o → Elem o os
unfolding find_id
find_id-Elem id [] o e = cc
find_id-Elem id (x ∷ os) o e = ground (arith, find_id-Elem id os o)

-- What a successful addition did.
pub record Adds (os m m' : List Obligation) : Type 0 where
  pub encodable : AreEncodable m'
  pub keeps : (x : Obligation) → Elem x m → Elem x m'
  pub takes : (x : Obligation) → Elem x os → Elem (sort_paths x) m'
  pub origin :
      (x : Obligation) → Elem x m' → Elem x m ⊎ ((o : Obligation) × Elem o os × (x ≡ sort_paths o))

sort_paths-IsEncodable : (o : Obligation) → IsEncodable o → IsEncodable (sort_paths o)
unfolding sort_paths
sort_paths-IsEncodable o h = h

add_obligation-cases :
    (o : Obligation) (m m' : List Obligation)
    → IsEncodable o
    → AreEncodable m
    → add_obligation o m ≡ some m'
    → (m' ≡ o ∷ m) ⊎ ((m' ≡ m) × Elem o m)
unfolding add_obligation
add_obligation-cases o m m' h k e = elim (Option-cases (find_id o.id m)) [
  | inl f ↦ inl (ground arith)
  | inr (q, f) ↦ elim (Bool-cases (same_obligation q o)) [
    | inl s ↦ inr (
      ground arith,
      subst (λ x. Elem x m)
          (same_obligation→eq q o (All-Elem IsEncodable m k q (find_id-Elem o.id m q f)) h s)
          (find_id-Elem o.id m q f),
    )
    | inr s ↦ ground arith
  ]
]

add_obligation-Adds :
    (o : Obligation) (m n : List Obligation)
    → IsEncodable o
    → AreEncodable m
    → add_obligation (sort_paths o) m ≡ some n
    → Adds (o ∷ []) m n
add_obligation-Adds o m n h k e =
    elim (add_obligation-cases (sort_paths o) m n (sort_paths-IsEncodable o h) k e) [
      | inl q ↦ rw q (record {
        encodable = (sort_paths-IsEncodable o h, k);
        keeps = λ x i. inr i;
        takes = λ x i. elim i [ inl r ↦ inl (ap sort_paths r) | inr j ↦ absurd j ];
        origin = λ x i. elim i [ inl r ↦ inr (o, inl refl, r) | inr j ↦ inl j ];
      })
      | inr (q, l) ↦ rw q (record {
        encodable = k;
        keeps = λ x i. i;
        takes = λ x i. elim i [
          | inl r ↦ subst (λ y. Elem (sort_paths y) m) (sym r) l
          | inr j ↦ absurd j
        ];
        origin = λ x i. inl i;
      })
    ]

Adds-cons :
    (o : Obligation) (os m n m' : List Obligation)
    → Adds (o ∷ []) m n
    → Adds os n m'
    → Adds (o ∷ os) m m'
Adds-cons o os m n m' a b = record {
  encodable = b.encodable;
  keeps = λ x i. b.keeps x (a.keeps x i);
  takes =
      λ x i. elim i [ inl r ↦ b.keeps (sort_paths x) (a.takes x (inl r)) | inr j ↦ b.takes x j ];
  origin = λ x i. elim (b.origin x i) [
    | inr (y, j, r) ↦ inr (y, inr j, r)
    | inl j ↦ elim (a.origin x j) [
      | inl l ↦ inl l
      | inr (y, inl q, r) ↦ inr (y, inl q, r)
      | inr (y, inr q, r) ↦ absurd q
    ]
  ];
}

add_obligations-cons :
    (o : Obligation) (os m m' : List Obligation)
    → add_obligations (o ∷ os) m ≡ some m'
    → (n : List Obligation) × (add_obligation (sort_paths o) m ≡ some n)
      × (add_obligations os n ≡ some m')
unfolding add_obligations
add_obligations-cons o os m m' e = ground arith

pub add_obligations-Adds :
    (os m m' : List Obligation)
    → AreEncodable os
    → AreEncodable m
    → add_obligations os m ≡ some m'
    → Adds os m m'
unfolding add_obligations
add_obligations-Adds [] m m' h k e =
    let q : m ≡ m' = ground arith in
    record {
      encodable = subst AreEncodable q k;
      keeps = λ x i. subst (Elem x) q i;
      takes = λ x i. absurd i;
      origin = λ x i. inl (subst (Elem x) (sym q) i);
    }
add_obligations-Adds (o ∷ os) m m' h k e =
    let (n, a, b) = add_obligations-cons o os m m' e in
    let first = add_obligation-Adds o m n h.0 k a in
    Adds-cons o os m n m' first (add_obligations-Adds os n m' h.1 first.encodable b)

-- What the whole loop did to the map.
pub record Gathers (ps : List Contribution) (m m' : List Obligation) : Type 0 where
  pub encodable : AreEncodable m'
  pub keeps : (x : Obligation) → Elem x m → Elem x m'
  pub takes :
      (p : Contribution) (x : Obligation)
      → Elem p ps
      → Elem x (elements p.obligations)
      → Elem (sort_paths x) m'
  pub origin :
      (x : Obligation)
      → Elem x m'
      → Elem x m
        ⊎ ((p : Contribution) × (o : Obligation) × Elem p ps
            × Elem o (elements p.obligations)
            × (x ≡ sort_paths o))

Gathers-cons :
    (p : Contribution) (ps : List Contribution) (m n m' : List Obligation)
    → Adds (elements p.obligations) m n
    → Gathers ps n m'
    → Gathers (p ∷ ps) m m'
Gathers-cons p ps m n m' a b = record {
  encodable = b.encodable;
  keeps = λ x i. b.keeps x (a.keeps x i);
  takes = λ q x i j. elim i [
    | inl r ↦
        b.keeps (sort_paths x)
          (a.takes x (subst (λ (y : Contribution). Elem x (elements y.obligations)) r j))
    | inr k ↦ b.takes q x k j
  ];
  origin = λ x i. elim (b.origin x i) [
    | inr (q, o, j, k, r) ↦ inr (q, o, inr j, k, r)
    | inl j ↦ elim (a.origin x j) [ inl l ↦ inl l | inr (o, k, r) ↦ inr (p, o, inl refl, k, r) ]
  ];
}

pub add_parts-Gathers :
    (schemas : Schemas) (ps : List Contribution) (t u : Tally)
    → All ContributionIsEncodable ps
    → AreEncodable t.by_id
    → add_parts schemas ps t ≡ next u
    → Gathers ps t.by_id u.by_id
unfolding add_parts
add_parts-Gathers schemas [] t u h k e =
    let q : t.by_id ≡ u.by_id = ground arith in
    record {
      encodable = subst AreEncodable q k;
      keeps = λ x i. subst (Elem x) q i;
      takes = λ p x i. absurd i;
      origin = λ x i. inl (subst (Elem x) (sym q) i);
    }
add_parts-Gathers schemas (p ∷ ps) t u h k e =
    let (m, r, f) = add_parts-cons schemas p ps t u e in
    let first = add_obligations-Adds (elements p.obligations) t.by_id m.by_id h.0 k r.by_id in
    Gathers-cons p ps t.by_id m.by_id u.by_id first
      (add_parts-Gathers schemas ps m u h.1 first.encodable f)
