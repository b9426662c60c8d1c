-- ===== src/Policy/Bundle/Dependencies/Marks.antt =====
-- Proofs on ValidateDependencies: what a visit does to the map `state`.
use normgate.Prelude.{
  Elem, ℕ, zero, suc, ◌≡◌, ◌≢◌, ap, ◌∙◌, subst, false, some, List, [], ◌∷◌, arith, All, Bool-cases,
  Option-cases, inl, inr, ◌==◌,
}
use normgate.Text.{Text, text_eq, text_eq→eq, text_eq_refl}
use normgate.Contracts.{PolicyManifest}
use normgate.Policy.{ok, err, panic}
use normgate.Policy.Bundle.Dependencies.{
  Marks, mark, dependencies_of, resolve, Visit, visit_dependencies, leave, visit, visit_all,
}

-- An id whose visit has begun, or has ended, stays so.
abbrev pub Keeps : Marks → Marks → Type 0
Keeps m m' = (x : Text) → (mark m x ≡ 1 → mark m' x ≡ 1) × (mark m x ≡ 2 → mark m' x ≡ 2)

pub Keeps-trans : (a b c : Marks) → Keeps a b → Keeps b c → Keeps a c
Keeps-trans a b c f g x = (λ h. (g x).0 ((f x).0 h), λ h. (g x).1 ((f x).1 h))

pub mark_top : (id : Text) (k : ℕ) (m : Marks) → mark ((id, k) ∷ m) id ≡ k
unfolding mark
mark_top id k m = ground (arith, text_eq_refl id)

-- A visit that begins at an id without a mark, and ends.
Keeps-leave :
    (id : Text) (m n : Marks)
    → mark m id == 1 ≡ false
    → mark m id == 2 ≡ false
    → Keeps ((id, 1) ∷ m) n
    → Keeps m ((id, 2) ∷ n)
unfolding mark
Keeps-leave id m n e f k x = elim (Bool-cases (text_eq id x)) [
  | inl q ↦ (
    λ h. absurd (ground (arith, ap (mark m) (text_eq→eq id x q))),
    λ h. absurd (ground (arith, ap (mark m) (text_eq→eq id x q))),
  )
  | inr q ↦ (λ h. ground (arith, k x), λ h. ground (arith, k x))
]

module _ (by_id : List PolicyManifest) where
  -- Every dependency names a manifest that has been left.
  abbrev pub Below : Marks → List Text → Type 0
  Below m ds = All (λ d. (p : PolicyManifest) × (resolve by_id d ≡ some p) × (mark m p.id ≡ 2)) ds

  -- An id is left once, after its dependencies.
  abbrev pub Ordered : Marks → Type 0
  Ordered [] = Unit
  Ordered ((id, k) ∷ m) = (mark m id ≢ 2) × (k ≡ 2 → Below m (dependencies_of by_id id)) × Ordered m

  abbrev pub Visits : Marks → Marks → Type 0
  Visits m m' = Keeps m m' × (Ordered m → Ordered m')

  Below-Keeps : (m m' : Marks) → Keeps m m' → (ds : List Text) → Below m ds → Below m' ds
  Below-Keeps m m' k [] b = tt
  Below-Keeps m m' k (d ∷ ds) ((p, r, e), b) = ((p, r, (k p.id).1 e), Below-Keeps m m' k ds b)

  -- What is asked of the visits of the dependencies.
  abbrev pub Lawful : Visit by_id → Type 0
  Lawful go = (id : Text) (m m' : Marks) → go id m ≡ some (ok m') → Visits m m' × (mark m' id ≡ 2)

  visit_dependencies-Below :
      (go : Visit by_id)
      → Lawful go
      → (ds : List Text) (m m' : Marks) → visit_dependencies by_id go ds m ≡ some (ok m')
      → Visits m m' × Below m' ds
  unfolding visit_dependencies
  visit_dependencies-Below go l [] m m' h =
      let same : m ≡ m' = ground arith in
      subst (λ z. Visits m z × Unit {0}) same ((λ x. (λ e. e, λ e. e), λ o. o), tt)
  visit_dependencies-Below go l (d ∷ ds) m m' h = elim (Option-cases (resolve by_id d)) [
    | inl e ↦ absurd (ground arith)
    | inr (p, e) ↦ elim (Option-cases (go p.id m)) [
      | inl f ↦ absurd (ground arith)
      | inr (ok n, f) ↦
          let (v, k) = l p.id m n f in
          let (w, b) = visit_dependencies-Below go l ds n m' (ground arith) in
          ((Keeps-trans m n m' v.0 w.0, λ o. w.1 (v.1 o)), ((p, e, (w.0 p.id).1 k), b))
      | inr (err x, f) ↦ absurd (ground arith)
      | inr (panic, f) ↦ absurd (ground arith)
    ]
  ]

  leave-Lawful :
      (id : Text) (m n : Marks)
      → mark m id == 1 ≡ false
      → mark m id == 2 ≡ false
      → Visits ((id, 1) ∷ m) n
      → Below n (dependencies_of by_id id)
      → Visits m ((id, 2) ∷ n)
  leave-Lawful id m n e f v b = (
    Keeps-leave id m n e f v.0,
    λ o. (
      λ q. ground (arith, (v.0 id).0 (mark_top id 1 m), q),
      λ _. b,
      v.1 (λ q. ground (arith, q), λ q. ground (arith, q), o),
    ),
  )

  pub visit-Lawful : (fuel : ℕ) → Lawful (visit by_id fuel)
  unfolding visit leave
  visit-Lawful zero id m m' h = absurd (ground arith)
  visit-Lawful (suc fuel) id m m' h = elim (Bool-cases (mark m id == 1)) [
    | inl e ↦ absurd (ground arith)
    | inr e ↦ elim (Bool-cases (mark m id == 2)) [
      | inl f ↦
          let same : m ≡ m' = ground arith in
          subst (λ z. Visits m z × (mark z id ≡ 2)) same
            ((λ x. (λ q. q, λ q. q), λ o. o), ground arith)
      | inr f ↦
          let deps = dependencies_of by_id id in
          let found = visit_dependencies by_id (visit by_id fuel) deps ((id, 1) ∷ m) in
          elim (Option-cases found) [
            | inl g ↦ absurd (ground arith)
            | inr (err x, g) ↦ absurd (ground arith)
            | inr (panic, g) ↦ absurd (ground arith)
            | inr (ok n, g) ↦
                let (v, b) =
                  visit_dependencies-Below (visit by_id fuel) (visit-Lawful fuel) deps ((id, 1) ∷ m)
                    n g in
                let same : ◌≡◌ {A = Marks} ((id, 2) ∷ n) m' = ground arith in
                subst (λ z. Visits m z × (mark z id ≡ 2)) same
                  (leave-Lawful id m n e f v b, mark_top id 2 n)
          ]
    ]
  ]

  -- The loop over byID leaves every id that it meets.
  pub visit_all-Visits :
      (fuel : ℕ) (ms : List PolicyManifest) (m m' : Marks)
      → visit_all by_id fuel ms m ≡ some (ok m')
      → Visits m m' × ((p : PolicyManifest) → Elem p ms → mark m' p.id ≡ 2)
  unfolding visit_all
  visit_all-Visits fuel [] m m' h =
      let same : m ≡ m' = ground arith in
      (subst (Visits m) same ((λ x. (λ q. q, λ q. q)), λ o. o), λ p i. absurd i)
  visit_all-Visits fuel (d ∷ ds) m m' h = elim (Option-cases (visit by_id fuel d.id m)) [
    | inl f ↦ absurd (ground arith)
    | inr (err x, f) ↦ absurd (ground arith)
    | inr (panic, f) ↦ absurd (ground arith)
    | inr (ok n, f) ↦
        let (v, k) = visit-Lawful fuel d.id m n f in
        let (w, a) = visit_all-Visits fuel ds n m' (ground arith) in
        (
          (Keeps-trans m n m' v.0 w.0, λ o. w.1 (v.1 o)),
          λ p i. elim i [
            | inl q ↦ ap (λ (z : PolicyManifest). mark m' z.id) q ∙ (w.0 d.id).1 k
            | inr j ↦ a p j
          ],
        )
  ]
