-- ===== src/Policy/Bundle/Dependencies/Enough.antt =====
-- Proofs on ValidateDependencies: the fuel.
use normgate.Prelude.{
  ℕ, zero, suc, ◌+◌, ◌<◌, ◌≤◌, ◌≡◌, refl, ap, ◌∙◌, Bool, false, ◌||◌, Option, some, List, [], ◌∷◌,
  arith, Bool-cases, Option-cases, inl, inr, if◌then◌else◌, length, ◌==◌,
}
use normgate.Text.{Text, text_eq, text_eq→eq}
use normgate.Contracts.{PolicyManifest}
use normgate.Policy.{Try, ok, err, panic, Try-cases, failure}
use normgate.Policy.Bundle.Dependencies.{
  Marks, mark, dependencies_of, find_manifest, resolve, Visit, visit_dependencies, leave, visit,
  visit_all, register, no_manifests, validate_dependencies,
}
use normgate.Policy.Bundle.Dependencies.Marks.{Keeps, Lawful, mark_top, visit-Lawful}

abbrev is_visited : Marks → Text → Bool
is_visited m id = mark m id == 1 || mark m id == 2

-- How many manifests no visit has begun at.
abbrev left_over : List PolicyManifest → Marks → ℕ
left_over [] m = 0
left_over (p ∷ ps) m = (if is_visited m p.id then 0 else 1) + left_over ps m

left_over-Keeps :
    (ps : List PolicyManifest) (m m' : Marks) → Keeps m m' → left_over ps m' ≤ left_over ps m
left_over-Keeps [] m m' k = omega arith
left_over-Keeps (p ∷ ps) m m' k = ground (arith, k p.id, left_over-Keeps ps m m' k)

begin-Keeps : (m : Marks) (id : Text) → is_visited m id ≡ false → Keeps m ((id, 1) ∷ m)
unfolding mark
begin-Keeps m id e x = elim (Bool-cases (text_eq id x)) [
  | inl q ↦
      (λ h. ground (arith, q), λ h. absurd (ground (arith, e, h, ap (mark m) (text_eq→eq id x q))))
  | inr q ↦ (λ h. ground (arith, q, h), λ h. ground (arith, q, h))
]

-- A visit that begins at a manifest of the list leaves fewer.
left_over_begin :
    (ps : List PolicyManifest) (m : Marks) (id : Text) (p : PolicyManifest)
    → is_visited m id ≡ false
    → find_manifest id ps ≡ some p
    → left_over ps ((id, 1) ∷ m) < left_over ps m
unfolding find_manifest
left_over_begin [] m id p e h = absurd (ground arith)
left_over_begin (q ∷ qs) m id p e h =
    let others = left_over-Keeps qs m ((id, 1) ∷ m) (begin-Keeps m id e) in
    elim (Bool-cases (text_eq q.id id)) [
      | inl f ↦
          let same = text_eq→eq q.id id f in
          let top : mark ((id, 1) ∷ m) q.id ≡ 1 = ap (mark ((id, 1) ∷ m)) same ∙ mark_top id 1 m in
          ground (arith, e, others, ap (is_visited m) same, top)
      | inr f ↦ ground (arith, begin-Keeps m id e q.id, left_over_begin qs m id p e (ground arith))
    ]

module _ (by_id : List PolicyManifest) where
  -- A visit returns where this much fuel is left.
  abbrev Returns : ℕ → Visit by_id → Type 0
  Returns fuel go =
      (id : Text) (m : Marks) → left_over by_id m < fuel → (r : Try Marks) × (go id m ≡ some r)

  visit_dependencies-Returns :
      (fuel : ℕ) (go : Visit by_id)
      → Lawful by_id go
      → Returns fuel go
      → (ds : List Text) (m : Marks) → left_over by_id m < fuel
      → (r : Try Marks) × (visit_dependencies by_id go ds m ≡ some r)
  unfolding visit_dependencies
  visit_dependencies-Returns fuel go l g [] m h = (ok m, refl)
  visit_dependencies-Returns fuel go l g (d ∷ ds) m h = elim (Option-cases (resolve by_id d)) [
    | inl e ↦ (err (failure "dependency_constraint"), ground (arith, e))
    | inr (p, e) ↦ elim (Option-cases (go p.id m)) [
      | inl f ↦ absurd (cc ((g p.id m h).1, f))
      | inr (err x, f) ↦ (err x, ground (arith, e, f))
      | inr (panic, f) ↦ (panic, ground (arith, e, f))
      | inr (ok n, f) ↦
          let k = (l p.id m n f).0.0 in
          let (r, q) =
            visit_dependencies-Returns fuel go l g ds n
              (omega (arith, h, left_over-Keeps by_id m n k)) in
          (r, ground (arith, e, f, q))
    ]
  ]

  begun-Returns :
      (fuel : ℕ) (go : Visit by_id)
      → Lawful by_id go
      → Returns fuel go
      → (id : Text) (m : Marks) → is_visited m id ≡ false
      → left_over by_id m < suc fuel
      → (r : Try Marks) × (visit_dependencies by_id go (dependencies_of by_id id) ((id, 1) ∷ m)
          ≡ some r)
  unfolding dependencies_of visit_dependencies
  begun-Returns fuel go l g id m e h = elim (Option-cases (find_manifest id by_id)) [
    | inl f ↦ (ok ((id, 1) ∷ m), ground (arith, f))
    | inr (p, f) ↦
        visit_dependencies-Returns fuel go l g _ ((id, 1) ∷ m)
          (omega (arith, h, left_over_begin by_id m id p e f))
  ]

  leave-some :
      (id : Text) (o : Option (Try Marks)) (r : Try Marks)
      → o ≡ some r
      → (x : Try Marks) × (leave by_id id o ≡ some x)
  unfolding leave
  leave-some id o (ok m) h = (ok ((id, 2) ∷ m), rw h refl)
  leave-some id o (err e) h = (err e, rw h refl)
  leave-some id o panic h = (panic, rw h refl)

  visit-Returns : (fuel : ℕ) → Returns fuel (visit by_id fuel)
  unfolding visit
  visit-Returns zero id m h = elim h [ ]
  visit-Returns (suc fuel) id m h = elim (Bool-cases (mark m id == 1)) [
    | inl e ↦ (err (failure "dependency_cycle"), ground (arith, e))
    | inr e ↦ elim (Bool-cases (mark m id == 2)) [
      | inl f ↦ (ok m, ground (arith, e, f))
      | inr f ↦
          let (r, q) =
            begun-Returns fuel (visit by_id fuel) (visit-Lawful by_id fuel) (visit-Returns fuel) id
              m (ground (arith, e, f)) h in
          let (x, p) = leave-some id _ r q in (x, ground (arith, e, f, p))
    ]
  ]

  visit_all-Returns :
      (fuel : ℕ) (ps : List PolicyManifest) (m : Marks)
      → left_over by_id m < fuel
      → (r : Try Marks) × (visit_all by_id fuel ps m ≡ some r)
  unfolding visit_all
  visit_all-Returns fuel [] m h = (ok m, refl)
  visit_all-Returns fuel (p ∷ ps) m h = elim (Option-cases (visit by_id fuel p.id m)) [
    | inl f ↦ absurd (cc ((visit-Returns fuel p.id m h).1, f))
    | inr (err x, f) ↦ (err x, ground (arith, f))
    | inr (panic, f) ↦ (panic, ground (arith, f))
    | inr (ok n, f) ↦
        let k = (visit-Lawful by_id fuel p.id m n f).0.0 in
        let (r, q) = visit_all-Returns fuel ps n (omega (arith, h, left_over-Keeps by_id m n k)) in
        (r, ground (arith, f, q))
  ]

left_over_bound : (ps : List PolicyManifest) (m : Marks) → left_over ps m ≤ length ps
left_over_bound [] m = omega arith
left_over_bound (p ∷ ps) m = ground (arith, left_over_bound ps m)

-- The check of the dependencies ends for all manifests, and whatever the order in which the map is
-- ranged over: the fuel, one more than the number of manifests, is enough.
pub validate_dependencies_total :
    (order : List PolicyManifest → List PolicyManifest) (ms : List PolicyManifest)
    → (r : Try Marks) × (validate_dependencies order ms ≡ some r)
unfolding validate_dependencies
validate_dependencies_total order ms = elim (Try-cases (register ms no_manifests)) [
  | inl (t, e) ↦
      let (r, f) =
        visit_all-Returns t.by_id (suc (length t.by_id)) (order t.by_id) []
          (omega (arith, left_over_bound t.by_id [])) in
      (r, rw e f)
  | inr (inl (x, e)) ↦ (err x, rw e refl)
  | inr (inr e) ↦ (panic, rw e refl)
]
