-- ===== src/Policy/Bundle/Dependencies/Acyclic.antt =====
-- Proofs on ValidateDependencies: the rank that the marks give to an id.
use normgate.Prelude.{
  ℕ, suc, ◌<◌, ◌≤◌, ◌≡◌, ◌≢◌, sym, ap, ◌∙◌, subst, false, some, List, [], ◌∷◌, arith, Bool-cases,
  Option-cases, inl, inr, if◌then◌else◌, Elem, length, All-Elem, ◌==◌,
}
use normgate.Text.{Text, text_eq, text_eq→eq}
use normgate.Contracts.{PolicyManifest}
use normgate.Policy.{ok, Try-cases}
use normgate.Policy.Bundle.Dependencies.{
  Marks, mark, dependencies_of, resolve, resolve_parts, validate_dependencies, find_manifest,
  register, no_manifests, visit_registered,
}
use normgate.Policy.Bundle.Dependencies.Marks.{Ordered, visit_all-Visits}
use normgate.Policy.Bundle.Dependencies.Register.{find_manifest-some, register-Registers}
use normgate.Text.Split.{split}

-- How many marks there were when an id was left.
unfoldable pub rank : Marks → Text → ℕ
rank [] id = 0
rank ((x, k) ∷ m) id = if text_eq x id then (if k == 2 then suc (length m) else 0) else rank m id

rank_bound : (m : Marks) (id : Text) → rank m id ≤ length m
unfolding rank
rank_bound [] id = omega arith
rank_bound ((x, k) ∷ m) id = ground (arith, rank_bound m id)

apart : (m : Marks) (x y : Text) → mark m x ≢ 2 → mark m y ≡ 2 → text_eq x y ≡ false
apart m x y n h = elim (Bool-cases (text_eq x y)) [
  | inl e ↦ absurd (n (ap (mark m) (text_eq→eq x y e) ∙ h))
  | inr e ↦ e
]

module _ (by_id : List PolicyManifest) where
  rank-drops :
      (m : Marks) (id : Text)
      → Ordered by_id m
      → mark m id ≡ 2
      → (d : Text) → Elem d (dependencies_of by_id id)
      → (p : PolicyManifest) × (resolve by_id d ≡ some p)
        × (mark m p.id ≡ 2)
        × (rank m p.id < rank m id)
  unfolding rank mark
  rank-drops [] id o h d i = absurd (ground arith)
  rank-drops ((x, k) ∷ m) id (n, b, o) h d i = elim (Bool-cases (text_eq x id)) [
    | inl e ↦
        let two : k ≡ 2 = ground arith in
        let same = sym (ap (dependencies_of by_id) (text_eq→eq x id e)) in
        let (p, r, u) = All-Elem _ (dependencies_of by_id x) (b two) d (subst (Elem d) same i) in
        (
          p,
          r,
          ground (arith, apart m x p.id n u),
          ground (arith, apart m x p.id n u, rank_bound m p.id),
        )
    | inr e ↦
        let (p, r, u, l) = rank-drops m id o (ground arith) d i in
        (p, r, ground (arith, apart m x p.id n u), ground (arith, apart m x p.id n u))
  ]

resolve_parts-some :
    (by_id : List PolicyManifest) (parts : List Text) (q : PolicyManifest)
    → resolve_parts by_id parts ≡ some q
    → (parts ≡ q.id ∷ q.version ∷ []) × Elem q by_id
unfolding resolve_parts
resolve_parts-some by_id [] q h = absurd (ground arith)
resolve_parts-some by_id (x ∷ []) q h = absurd (ground arith)
resolve_parts-some by_id (x ∷ y ∷ z ∷ ps) q h = absurd (ground arith)
resolve_parts-some by_id (x ∷ y ∷ []) q h = elim (Option-cases (find_manifest x by_id)) [
  | inl e ↦ absurd (ground arith)
  | inr (p, e) ↦ elim (Bool-cases (text_eq p.version y)) [
    | inr f ↦ absurd (ground arith)
    | inl f ↦
        let same : p ≡ q = ground arith in
        let (a, b) = find_manifest-some x by_id p e in
        (
          subst (λ (z : PolicyManifest). x ∷ y ∷ [] ≡ z.id ∷ z.version ∷ []) same
              (cc (a, text_eq→eq p.version y f)),
          subst (λ z. Elem z by_id) same b,
        )
  ]
]

dependencies_of-found :
    (by_id : List PolicyManifest) (p : PolicyManifest)
    → find_manifest p.id by_id ≡ some p
    → dependencies_of by_id p.id ≡ p.dependencies
unfolding dependencies_of
dependencies_of-found by_id p h = ground arith

module _ (order : List PolicyManifest → List PolicyManifest)
    (meets : (xs : List PolicyManifest) (p : PolicyManifest) → Elem p xs → Elem p (order xs)) where
  -- Where the manifests pass, every dependency of each of them names another by its id and exact
  -- version, and ranks lower, so that no chain of dependencies is a cycle. The range over the map
  -- meets every entry of it, in any order.
  pub validate_dependencies-rank :
      (ms : List PolicyManifest) (marks : Marks)
      → validate_dependencies order ms ≡ some (ok marks)
      → (p : PolicyManifest) → Elem p ms
      → (d : Text) → Elem d p.dependencies
      → (q : PolicyManifest) × Elem q ms
        × (split b'@' d ≡ q.id ∷ q.version ∷ [])
        × (rank marks q.id < rank marks p.id)
  unfolding validate_dependencies resolve
  validate_dependencies-rank ms marks h p i d j = elim (Try-cases (register ms no_manifests)) [
    | inr e ↦ absurd (ground arith)
    | inl (r, e) ↦
        let t = register-Registers ms no_manifests r e in
        let (v, a) =
          visit_all-Visits r.by_id (suc (length r.by_id)) (order r.by_id) [] marks
            (sym (ap (visit_registered order) e) ∙ h) in
        let found = t.finds p i in
        let member = (find_manifest-some p.id r.by_id p found).1 in
        let (q, f, u, l) =
          rank-drops r.by_id marks p.id (v.1 tt) (a p (meets r.by_id p member)) d
            (subst (Elem d) (sym (dependencies_of-found r.by_id p found)) j) in
        let (b, c) = resolve_parts-some r.by_id (split b'@' d) q f in
        (q, elim (t.origin q c) [ inl k ↦ k | inr k ↦ absurd k ], b, l)
  ]
