-- ===== src/Policy/Bundle/Dependencies/Apart.antt =====
-- Proofs on ValidateDependencies: versions and namespaces.
use normgate.Prelude.{
  ◌≡◌, subst, sym, true, false, List, [], ◌∷◌, arith, All, Elem, Bool-cases, inl, inr, any,
  any_of_Elem, All-imp, some,
}
use normgate.Text.{Text}
use normgate.Contracts.{PolicyManifest}
use normgate.Policy.{ok, Try-cases}
use normgate.Policy.Bundle.Version.{compatible}
use normgate.Policy.Bundle.Dependencies.{
  Marks, Registry, no_manifests, nested, own, register, validate_dependencies,
}
use normgate.Policy.Bundle.Dependencies.Register.{register-cons}
use normgate.Policy.Composition.Conflicts.{Pairs}

-- No namespace of the second list is, or nests with, one of the first.
abbrev pub AreApart : List Text → List Text → Type 0
AreApart xs ys = (x y : Text) → Elem x xs → Elem y ys → nested y x ≡ false

not_nested :
    (n : Text) (owners : List Text)
    → any (nested n) owners ≡ false
    → (x : Text) → Elem x owners
    → nested n x ≡ false
not_nested n owners h x i = elim (Bool-cases (nested n x)) [
  | inl e ↦ cc (h, any_of_Elem (nested n) owners x i e)
  | inr e ↦ e
]

own-AreApart :
    (ns owners owners' : List Text)
    → own ns owners ≡ ok owners'
    → AreApart owners ns
      × ((x : Text) → Elem x owners → Elem x owners')
      × ((x : Text) → Elem x ns → Elem x owners')
unfolding own
own-AreApart [] owners owners' h =
    let same : owners ≡ owners' = ground arith in
    (λ x y i j. absurd j, λ x i. subst (Elem x) same i, λ x i. absurd i)
own-AreApart (n ∷ ns) owners owners' h = elim (Bool-cases (any (nested n) owners)) [
  | inl e ↦ absurd (ground arith)
  | inr e ↦
      let (a, k, m) = own-AreApart ns (n ∷ owners) owners' (ground arith) in
      (
        λ x y i j. elim j [
          | inl q ↦ subst (λ z. nested z x ≡ false) (sym q) (not_nested n owners e x i)
          | inr l ↦ a x y (inr i) l
        ],
        λ x i. k x (inr i),
        λ x i. elim i [ inl q ↦ k x (inl q) | inr l ↦ m x l ],
      )
]

register-AreApart :
    (ms : List PolicyManifest) (r r' : Registry)
    → register ms r ≡ ok r'
    → All (λ p. (compatible p.minimum_core_version ≡ true) × AreApart r.owners p.namespaces) ms
      × Pairs (λ p q. AreApart p.namespaces q.namespaces) ms
register-AreApart [] r r' h = (tt, tt)
register-AreApart (m ∷ ms) r r' h =
    let (c, e, (o, f, g)) = register-cons m ms r r' h in
    let (a, k, l) = own-AreApart m.namespaces r.owners o f in
    let (b, d) = register-AreApart ms (record { by_id = m ∷ r.by_id; owners = o }) r' g in
    (
      ((c, a), All-imp _ _ (λ p h. (h.0, λ x y i j. h.1 x y (k x i) j)) ms b),
      (All-imp _ _ (λ p h x y i j. h.1 x y (l x i) j) ms b, d),
    )

-- Where the manifests pass, each is compatible with this core, and no namespace of one is, or
-- nests with, a namespace of another.
pub validate_dependencies-AreApart :
    (order : List PolicyManifest → List PolicyManifest) (ms : List PolicyManifest) (marks : Marks)
    → validate_dependencies order ms ≡ some (ok marks)
    → All (λ p. compatible p.minimum_core_version ≡ true) ms
      × Pairs (λ p q. AreApart p.namespaces q.namespaces) ms
unfolding validate_dependencies
validate_dependencies-AreApart order ms marks h = elim (Try-cases (register ms no_manifests)) [
  | inr e ↦ absurd (ground arith)
  | inl (r, e) ↦
      let (a, b) = register-AreApart ms no_manifests r e in (All-imp _ _ (λ p h. h.0) ms a, b)
]
