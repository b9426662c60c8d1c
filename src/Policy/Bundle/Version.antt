-- ===== src/Policy/Bundle/Version.antt =====
-- version and compatible of internal/policy/bundle.go.
use normgate.Prelude.{
  ◌≡◌, ◌⊎◌, inl, inr, refl, sym, subst, ◌∙◌, ℕ, ◌<◌, ℤ, pos, negsuc, Bool, true, false, Option,
  some, List, [], ◌∷◌, arith, ltb, ◌==◌, if◌then◌else◌, Option-cases, not,
}
use normgate.Text.{Text, codes, text_eq, text_eq→eq}
use normgate.Text.Split.{split, join, join-split}
use normgate.Json.Decimal.{decimal, format_int}
use normgate.Json.Decimal.Parse.{atoi, unsigned, digits}
use normgate.Policy.{failure, Try, ok, err, panic, ◌>>=◌, Try-cases}

abbrev pub Version : Type 0
Version = ℕ × ℕ × ℕ

abbrev pub checked : Text → Option ℤ → Try ℕ
checked p (some (pos n)) =
    if text_eq (format_int (pos n)) p then ok n else err (failure "incompatible_version")
checked p _ = err (failure "incompatible_version")

-- One part of a version: the canonical decimal text of an int.
unfoldable pub component : Text → Try ℕ
component p = checked p (atoi p)

unfoldable pub components : List Text → Try Version
components (x ∷ y ∷ z ∷ []) = do a ← component x; b ← component y; c ← component z; ok (a, b, c)
components _ = err (failure "incompatible_version")

-- version
unfoldable pub version : Text → Try Version
version v = components (split b'.' v)

abbrev pub core_version : Text
core_version = codes "0.2.0"

abbrev pub or_zero : Try Version → Version
or_zero (ok v) = v
or_zero _ = (0, 0, 0)

unfoldable pub at_most : Version → Version → Bool
at_most (a0, a1, a2) (b0, b1, b2) =
    if not (a0 == b0)
    then false
    else if not (a1 == b1)
    then ltb a1 b1
    else if not (a2 == b2)
    then ltb a2 b2
    else true

-- compatible
unfoldable pub compatible : Text → Bool
compatible min = elim (version min) [
  | ok a ↦ at_most a (or_zero (version core_version))
  | err e ↦ false
  | panic ↦ false
]

-- The text of a version.
abbrev pub print : Version → Text
print (a, b, c) = join b'.' (decimal a ∷ decimal b ∷ decimal c ∷ [])

component-decimal : (p : Text) (n : ℕ) → component p ≡ ok n → p ≡ decimal n
unfolding component format_int
component-decimal p n h = elim (Option-cases (atoi p)) [
  | inl e ↦ absurd (ground arith)
  | inr (negsuc k, e) ↦ absurd (ground arith)
  | inr (pos k, e) ↦ ground (arith, text_eq→eq (decimal k) p)
]

components-print : (ps : List Text) (v : Version) → components ps ≡ ok v → join b'.' ps ≡ print v
unfolding components
components-print [] v h = cc
components-print (x ∷ []) v h = cc
components-print (x ∷ y ∷ []) v h = cc
components-print (x ∷ y ∷ z ∷ w ∷ ps) v h = cc
components-print (x ∷ y ∷ z ∷ []) v h = elim (Try-cases (component x)) [
  | inr e ↦ absurd (ground arith)
  | inl (a, e) ↦ elim (Try-cases (component y)) [
    | inr f ↦ absurd (ground arith)
    | inl (b, f) ↦ elim (Try-cases (component z)) [
      | inr g ↦ absurd (ground arith)
      | inl (c, g) ↦
          let same : v ≡ (a, b, c) = ground arith in
          subst (λ u. join b'.' (x ∷ y ∷ z ∷ []) ≡ print u) (sym same)
            (cc (component-decimal x a e, component-decimal y b f, component-decimal z c g))
    ]
  ]
]

-- A text is read as a version only if it is the canonical text of the version.
pub version-print : (s : Text) (v : Version) → version s ≡ ok v → s ≡ print v
unfolding version
version-print s v h = sym (join-split b'.' s) ∙ components-print (split b'.' s) v h

core-version : or_zero (version core_version) ≡ (0, 2, 0)
unfolding version split components component atoi unsigned digits format_int text_eq
core-version = refl

at_most_core :
    (a b c : ℕ) → at_most (a, b, c) (0, 2, 0) ≡ true → (a ≡ 0) × ((b < 2) ⊎ ((b ≡ 2) × (c ≡ 0)))
unfolding at_most
at_most_core a b c h = ground arith

-- A bundle is compatible with this core only if its minimal version is the canonical text of a
-- version 0.0.n, 0.1.n or 0.2.0.
pub compatible-print :
    (min : Text)
    → compatible min ≡ true
    → (v : Version) × (min ≡ print v) × (v.0 ≡ 0) × ((v.1 < 2) ⊎ ((v.1 ≡ 2) × (v.2 ≡ 0)))
unfolding compatible
compatible-print min h = elim (Try-cases (version min)) [
  | inr e ↦ absurd (ground arith)
  | inl ((a, b, c), e) ↦
      let bound = at_most_core a b c (
        subst (λ v. at_most (a, b, c) v ≡ true) core-version
          (subst
            (λ r.
              elim r as (λ _. Bool) [
                | ok a ↦ at_most a (or_zero (version core_version))
                | err e ↦ false
                | panic ↦ false
              ]
              ≡ true)
            e h)) in
      ((a, b, c), version-print min (a, b, c) e, bound.0, bound.1)
]
