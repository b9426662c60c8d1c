-- ===== src/Policy/Composition/Order.antt =====
-- Proofs on internal/policy/composition.go: the order of the contributions.
use mathlib.Core.List.{Perm}
use normgate.Prelude.{
  ◌≡◌, refl, ap, ◌⊎◌, true, List, [], ◌∷◌, arith, All, elements, Slice, none, some,
}
use normgate.Text.{Text, text_eq}
use normgate.Text.Order.{text_leb_total, text_leb_trans, text_leb_antisymm}
use normgate.Sort.{sort-perm}
use normgate.Json.{str, marshal, Fields}
use normgate.Json.Struct.{
  items_of, struct_unique, slice_value, slice_value-injective, str-injective,
}
use normgate.Json.Unique.{IsWellFormed, AreWellFormed, marshal-injective}
use normgate.Contracts.{Obligation, Schemas, obligation_value}
use normgate.Contracts.Encoding.{
  IsEncodable, obligation_value-injective, obligation_value-IsWellFormed, struct-HasWellFormed,
  texts-AreWellFormed,
}
use normgate.Policy.{Contribution, contribution_keys, contribution_fields, contribution_value}
use normgate.Policy.Composition.{contribution_leb, compose, compose_sorted}

-- The numbers in the extensions of the obligations are numerals.
abbrev pub AreEncodable : List Obligation → Type 0
AreEncodable = All IsEncodable

abbrev pub ContributionIsEncodable : Contribution → Type 0
ContributionIsEncodable p = AreEncodable (elements p.obligations)

contribution_fields-injective :
    (a b : Contribution) → contribution_fields a ≡ contribution_fields b → a ≡ b
contribution_fields-injective a b e = ground (
  arith,
  slice_value-injective str str-injective a.reason_codes b.reason_codes,
  slice_value-injective obligation_value obligation_value-injective a.obligations b.obligations,
)

contribution_value-injective :
    (a b : Contribution) → contribution_value a ≡ contribution_value b → a ≡ b
unfolding contribution_value text_eq
contribution_value-injective a b e = contribution_fields-injective a b (
    struct_unique contribution_keys (contribution_fields a) (contribution_fields b) refl refl refl
      (cc))

obligations-AreWellFormed :
    (os : List Obligation) → AreEncodable os → AreWellFormed (items_of obligation_value os)
obligations-AreWellFormed [] h = tt
obligations-AreWellFormed (o ∷ os) h =
    (obligation_value-IsWellFormed o h.0, obligations-AreWellFormed os h.1)

codes-IsWellFormed : (xs : Slice Text) → IsWellFormed (slice_value str xs)
codes-IsWellFormed none = tt
codes-IsWellFormed (some xs) = texts-AreWellFormed xs

slice-IsWellFormed :
    (xs : Slice Obligation)
    → AreEncodable (elements xs)
    → IsWellFormed (slice_value obligation_value xs)
slice-IsWellFormed none h = tt
slice-IsWellFormed (some xs) h = obligations-AreWellFormed xs h

contribution_value-IsWellFormed :
    (p : Contribution) → ContributionIsEncodable p → IsWellFormed (contribution_value p)
unfolding contribution_value
contribution_value-IsWellFormed p h =
    struct-HasWellFormed contribution_keys (contribution_fields p) (
      tt,
      (tt, (tt, (codes-IsWellFormed p.reason_codes, (slice-IsWellFormed p.obligations h, tt)))),
    )

leb_antisymm :
    (a b : Contribution)
    → ContributionIsEncodable a
    → ContributionIsEncodable b
    → contribution_leb a b ≡ true
    → contribution_leb b a ≡ true
    → a ≡ b
unfolding contribution_leb
leb_antisymm a b h k p q = contribution_value-injective a b (
    marshal-injective (contribution_value a) (contribution_value b)
      (contribution_value-IsWellFormed a h) (contribution_value-IsWellFormed b k)
      (text_leb_antisymm _ _ p q))

leb_total : (a b : Contribution) → (contribution_leb a b ≡ true) ⊎ (contribution_leb b a ≡ true)
unfolding contribution_leb
leb_total a b = text_leb_total (marshal (contribution_value a)) (marshal (contribution_value b))

leb_trans :
    (a b c : Contribution)
    → contribution_leb a b ≡ true
    → contribution_leb b c ≡ true
    → contribution_leb a c ≡ true
unfolding contribution_leb
leb_trans a b c p q =
    text_leb_trans (marshal (contribution_value a)) (marshal (contribution_value b))
      (marshal (contribution_value c)) p q

Fields-set : IsSet Fields
Fields-set = hlevel

Obligation-set : IsSet Obligation
Obligation-set = hlevel (Fields-set)

Contribution-set : IsSet Contribution
Contribution-set = hlevel (Obligation-set)

-- The result of `Compose` is the same for the same contributions in any order, where the numbers in
-- their extensions are numerals.
pub compose-perm :
    (schemas : Schemas) (xs ys : List Contribution)
    → All ContributionIsEncodable xs
    → Perm xs ys
    → compose schemas xs ≡ compose schemas ys
unfolding compose
compose-perm schemas xs ys h p = ap (compose_sorted schemas) (
    sort-perm contribution_leb ContributionIsEncodable leb_total leb_trans leb_antisymm
      Contribution-set xs ys h p)
