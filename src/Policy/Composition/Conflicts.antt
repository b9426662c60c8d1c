-- ===== src/Policy/Composition/Conflicts.antt =====
-- The conflict tests of internal/policy/composition.go.
use mathlib.Core.Path.{fun_ext, ap₂}
use normgate.Contracts.{texts_value}
use normgate.Json.{marshal}
use normgate.Prelude.{
  ◌≡◌, ◌≢◌, refl, sym, ap, inl, inr, ◌∙◌, Bool, true, false, ◌||◌, ◌&&◌, not, Option, none, some,
  List, [], ◌∷◌, arith, All, Elem, any,
}
use normgate.Text.{Text, text_eq, text_eq→eq, text_eq_iff}
use normgate.Contracts.{Obligation, names_destination}
use normgate.Policy.Composition.{
  conflict, by_paths, differ, conflicts_with, any_conflict, same_paths, overlaps, exclusive,
  paths_conflict,
}

-- Every element is related to each one after it.
abbrev pub Pairs : {A : Type 0} → (A → A → Type 0) → List A → Type 0
Pairs R [] = Unit
Pairs R (x ∷ xs) = All (R x) xs × Pairs R xs

abbrev pub Agree : Obligation → Obligation → Type 0
Agree a b = conflict a b ≡ some false

conflicts_with-All :
    (a : Obligation) (os : List Obligation) → conflicts_with a os ≡ some false → All (Agree a) os
unfolding conflicts_with
conflicts_with-All a [] e = tt
conflicts_with-All a (b ∷ os) e = ground (arith, conflicts_with-All a os)

pub any_conflict-Pairs : (os : List Obligation) → any_conflict os ≡ some false → Pairs Agree os
unfolding any_conflict
any_conflict-Pairs [] e = tt
any_conflict-Pairs (a ∷ os) e =
    (conflicts_with-All a os (ground arith), any_conflict-Pairs os (ground arith))

conflict-ne-none :
    (a b : Obligation)
    → names_destination a ≡ true
    → names_destination b ≡ true
    → conflict a b ≢ none
unfolding conflict names_destination
conflict-ne-none a b h k e = ground (arith, text_eq→eq b.kind a.kind)

conflicts_with-ne-none :
    (a : Obligation) (os : List Obligation)
    → names_destination a ≡ true
    → ((b : Obligation) → Elem b os → names_destination b ≡ true)
    → conflicts_with a os ≢ none
unfolding conflicts_with
conflicts_with-ne-none a [] h k e = cc
conflicts_with-ne-none a (b ∷ os) h k e = ground (
  arith,
  conflict-ne-none a b h (k b (inl refl)),
  conflicts_with-ne-none a os h (λ x m. k x (inr m)),
)

pub any_conflict-ne-none :
    (os : List Obligation)
    → ((b : Obligation) → Elem b os → names_destination b ≡ true)
    → any_conflict os ≢ none
unfolding any_conflict
any_conflict-ne-none [] k e = cc
any_conflict-ne-none (a ∷ os) k e = ground (
  arith,
  conflicts_with-ne-none a os (k a (inl refl)) (λ x m. k x (inr m)),
  any_conflict-ne-none os (λ x m. k x (inr m)),
)

text_eq_comm : (a b : Text) → text_eq a b ≡ text_eq b a
text_eq_comm a b = ground (arith, text_eq_iff a b, text_eq_iff b a)

any-false : {A : Type 0} (xs : List A) → any (λ x. false) xs ≡ false
any-false [] = refl
any-false (x ∷ xs) = any-false xs

any-or :
    {A : Type 0} (f g : A → Bool) (xs : List A) → any (λ x. f x || g x) xs ≡ (any f xs || any g xs)
any-or f g [] = refl
any-or f g (x ∷ xs) = ground (arith, any-or f g xs)

any_comm :
    {A : Type 0} (f : A → A → Bool) (xs ys : List A)
    → any (λ x. any (f x) ys) xs ≡ any (λ y. any (λ x. f x y) xs) ys
any_comm f [] ys = sym (any-false ys)
any_comm f (x ∷ xs) ys = rw (any_comm f xs ys) (sym (any-or (f x) (λ y. any (λ z. f z y) xs) ys))

overlaps_comm : (a b : Text) → overlaps a b ≡ overlaps b a
unfolding overlaps
overlaps_comm a b = ground (arith, text_eq_comm a b)

exclusive_comm : (a b : Obligation) → exclusive a b ≡ exclusive b a
unfolding exclusive
exclusive_comm a b = ground (arith, text_eq_comm a.kind b.kind, text_eq→eq a.kind b.kind)

same_paths_comm : (xs ys : List Text) → same_paths xs ys ≡ same_paths ys xs
unfolding same_paths
same_paths_comm xs ys = text_eq_comm (marshal (texts_value xs)) (marshal (texts_value ys))

paths_conflict_comm :
    (a b : Obligation) (xs ys : List Text) → paths_conflict a b xs ys ≡ paths_conflict b a ys xs
unfolding paths_conflict
paths_conflict_comm a b xs ys = ground (
  arith,
  text_eq_comm a.kind b.kind,
  same_paths_comm xs ys,
  any_comm (λ x y. overlaps x y && exclusive a b) xs ys
      ∙ ap (λ (f : Text → Text → Bool). any (λ y. any (λ x. f y x) xs) ys)
          (fun_ext λ y. fun_ext λ x. ap₂ ◌&&◌ (overlaps_comm x y) (exclusive_comm a b)),
)

differ_comm : (a b : Option Text) → differ a b ≡ differ b a
unfolding differ
differ_comm none none = refl
differ_comm none (some y) = refl
differ_comm (some x) none = refl
differ_comm (some x) (some y) = ap (λ b. some (not b)) (text_eq_comm x y)

by_paths_comm : (a b : Obligation) (o p : Option (List Text)) → by_paths a b o p ≡ by_paths b a p o
unfolding by_paths
by_paths_comm a b none none = refl
by_paths_comm a b none (some ys) = refl
by_paths_comm a b (some xs) none = refl
by_paths_comm a b (some xs) (some ys) = paths_conflict_comm a b xs ys

-- Whether two obligations conflict, or the test panics, does not depend on their order.
pub conflict_comm : (a b : Obligation) → conflict a b ≡ conflict b a
unfolding conflict
conflict_comm a b = ground (
  arith,
  text_eq_comm a.kind b.kind,
  text_eq→eq a.kind b.kind,
  differ_comm a.destination_id b.destination_id,
  by_paths_comm a b a.paths b.paths,
)
