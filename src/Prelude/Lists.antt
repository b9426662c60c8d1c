-- ===== src/Prelude/Lists.antt =====
-- Lists measured by native numbers and tested by Boolean functions, their elements, and Go slices.
use Prim.Native.Nat.{ℕ, suc, ◌+◌}
use mathlib.Core.Path.{◌≡◌, refl, sym, subst}
use mathlib.Core.Logic.{◌⊎◌, inl, inr}
use mathlib.Core.Bool.{Bool, true, false, ◌&&◌, ◌||◌}
use mathlib.Core.List.{List, [], ◌∷◌, ◌++◌}
use mathlib.Core.Option.{Option, none, some}
use native.Mathlib.Omega.{arith}
use normgate.Prelude.Tests.{if◌then◌else◌, Bool-cases}

module _ {ℓ} {A : Type ℓ} where
  abbrev pub length : List A → ℕ
  length [] = 0
  length (x ∷ xs) = suc (length xs)

  pub length-append : (xs ys : List A) → length (xs ++ ys) ≡ length xs + length ys
  length-append [] ys = omega arith
  length-append (x ∷ xs) ys = omega (arith, length-append xs ys)

  abbrev pub any : (A → Bool) → List A → Bool
  any p [] = false
  any p (x ∷ xs) = p x || any p xs

  abbrev pub all : (A → Bool) → List A → Bool
  all p [] = true
  all p (x ∷ xs) = p x && all p xs

  abbrev pub keep_if : (A → Bool) → List A → List A
  keep_if p [] = []
  keep_if p (x ∷ xs) = if p x then x ∷ keep_if p xs else keep_if p xs

  -- Every element has the property.
  abbrev pub All {κ} : (A → Type κ) → List A → Type κ
  All P [] = Unit
  All P (x ∷ xs) = P x × All P xs

-- The element stands in the list.
abbrev pub Elem : {A : Type 0} → A → List A → Type 0
Elem a [] = ⊥
Elem a (x ∷ xs) = (a ≡ x) ⊎ Elem a xs

pub All-Elem {κ} :
    {A : Type 0} (P : A → Type κ) (xs : List A) → All P xs → (a : A) → Elem a xs → P a
All-Elem P [] h a m = absurd m
All-Elem P (x ∷ xs) h a (inl e) = subst P (sym e) h.0
All-Elem P (x ∷ xs) h a (inr m) = All-Elem P xs h.1 a m

pub All-of_Elem {κ} :
    {A : Type 0} (P : A → Type κ) (xs : List A) → ((a : A) → Elem a xs → P a) → All P xs
All-of_Elem P [] h = tt
All-of_Elem P (x ∷ xs) h = (h x (inl refl), All-of_Elem P xs (λ a m. h a (inr m)))

pub All-imp :
    {A : Type 0} (P Q : A → Type 0) → ((a : A) → P a → Q a) → (xs : List A) → All P xs → All Q xs
All-imp P Q f [] h = tt
All-imp P Q f (x ∷ xs) h = (f x h.0, All-imp P Q f xs h.1)

module _ {A : Type 0} (p : A → Bool) where
  pub any_of_Elem : (xs : List A) (a : A) → Elem a xs → p a ≡ true → any p xs ≡ true
  any_of_Elem [] a m h = absurd m
  any_of_Elem (x ∷ xs) a (inl e) h = ground (arith, e)
  any_of_Elem (x ∷ xs) a (inr m) h = ground (arith, any_of_Elem xs a m h)

  pub Elem-of_any : (xs : List A) → any p xs ≡ true → (a : A) × Elem a xs × (p a ≡ true)
  Elem-of_any [] h = cc
  Elem-of_any (x ∷ xs) h = elim (Bool-cases (p x)) [
    | inl e ↦ (x, inl refl, e)
    | inr e ↦ let (a, m, k) = Elem-of_any xs (ground arith) in (a, inr m, k)
  ]

module _ {A : Type 0} where
  pub Elem-append : (a : A) (xs ys : List A) → Elem a xs ⊎ Elem a ys → Elem a (xs ++ ys)
  Elem-append a [] ys (inl m) = absurd m
  Elem-append a [] ys (inr m) = m
  Elem-append a (x ∷ xs) ys (inl (inl e)) = inl e
  Elem-append a (x ∷ xs) ys (inl (inr m)) = inr (Elem-append a xs ys (inl m))
  Elem-append a (x ∷ xs) ys (inr m) = inr (Elem-append a xs ys (inr m))

  pub Elem-of_append : (a : A) (xs ys : List A) → Elem a (xs ++ ys) → Elem a xs ⊎ Elem a ys
  Elem-of_append a [] ys m = inr m
  Elem-of_append a (x ∷ xs) ys (inl e) = inl (inl e)
  Elem-of_append a (x ∷ xs) ys (inr m) = elim (Elem-of_append a xs ys m) [
    | inl k ↦ inl (inr k)
    | inr k ↦ inr k
  ]

-- A Go slice: nil or some elements. Ranging over nil finds no element.
abbrev pub Slice {ℓ} : Type ℓ → Type ℓ
Slice A = Option (List A)

abbrev pub elements {ℓ} : {A : Type ℓ} → Slice A → List A
elements none = []
elements (some xs) = xs

module _ {A : Type 0} (p : A → Bool) where
  pub All-of_all : (xs : List A) → all p xs ≡ true → All (λ a. p a ≡ true) xs
  All-of_all [] h = tt
  All-of_all (x ∷ xs) h = (ground arith, All-of_all xs (ground arith))

  pub all_of_All : (xs : List A) → All (λ a. p a ≡ true) xs → all p xs ≡ true
  all_of_All [] h = refl
  all_of_All (x ∷ xs) (h, k) = rw h (all_of_All xs k)

pub All-append {κ} :
    {A : Type 0} (P : A → Type κ) (xs ys : List A) → All P xs → All P ys → All P (xs ++ ys)
All-append P [] ys h k = k
All-append P (x ∷ xs) ys (e, h) k = (e, All-append P xs ys h k)
