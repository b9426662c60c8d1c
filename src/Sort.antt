-- ===== src/Sort.antt =====
-- slices.Sort and slices.SortFunc, as insertion sort.
use mathlib.Core.List.{Perm, Permᴰ}
use mathlib.Core.List
use mathlib.Core.Logic.{∥∥₁_elim}
use normgate.Prelude.{
  any, ◌||◌, ◌≡◌, refl, ◌∙◌, ◌⊎◌, inl, inr, Bool, true, List, [], ◌∷◌, arith, Bool-cases,
  if◌then◌else◌, All, subst, Elem, All, subst,
}

module _ {A : Type 0} (le : A → A → Bool) where
  unfoldable pub insert : A → List A → List A
  insert a [] = a ∷ []
  insert a (x ∷ xs) = if le a x then a ∷ x ∷ xs else x ∷ insert a xs

  unfoldable pub sort : List A → List A
  unfolding insert
  sort [] = []
  sort (x ∷ xs) = insert x (sort xs)

  -- Neighbours are in order.
  abbrev pub Above : A → List A → Type 0
  Above a [] = Unit
  Above a (x ∷ xs) = le a x ≡ true

  abbrev pub IsSorted : List A → Type 0
  IsSorted [] = Unit
  IsSorted (x ∷ xs) = Above x xs × IsSorted xs

  pub Elem-insert : (b a : A) (xs : List A) → Elem b (insert a xs) → (b ≡ a) ⊎ Elem b xs
  unfolding insert
  Elem-insert b a [] m = m
  Elem-insert b a (x ∷ xs) m = ground (arith, Elem-insert b a xs)

  pub Elem-insert_of : (b a : A) (xs : List A) → (b ≡ a) ⊎ Elem b xs → Elem b (insert a xs)
  unfolding insert
  Elem-insert_of b a [] m = m
  Elem-insert_of b a (x ∷ xs) m = ground (arith, Elem-insert_of b a xs)

  pub Elem-sort : (b : A) (xs : List A) → Elem b (sort xs) → Elem b xs
  unfolding sort
  Elem-sort b [] m = m
  Elem-sort b (x ∷ xs) m = ground (arith, Elem-insert b x (sort xs), Elem-sort b xs)

  pub Elem-sort_of : (b : A) (xs : List A) → Elem b xs → Elem b (sort xs)
  unfolding sort
  Elem-sort_of b [] m = m
  Elem-sort_of b (x ∷ xs) m = ground (arith, Elem-insert_of b x (sort xs), Elem-sort_of b xs)

module _ {A : Type 0} (le : A → A → Bool) (p : A → Bool) where
  any-insert : (a : A) (xs : List A) → any p (insert le a xs) ≡ (p a || any p xs)
  unfolding insert
  any-insert a [] = refl
  any-insert a (x ∷ xs) = ground (arith, any-insert a xs)

  pub any-sort : (xs : List A) → any p (sort le xs) ≡ any p xs
  unfolding sort
  any-sort [] = refl
  any-sort (x ∷ xs) = ground (arith, any-insert x (sort le xs), any-sort xs)

module _ {A : Type 0} (le : A → A → Bool)
    (total : (a b : A) → (le a b ≡ true) ⊎ (le b a ≡ true)) where
  Above-insert :
      (a b : A) (xs : List A) → le a b ≡ true → Above le a xs → Above le a (insert le b xs)
  unfolding insert
  Above-insert a b [] h k = h
  Above-insert a b (x ∷ xs) h k = ground arith

  insert-IsSorted : (a : A) (xs : List A) → IsSorted le xs → IsSorted le (insert le a xs)
  unfolding insert
  insert-IsSorted a [] h = (tt, tt)
  insert-IsSorted a (x ∷ xs) h = elim (Bool-cases (le a x)) [
    | inl e ↦ rw e (e, h)
    | inr e ↦ rw e (Above-insert x a xs (ground (arith, total a x)) h.0, insert-IsSorted a xs h.1)
  ]

  pub sort-IsSorted : (xs : List A) → IsSorted le (sort le xs)
  unfolding sort
  sort-IsSorted [] = tt
  sort-IsSorted (x ∷ xs) = insert-IsSorted x (sort le xs) (sort-IsSorted xs)

-- The predicate singles out the elements on which the order is antisymmetric.
module _ {A : Type 0} (P : A → Type 0) where
  All-Permᴰ : {xs ys : List A} → Permᴰ xs ys → All P xs → All P ys
  All-Permᴰ Permᴰ.nil h = tt
  All-Permᴰ (Permᴰ.cons e p) h = (subst P e h.0, All-Permᴰ p h.1)
  All-Permᴰ (Permᴰ.swap e f) h = (subst P f h.1.0, (subst P e h.0, h.1.1))
  All-Permᴰ (Permᴰ.trans p q) h = All-Permᴰ q (All-Permᴰ p h)

module _ {A : Type 0} (le : A → A → Bool) (P : A → Type 0)
    (total : (a b : A) → (le a b ≡ true) ⊎ (le b a ≡ true))
    (trans : (a b c : A) → le a b ≡ true → le b c ≡ true → le a c ≡ true)
    (antisymm : (a b : A) → P a → P b → le a b ≡ true → le b a ≡ true → a ≡ b) where
  insert_comm :
      (a b : A) (xs : List A)
      → P a
      → P b
      → insert le a (insert le b xs) ≡ insert le b (insert le a xs)
  unfolding insert
  insert_comm a b [] p q = ground (arith, total a b, antisymm a b p q)
  insert_comm a b (x ∷ xs) p q = ground (
    arith,
    insert_comm a b xs p q,
    total a b,
    antisymm a b p q,
    trans a b x,
    trans b a x,
    total a x,
    total b x,
  )

  sort-Permᴰ : {xs ys : List A} → Permᴰ xs ys → All P xs → sort le xs ≡ sort le ys
  unfolding sort
  sort-Permᴰ Permᴰ.nil h = refl
  sort-Permᴰ (Permᴰ.cons e p) h = rw (e, sort-Permᴰ p h.1)
  sort-Permᴰ (Permᴰ.swap {a' = a'} {b' = b'} {l = l} e f) h =
      rw (e, f) (insert_comm b' a' (sort le l) (subst P e h.0) (subst P f h.1.0))
  sort-Permᴰ (Permᴰ.trans p q) h = sort-Permᴰ p h ∙ sort-Permᴰ q (All-Permᴰ P p h)

  -- The sorted list does not depend on the order of the input.
  pub sort-perm : IsSet A → (xs ys : List A) → All P xs → Perm xs ys → sort le xs ≡ sort le ys
  sort-perm s xs ys h p = ∥∥₁_elim p (List.is_set s _ _) (λ q. sort-Permᴰ q h)
