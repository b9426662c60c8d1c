-- ===== src/Json/Struct.antt =====
-- Go structs as JSON objects: the fields in the order of their declaration, and none for a field
-- that `omitempty` leaves out.
use mathlib.Core.Option
use normgate.Prelude.{
  ◌≡◌, refl, ap, sym, Bool, true, false, ◌&&◌, not, Option, none, some, List, [], ◌∷◌, arith,
  length, all, Slice,
}
use normgate.Text.{Text, text_eq, text_eq_refl}
use normgate.Json.{Value, null, str, arr, Items, nil, cons, Fields, end, field}

unfoldable pub struct : List Text → List (Option Value) → Fields
struct [] vs = end
struct (k ∷ ks) [] = end
struct (k ∷ ks) (none ∷ vs) = struct ks vs
struct (k ∷ ks) (some v ∷ vs) = field k v (struct ks vs)

abbrev pub items_of {ℓ} : {A : Type ℓ} → (A → Value) → List A → Items
items_of f [] = nil
items_of f (x ∷ xs) = cons (f x) (items_of f xs)

-- A nil slice is null, any other an array.
abbrev pub slice_value {ℓ} : {A : Type ℓ} → (A → Value) → Slice A → Value
slice_value f none = null
slice_value f (some xs) = arr (items_of f xs)

-- No field of the object comes first under the name.
abbrev Apart : Text → Fields → Type 0
Apart k end = Unit
Apart k (field j v fs) = text_eq j k ≡ false

abbrev pub distinct : List Text → Bool
distinct [] = true
distinct (k ∷ ks) = all (λ j. not (text_eq j k)) ks && distinct ks

struct-Apart :
    (k : Text) (ks : List Text) (vs : List (Option Value))
    → all (λ j. not (text_eq j k)) ks ≡ true
    → Apart k (struct ks vs)
unfolding struct
struct-Apart k [] vs h = tt
struct-Apart k (j ∷ ks) [] h = tt
struct-Apart k (j ∷ ks) (none ∷ vs) h = struct-Apart k ks vs (ground arith)
struct-Apart k (j ∷ ks) (some v ∷ vs) h = ground arith

not-Apart : (k : Text) (v : Value) (f g : Fields) → Apart k g → field k v f ≡ g → ⊥
not-Apart k v f end h e = ground arith
not-Apart k v f (field j w g) h e = ground (arith, text_eq_refl k)

-- Structs with distinct field names that are written alike have the same fields.
pub struct_unique :
    (ks : List Text) (vs ws : List (Option Value))
    → distinct ks ≡ true
    → length vs ≡ length ks
    → length ws ≡ length ks
    → struct ks vs ≡ struct ks ws
    → vs ≡ ws
unfolding struct
struct_unique [] [] [] d p q e = refl
struct_unique [] [] (w ∷ ws) d p q e = absurd (omega arith)
struct_unique [] (v ∷ vs) ws d p q e = absurd (omega arith)
struct_unique (k ∷ ks) [] ws d p q e = absurd (omega arith)
struct_unique (k ∷ ks) (v ∷ vs) [] d p q e = absurd (omega arith)
struct_unique (k ∷ ks) (none ∷ vs) (none ∷ ws) d p q e =
    ap (λ r. none ∷ r) (struct_unique ks vs ws (ground arith) (omega arith) (omega arith) e)
struct_unique (k ∷ ks) (some v ∷ vs) (none ∷ ws) d p q e =
    absurd (not-Apart k v (struct ks vs) (struct ks ws) (struct-Apart k ks ws (ground arith)) e)
struct_unique (k ∷ ks) (none ∷ vs) (some w ∷ ws) d p q e =
    absurd
      (not-Apart k w (struct ks ws) (struct ks vs) (struct-Apart k ks vs (ground arith)) (sym e))
struct_unique (k ∷ ks) (some v ∷ vs) (some w ∷ ws) d p q e = ground (arith, struct_unique ks vs ws)

-- A list is determined by its JSON array, if its elements are by their values.
module _ {A : Type 0} (f : A → Value) (inj : (a b : A) → f a ≡ f b → a ≡ b) where
  pub items_of-injective : (xs ys : List A) → items_of f xs ≡ items_of f ys → xs ≡ ys
  items_of-injective [] [] e = refl
  items_of-injective [] (y ∷ ys) e = cc
  items_of-injective (x ∷ xs) [] e = cc
  items_of-injective (x ∷ xs) (y ∷ ys) e = ground (arith, inj x y, items_of-injective xs ys)

  pub slice_value-injective : (xs ys : Slice A) → slice_value f xs ≡ slice_value f ys → xs ≡ ys
  slice_value-injective none none e = refl
  slice_value-injective none (some ys) e = cc
  slice_value-injective (some xs) none e = cc
  slice_value-injective (some xs) (some ys) e = ground (arith, items_of-injective xs ys)

  pub option_value-injective : (x y : Option A) → Option.map f x ≡ Option.map f y → x ≡ y
  option_value-injective none none e = refl
  option_value-injective none (some y) e = cc
  option_value-injective (some x) none e = cc
  option_value-injective (some x) (some y) e = ground (arith, inj x y)

pub str-injective : (a b : Text) → str a ≡ str b → a ≡ b
str-injective a b e = cc
