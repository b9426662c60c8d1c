-- ===== src/Text.antt =====
-- Go strings and the functions of package `strings` that the program calls. A text is the list of
-- the code points of a valid UTF-8 string; the byte order of Go is the code point order.
pub mod Order
pub mod Split
pub mod Utf8
use Prim.Native.Char.{code}
use Prim.Native.String
use normgate.Prelude.{
  ℕ, suc, ◌+◌, ◌≡◌, refl, ap, subst, ◌↔◌, String, Bool, true, false, ◌&&◌, ◌||◌, not, List, [], ◌∷◌,
  ◌++◌, arith, ltb, leb, ◌==◌, if◌then◌else◌, any, inl, inr, Bool-cases,
}

abbrev pub Text : Type 0
Text = List ℕ

-- A literal.
abbrev pub codes : String → Text
codes String.[] = []
codes (String.◌∷◌ c s) = code c ∷ codes s

-- a == b
unfoldable pub text_eq : Text → Text → Bool
text_eq [] [] = true
text_eq [] (y ∷ ys) = false
text_eq (x ∷ xs) [] = false
text_eq (x ∷ xs) (y ∷ ys) = x == y && text_eq xs ys

pub text_eq→eq : (a b : Text) → text_eq a b ≡ true → a ≡ b
unfolding text_eq
text_eq→eq [] [] h = refl
text_eq→eq [] (y ∷ ys) h = ground arith
text_eq→eq (x ∷ xs) [] h = ground arith
text_eq→eq (x ∷ xs) (y ∷ ys) h = ground (arith, text_eq→eq xs ys)

pub text_eq_refl : (a : Text) → text_eq a a ≡ true
unfolding text_eq
text_eq_refl [] = refl
text_eq_refl (x ∷ xs) = ground (arith, text_eq_refl xs)

pub text_eq_swap : (a b : Text) → text_eq a b ≡ false → text_eq b a ≡ false
text_eq_swap a b h = elim (Bool-cases (text_eq b a)) [
  | inl e ↦ cc (h, text_eq_refl a, ap (text_eq a) (text_eq→eq b a e))
  | inr e ↦ e
]

pub text_eq_iff : (a b : Text) → (text_eq a b ≡ true) ↔ (a ≡ b)
text_eq_iff a b = (text_eq→eq a b, λ e. subst (λ c. text_eq a c ≡ true) e (text_eq_refl a))

-- strings.HasPrefix(s, p)
unfoldable pub has_prefix : Text → Text → Bool
has_prefix s [] = true
has_prefix [] (c ∷ p) = false
has_prefix (x ∷ s) (c ∷ p) = x == c && has_prefix s p

-- strings.HasSuffix(s, p)
unfoldable pub has_suffix : Text → Text → Bool
unfolding text_eq
has_suffix [] p = text_eq [] p
has_suffix (x ∷ s) p = text_eq (x ∷ s) p || has_suffix s p

-- strings.Compare(a, b) <= 0
unfoldable pub text_leb : Text → Text → Bool
text_leb [] b = true
text_leb (x ∷ a) [] = false
text_leb (x ∷ a) (y ∷ b) = if ltb x y then true else if ltb y x then false else text_leb a b

-- slices.Contains(xs, s)
unfoldable pub contains : List Text → Text → Bool
unfolding text_eq
contains xs s = any (text_eq s) xs

-- strings.TrimPrefix(s, p)
drop_prefix : Text → Text → Text
drop_prefix s [] = s
drop_prefix [] (c ∷ p) = []
drop_prefix (x ∷ s) (c ∷ p) = drop_prefix s p

unfoldable pub trim_prefix : Text → Text → Text
unfolding has_prefix drop_prefix
trim_prefix s p = if has_prefix s p then drop_prefix s p else s

drop_prefix-append : (s p : Text) → has_prefix s p ≡ true → s ≡ p ++ drop_prefix s p
unfolding has_prefix drop_prefix
drop_prefix-append s [] h = refl
drop_prefix-append [] (c ∷ p) h = cc
drop_prefix-append (x ∷ s) (c ∷ p) h = ground (arith, drop_prefix-append s p)

-- A text that begins with a prefix is the prefix and what trimming leaves.
pub trim_prefix-append : (s p : Text) → has_prefix s p ≡ true → s ≡ p ++ trim_prefix s p
unfolding trim_prefix
trim_prefix-append s p h = rw h (drop_prefix-append s p h)
