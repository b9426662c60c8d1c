-- ===== src/Json/Decimal.antt =====
-- strconv.FormatInt(n, 10), and reading its text back.
pub mod Parse
use mathlib.Core.List
use normgate.Json.Unique.{IsNumeral, is_numeral_rune}
use normgate.Prelude.{
  ℤ, pos, negsuc, ◌≢◌, ◌⊎◌, true, ℕ, zero, suc, ◌+◌, ◌-◌, ◌*◌, ◌/◌, ◌%◌, ◌<◌, ◌≡◌, refl, ap, sym,
  ◌∙◌, [], ◌∷◌, arith, ltb, if◌then◌else◌, Bool-cases, inl, inr,
}
use normgate.Text.{Text, codes}

-- The digits of n before those of `out`. The fuel `suc n` is never used up.
decimal_loop : ℕ → ℕ → Text → Text
decimal_loop zero n out = out
decimal_loop (suc f) n out =
    let more = decimal_loop f (n / 10) ((48 + n % 10) ∷ out) in
    if ltb n 10 then (48 + n) ∷ out else more

unfoldable pub decimal : ℕ → Text
unfolding decimal_loop
decimal n = decimal_loop (suc n) n []

value_of : ℕ → Text → ℕ
value_of acc [] = acc
value_of acc (c ∷ s) = value_of (acc * 10 + (c - 48)) s

value_of-decimal_loop :
    (f n : ℕ) (out : Text) → n < f → value_of 0 (decimal_loop f n out) ≡ value_of n out
unfolding decimal_loop value_of
value_of-decimal_loop zero n out h = elim h [ ]
value_of-decimal_loop (suc f) n out h = elim (Bool-cases (ltb n 10)) [
  | inl e ↦ rw e (ap (λ k. value_of k out) (omega arith))
  | inr e ↦ rw e (
      value_of-decimal_loop f (n / 10) ((48 + n % 10) ∷ out) (ground arith)
      ∙ ap (λ k. value_of k out) (omega arith))
]

-- Different numbers have different texts.
pub decimal-injective : (m n : ℕ) → decimal m ≡ decimal n → m ≡ n
unfolding decimal value_of
decimal-injective m n e =
    sym (value_of-decimal_loop (suc m) m [] (omega arith))
    ∙ ap (value_of 0) e
    ∙ value_of-decimal_loop (suc n) n [] (omega arith)

-- strconv.FormatInt(n, 10)
unfoldable pub format_int : ℤ → Text
unfolding decimal
format_int (pos n) = decimal n
format_int (negsuc n) = b'-' ∷ decimal (suc n)

-- A first character that is a digit or the given one.
decimal_loop-no_sign : (f n : ℕ) (out s : Text) → n < f → decimal_loop f n out ≢ b'-' ∷ s
unfolding decimal_loop
decimal_loop-no_sign zero n out s h e = elim h [ ]
decimal_loop-no_sign (suc f) n out s h e =
    ground (arith, decimal_loop-no_sign f (n / 10) ((48 + n % 10) ∷ out) s)

pub format_int-injective : (m n : ℤ) → format_int m ≡ format_int n → m ≡ n
unfolding format_int
format_int-injective (pos m) (pos n) e = ap pos (decimal-injective m n e)
format_int-injective (pos m) (negsuc n) e =
    absurd (decimal_loop-no_sign (suc m) m [] (decimal (suc n)) (omega arith) e)
format_int-injective (negsuc m) (pos n) e =
    absurd (decimal_loop-no_sign (suc n) n [] (decimal (suc m)) (omega arith) (sym e))
format_int-injective (negsuc m) (negsuc n) e =
    ap negsuc (omega (arith, decimal-injective (suc m) (suc n) (ap List.tail e)))

decimal_loop-IsNumeral :
    (f n : ℕ) (out : Text) → n < f → (out ≡ []) ⊎ IsNumeral out → IsNumeral (decimal_loop f n out)
unfolding decimal_loop
decimal_loop-IsNumeral zero n out h k = elim h [ ]
decimal_loop-IsNumeral (suc f) n [] h k = elim (Bool-cases (ltb n 10)) [
  | inl e ↦ rw e (ground arith)
  | inr e ↦
      rw e
        (decimal_loop-IsNumeral f (n / 10) ((48 + n % 10) ∷ []) (ground arith) (inr (ground arith)))
]
decimal_loop-IsNumeral (suc f) n (c ∷ out) h (inl e) = cc
decimal_loop-IsNumeral (suc f) n (c ∷ out) h (inr k) = elim (Bool-cases (ltb n 10)) [
  | inl e ↦ rw e (ground arith, k)
  | inr e ↦ rw e (
      decimal_loop-IsNumeral f (n / 10) ((48 + n % 10) ∷ c ∷ out) (ground arith)
        (inr (ground arith, k)))
]

IsNumeral-cons : (c : ℕ) (s : Text) → is_numeral_rune c ≡ true → IsNumeral s → IsNumeral (c ∷ s)
IsNumeral-cons c [] h k = absurd k
IsNumeral-cons c (d ∷ s) h k = (h, k)

pub format_int-IsNumeral : (n : ℤ) → IsNumeral (format_int n)
unfolding format_int
format_int-IsNumeral (pos n) = decimal_loop-IsNumeral (suc n) n [] (omega arith) (inl refl)
format_int-IsNumeral (negsuc n) =
    IsNumeral-cons b'-' (decimal (suc n)) refl
      (decimal_loop-IsNumeral (suc (suc n)) (suc n) [] (omega arith) (inl refl))

decimal_test : decimal 9007199254740991 ≡ codes "9007199254740991"
unfolding decimal
decimal_test = refl
