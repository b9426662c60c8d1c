-- ===== src/Json/Decimal/Parse.antt =====
-- strconv.Atoi, where an int has 64 bits: ParseInt to the base 10. It reads back what FormatInt
-- writes.
use normgate.Prelude.{
  ap, sym, ◌&&◌, subst, if◌then◌else◌, ◌∙◌, refl, [], pos, none, Option, Bool-cases, some, ℤ, ℕ,
  zero, suc, ◌+◌, ◌-◌, ◌*◌, ◌/◌, ◌%◌, ◌^◌, ◌<◌, ◌≤◌, ◌≡◌, arith, ltb, leb, ◌==◌,
}
use normgate.Text.{Text}
use normgate.Json.Decimal.{inr, negsuc, inl, pos, ◌∷◌, decimal, decimal_loop, format_int}

-- The value of decimal digits after those of a number.
unfoldable pub digits : Text → ℕ → Option ℕ
digits [] n = some n
digits (c ∷ s) n =
    let rest = digits s (n * 10 + (c - 48)) in if leb 48 c && leb c 57 then rest else none

unfoldable pub unsigned : Text → Option ℕ
unsigned [] = none
unsigned (c ∷ s) = digits (c ∷ s) 0

abbrev pub positive : Option ℕ → Option ℤ
positive none = none
positive (some n) = if ltb n (2 ^ 63) then some (pos n) else none

abbrev pub negative : Option ℕ → Option ℤ
negative none = none
negative (some zero) = some (pos zero)
negative (some (suc n)) = if ltb n (2 ^ 63) then some (negsuc n) else none

-- strconv.Atoi(s), where an int has 64 bits
unfoldable pub atoi : Text → Option ℤ
unfolding unsigned
atoi [] = none
atoi (c ∷ s) =
    if c == 45
    then negative (unsigned s)
    else if c == 43
    then positive (unsigned s)
    else positive (unsigned (c ∷ s))

abbrev pub IsInt64 : ℤ → Type 0
IsInt64 (pos n) = n < 2 ^ 63
IsInt64 (negsuc n) = n < 2 ^ 63

-- The texts that FormatInt writes begin with a digit.
decimal_loop-cons :
    (f n : ℕ) (out : Text)
    → n < f
    → (c : ℕ) × (s : Text) × (decimal_loop f n out ≡ c ∷ s) × (48 ≤ c) × (c ≤ 57)
unfolding decimal_loop
decimal_loop-cons zero n out h = elim h [ ]
decimal_loop-cons (suc f) n out h = elim (Bool-cases (ltb n 10)) [
  | inl e ↦ (48 + n, out, rw e refl, omega arith, ground arith)
  | inr e ↦
      let (c, s, k, l, u) = decimal_loop-cons f (n / 10) ((48 + n % 10) ∷ out) (ground arith) in
      (c, s, rw e k, l, u)
]

digits-decimal_loop :
    (f n : ℕ) (out : Text) → n < f → digits (decimal_loop f n out) 0 ≡ digits out n
unfolding decimal_loop digits
digits-decimal_loop zero n out h = elim h [ ]
digits-decimal_loop (suc f) n out h = elim (Bool-cases (ltb n 10)) [
  | inl e ↦ rw e (ground arith)
  | inr e ↦
      rw e (digits-decimal_loop f (n / 10) ((48 + n % 10) ∷ out) (ground arith) ∙ ground arith)
]

unsigned-decimal : (n : ℕ) → unsigned (decimal n) ≡ some n
unfolding unsigned decimal
unsigned-decimal n =
    let (c, s, k, l, u) = decimal_loop-cons (suc n) n [] (omega arith) in
    let read : digits (decimal_loop (suc n) n []) 0 ≡ some n =
      digits-decimal_loop (suc n) n [] (omega arith) ∙ unfold digits in refl in
    rw k (rw k at read)

atoi-digit : (c : ℕ) (s : Text) → 48 ≤ c → atoi (c ∷ s) ≡ positive (unsigned (c ∷ s))
unfolding atoi
atoi-digit c s h = ground arith

positive-int64 : (n : ℕ) → n < 2 ^ 63 → positive (some n) ≡ some (pos n)
positive-int64 n h = ground arith

-- Reading the text of an int of 64 bits gives the int.
pub atoi-format_int : (n : ℤ) → IsInt64 n → atoi (format_int n) ≡ some n
unfolding atoi format_int
atoi-format_int (pos n) h =
    let (c, s, k, l, u) = decimal_loop-cons (suc n) n [] (omega arith) in
    let first : decimal n ≡ c ∷ s = unfold decimal in k in
    subst (λ t. atoi t ≡ some (pos n)) (sym first)
      (atoi-digit c s l
        ∙ ap positive (ap unsigned (sym first) ∙ unsigned-decimal n)
        ∙ positive-int64 n h)
atoi-format_int (negsuc n) h = ap negative (unsigned-decimal (suc n)) ∙ ground arith
