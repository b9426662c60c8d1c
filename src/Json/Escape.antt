-- ===== src/Json/Escape.antt =====
-- Reading back the escapes of json.Marshal and of `quote` (internal/normalization/normalization.go).
use normgate.Prelude.{
  ℕ, ◌+◌, ◌-◌, ◌*◌, ◌/◌, ◌%◌, ◌<◌, ◌≡◌, refl, ap, ◌≢◌, Bool, true, Option, none, some, [], ◌∷◌,
  ◌++◌, arith, ltb, ◌==◌, if◌then◌else◌, Bool-cases, Option-cases, inl, inr,
}
use normgate.Text.{Text}
use normgate.Json.{hex, hex_escape, short_escape, escape_rune, html_unsafe, marshal_rune}

-- An escape can be read back, and does not begin with a quotation mark.
pub record IsEscape (escape : ℕ → Text) : Type 0 where
  pub next : Text → Option (ℕ × Text)
  pub next-escape : (c : ℕ) (s : Text) → next (escape c ++ s) ≡ some (c, s)
  pub next_quote : (s : Text) → next (34 ∷ s) ≡ none

-- The escapes of json.Marshal and of `quote` can be read back.
abbrev unhex : ℕ → ℕ
unhex d = if ltb d 58 then d - 48 else d - 87

abbrev read_hex : Text → Option (ℕ × Text)
read_hex (a ∷ b ∷ c ∷ d ∷ s) = some (((unhex a * 16 + unhex b) * 16 + unhex c) * 16 + unhex d, s)
read_hex _ = none

abbrev read_escape : Text → Option (ℕ × Text)
read_escape [] = none
read_escape (c ∷ s) =
    if c == 117
    then read_hex s
    else if c == 98
    then some (8, s)
    else if c == 102
    then some (12, s)
    else if c == 110
    then some (10, s)
    else if c == 114
    then some (13, s)
    else if c == 116
    then some (9, s)
    else some (c, s)

abbrev pub read_rune : Text → Option (ℕ × Text)
read_rune [] = none
read_rune (c ∷ s) = if c == 34 then none else if c == 92 then read_escape s else some (c, s)

unhex-hex : (d : ℕ) → d < 16 → unhex (hex d) ≡ d
unhex-hex d h = ground arith

read_hex_escape : (c : ℕ) (s : Text) → c < 65536 → read_rune (hex_escape c ++ s) ≡ some (c, s)
read_hex_escape c s h =
    rw
      (
        unhex-hex (c / 4096) (omega arith),
        unhex-hex (c / 256 % 16) (omega arith),
        unhex-hex (c / 16 % 16) (omega arith),
        unhex-hex (c % 16) (omega arith),
      )
      (ap (λ k. some (k, s)) (omega arith))

read_short : (c d : ℕ) (s : Text) → short_escape c ≡ some d → read_escape (d ∷ s) ≡ some (c, s)
unfolding short_escape
read_short c d s h = ground arith

not_short : (c : ℕ) → short_escape c ≡ none → (c ≢ 34) × (c ≢ 92)
unfolding short_escape
not_short c h = ground arith

read_plain : (c : ℕ) (s : Text) → c ≢ 34 → c ≢ 92 → read_rune (c ∷ s) ≡ some (c, s)
read_plain c s h k = ground arith

-- An escape that goes hexadecimal only below 65536 can be read back.
pub escape_rune-IsEscape :
    (hexed : ℕ → Bool) → ((c : ℕ) → hexed c ≡ true → c < 65536) → IsEscape (escape_rune hexed)
unfolding escape_rune
escape_rune-IsEscape hexed small = record {
  next = read_rune;
  next_quote = λ s. refl;
  next-escape = λ c s. elim (Option-cases (short_escape c)) [
    | inr (d, e) ↦ rw (e, escape_rune) (read_short c d s e)
    | inl e ↦ elim (Bool-cases (hexed c)) [
      | inl x ↦ rw (e, escape_rune) (rw x (read_hex_escape c s (small c x)))
      | inr x ↦ rw (e, escape_rune) (rw x (read_plain c s (not_short c e).0 (not_short c e).1))
    ]
  ];
}

html_unsafe_small : (c : ℕ) → html_unsafe c ≡ true → c < 65536
unfolding html_unsafe
html_unsafe_small c h = ground arith

pub marshal_rune-IsEscape : IsEscape marshal_rune
unfolding marshal_rune
marshal_rune-IsEscape = escape_rune-IsEscape html_unsafe html_unsafe_small
