-- ===== src/Policy/Opa/Syntax/Lexing.antt =====
-- Proofs on boundedSyntax: its variables, and the modes of a lexer.
use normgate.Prelude.{
  ◌≡◌, ◌≢◌, ◌⊎◌, refl, ℕ, ℤ, pos, increment, decrement, int_ltb, Bool, true, false, Option, none,
  some, [], ◌∷◌, ◌==◌, if◌then◌else◌, arith, inl, inr, ◌∙◌, sym, ap,
}
use normgate.Text.Utf8.{Bytes}
use normgate.Policy.Opa.{max_rule_depth}
use normgate.Policy.Opa.Syntax.{
  Scan, opens, closes, scan, scan_byte, scan_code, scan_quote, scan_comment,
}

-- Where a byte of a module stands.
pub data Mode : Type 0 where
  code comment string escape raw_string : Mode

unfoldable pub next_mode : Mode → ℕ → Mode
next_mode code c =
    if c == b'#'
    then comment
    else if c == b'"'
    then string
    else if c == b'`'
    then raw_string
    else code
next_mode comment c = if c == 10 then code else comment
next_mode string c = if c == b'\\' then escape else if c == b'"' then code else string
next_mode escape c = string
next_mode raw_string c = if c == b'`' then code else raw_string

abbrev shown : Mode → ℕ → Bytes → Bytes
shown code c text = c ∷ text
shown _ c text = text

-- The bytes of a module outside its strings and comments.
unfoldable pub code_of : Mode → Bytes → Bytes
unfolding next_mode
code_of m [] = []
code_of code (c ∷ raw) = shown (next_mode code c) c (code_of (next_mode code c) raw)
code_of m (c ∷ raw) = code_of (next_mode m c) raw

-- The variables in a mode.
abbrev scan_in : Mode → ℤ → Scan
scan_in code d = record { depth = d; quote = 0; comment = false; escaped = false }
scan_in comment d = record { depth = d; quote = 0; comment = true; escaped = false }
scan_in string d = record { depth = d; quote = b'"'; comment = false; escaped = false }
scan_in escape d = record { depth = d; quote = b'"'; comment = false; escaped = true }
scan_in raw_string d = record { depth = d; quote = b'`'; comment = false; escaped = false }

-- The brackets alone.
unfoldable pub balance : ℤ → Bytes → Bool
balance d [] = true
balance d (c ∷ text) =
    let deeper = balance (increment d) text in
    let shallower = balance (decrement d) text in
    let same = balance d text in
    if opens c
    then (if int_ltb (pos max_rule_depth) (increment d) then false else deeper)
    else if closes c
    then shallower
    else same

-- What the switch does with a bracket or another byte of the code.
abbrev bracket : ℤ → ℕ → Option Scan
bracket d c =
    if opens c
    then (if int_ltb (pos max_rule_depth) (increment d)
        then none
        else some (scan_in code (increment d)))
    else if closes c
    then some (scan_in code (decrement d))
    else some (scan_in code d)

scan_byte-bracket :
    (d : ℤ) (c : ℕ) → next_mode code c ≡ code → scan_byte (scan_in code d) c ≡ bracket d c
unfolding scan_byte scan_code next_mode
scan_byte-bracket d c h = ground arith

scan_byte-mode :
    (d : ℤ) (c : ℕ)
    → next_mode code c ≢ code
    → scan_byte (scan_in code d) c ≡ some (scan_in (next_mode code c) d)
unfolding scan_byte scan_code next_mode
scan_byte-mode d c h = ground arith

scan-bracket :
    (c : ℕ) (raw text : Bytes) (d : ℤ)
    → ((e : ℤ) → scan (some (scan_in code e)) raw ≡ balance e text)
    → scan (bracket d c) raw ≡ balance d (c ∷ text)
unfolding scan balance
scan-bracket c raw text d ih = ground (arith, ih d, ih (increment d), ih (decrement d))

Mode-cases : (m : Mode) → (m ≡ code) ⊎ (m ≢ code)
Mode-cases code = inl refl
Mode-cases comment = inr (λ e. cc)
Mode-cases string = inr (λ e. cc)
Mode-cases escape = inr (λ e. cc)
Mode-cases raw_string = inr (λ e. cc)

shown_other : (m : Mode) (c : ℕ) (text : Bytes) → m ≢ code → shown m c text ≡ text
shown_other code c text h = absurd (h refl)
shown_other comment c text h = refl
shown_other string c text h = refl
shown_other escape c text h = refl
shown_other raw_string c text h = refl

scan-code :
    (c : ℕ) (raw : Bytes) (d : ℤ)
    → ((m : Mode) (e : ℤ) → scan (some (scan_in m e)) raw ≡ balance e (code_of m raw))
    → scan (some (scan_in code d)) (c ∷ raw) ≡ balance d (code_of code (c ∷ raw))
unfolding scan code_of
scan-code c raw d ih =
    let m = next_mode code c in
    elim (Mode-cases m) [
      | inl e ↦
          ap (λ s. scan s raw) (scan_byte-bracket d c e)
          ∙ scan-bracket c raw (code_of code raw) d (ih code)
          ∙ ap (λ n. balance d (shown n c (code_of n raw))) (sym e)
      | inr e ↦
          ap (λ s. scan s raw) (scan_byte-mode d c e)
          ∙ ih m d
          ∙ ap (balance d) (sym (shown_other m c (code_of m raw) e))
    ]

pub scan-balance :
    (m : Mode) (d : ℤ) (raw : Bytes) → scan (some (scan_in m d)) raw ≡ balance d (code_of m raw)
unfolding scan scan_byte scan_code scan_quote scan_comment code_of next_mode balance
scan-balance m d [] = ground arith
scan-balance code d (c ∷ raw) = scan-code c raw d (λ m e. scan-balance m e raw)
scan-balance comment d (c ∷ raw) =
    ground (arith, scan-balance code d raw, scan-balance comment d raw)
scan-balance string d (c ∷ raw) =
    ground (arith, scan-balance code d raw, scan-balance string d raw, scan-balance escape d raw)
scan-balance escape d (c ∷ raw) = ground (arith, scan-balance string d raw)
scan-balance raw_string d (c ∷ raw) =
    ground (arith, scan-balance code d raw, scan-balance raw_string d raw)
