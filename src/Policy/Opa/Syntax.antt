-- ===== src/Policy/Opa/Syntax.antt =====
-- boundedSyntax of internal/policy/opa/engine.go.
pub mod Lexing
pub mod Brackets
pub mod Nesting
use normgate.Prelude.{
  ℕ, ℤ, pos, increment, decrement, int_ltb, Bool, true, false, ◌&&◌, ◌||◌, not, Option, none, some,
  List, [], ◌∷◌, ◌==◌, if◌then◌else◌,
}
use normgate.Text.Utf8.{Bytes}
use normgate.Policy.Opa.{max_rule_depth}

-- The variables of the loop.
pub record Scan : Type 0 where
  pub depth : ℤ
  pub quote : ℕ
  pub comment : Bool
  pub escaped : Bool

unfoldable pub opens : ℕ → Bool
opens c = c == b'{' || c == b'[' || c == b'('

unfoldable pub closes : ℕ → Bool
closes c = c == b'}' || c == b']' || c == b')'

unfoldable pub scan_comment : Scan → ℕ → Scan
scan_comment s c = if c == 10 then record s { comment = false } else s

unfoldable pub scan_quote : Scan → ℕ → Scan
scan_quote s c =
    if s.escaped
    then record s { escaped = false }
    else if c == b'\\' && s.quote == b'"'
    then record s { escaped = true }
    else if c == s.quote
    then record s { quote = 0 }
    else s

-- The switch; `none` is the return of false.
unfoldable pub scan_code : Scan → ℕ → Option Scan
scan_code s c =
    if c == b'#'
    then some (record s { comment = true })
    else if c == b'"' || c == b'`'
    then some (record s { quote = c })
    else if opens c
    then (if int_ltb (pos max_rule_depth) (increment s.depth)
        then none
        else some (record s { depth = increment s.depth }))
    else if closes c
    then some (record s { depth = decrement s.depth })
    else some s

unfoldable pub scan_byte : Scan → ℕ → Option Scan
unfolding scan_comment scan_quote scan_code
scan_byte s c =
    if s.comment
    then some (scan_comment s c)
    else if not (s.quote == 0)
    then some (scan_quote s c)
    else scan_code s c

abbrev pub start : Scan
start = record { depth = pos 0; quote = 0; comment = false; escaped = false }

-- The loop.
unfoldable pub scan : Option Scan → Bytes → Bool
scan none raw = false
scan (some s) [] = true
scan (some s) (c ∷ raw) = scan (scan_byte s c) raw

-- boundedSyntax
unfoldable pub bounded_syntax : Bytes → Bool
bounded_syntax raw = scan (some start) raw
