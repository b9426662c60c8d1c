-- ===== src/Json.antt =====
-- JSON values as package encoding/json and internal/normalization/normalization.go hold them, and
-- the writer of json.Marshal. A map is the list of its entries in the order in which they are
-- written; a number is its decimal text, as in json.Number.
pub mod Escape
pub mod Unique
pub mod Struct
pub mod Decimal
use normgate.Prelude.{
  ℕ, ◌+◌, ◌/◌, ◌%◌, ◌≡◌, refl, Bool, true, false, ◌||◌, Option, none, some, List, [], ◌∷◌, ◌++◌,
  ltb, leb, ◌==◌, if◌then◌else◌,
}
use normgate.Text.{Text, codes}

mutual
  pub data Value : Type 0 where
    null : Value
    bool : Bool → Value
    number : Text → Value
    str : Text → Value
    arr : Items → Value
    obj : Fields → Value

  pub data Items : Type 0 where
    nil : Items
    cons : Value → Items → Items

  pub data Fields : Type 0 where
    end : Fields
    field : Text → Value → Fields → Fields

abbrev pub from_list : List Value → Items
from_list [] = nil
from_list (v ∷ vs) = cons v (from_list vs)

-- One hexadecimal digit, in lower case.
abbrev pub hex : ℕ → ℕ
hex d = if ltb d 10 then 48 + d else 87 + d

-- \u and four hexadecimal digits.
abbrev pub hex_escape : ℕ → Text
hex_escape c =
    92 ∷ 117 ∷ hex (c / 4096) ∷ hex (c / 256 % 16) ∷ hex (c / 16 % 16) ∷ hex (c % 16) ∷ []

-- What follows the backslash of a short escape.
unfoldable pub short_escape : ℕ → Option ℕ
short_escape c =
    if c == 34 || c == 92
    then some c
    else if c == 8
    then some b'b'
    else if c == 12
    then some b'f'
    else if c == 10
    then some b'n'
    else if c == 13
    then some b'r'
    else if c == 9
    then some b't'
    else none

-- A short escape, a hexadecimal one where the test asks for it, or the character.
unfoldable pub escape_rune : (ℕ → Bool) → ℕ → Text
unfolding short_escape
escape_rune hexed c = elim (short_escape c) [
  | some d ↦ 92 ∷ d ∷ []
  | none ↦ if hexed c then hex_escape c else c ∷ []
]

-- What json.Marshal writes in hexadecimal, with HTML escaping on.
unfoldable pub html_unsafe : ℕ → Bool
html_unsafe c = ltb c 32 || c == 60 || c == 62 || c == 38 || c == 0x2028 || c == 0x2029

unfoldable pub marshal_rune : ℕ → Text
unfolding escape_rune html_unsafe
marshal_rune = escape_rune html_unsafe

module _ (escape : ℕ → Text) where
  unfoldable pub write_runes : Text → Text
  write_runes [] = []
  write_runes (c ∷ s) = escape c ++ write_runes s

  unfoldable pub write_string : Text → Text
  unfolding write_runes
  write_string s = 34 ∷ (write_runes s ++ 34 ∷ [])

unfoldable mutual
  unfolding write_string

  pub write : (ℕ → Text) → Value → Text
  write e null = codes "null"
  write e (bool true) = codes "true"
  write e (bool false) = codes "false"
  write e (number n) = n
  write e (str s) = write_string e s
  write e (arr xs) = 91 ∷ write_items e xs
  write e (obj fs) = 123 ∷ write_fields e fs

  pub write_items : (ℕ → Text) → Items → Text
  write_items e nil = 93 ∷ []
  write_items e (cons x xs) = write e x ++ write_more e xs

  pub write_more : (ℕ → Text) → Items → Text
  write_more e nil = 93 ∷ []
  write_more e (cons x xs) = 44 ∷ (write e x ++ write_more e xs)

  pub write_fields : (ℕ → Text) → Fields → Text
  write_fields e end = 125 ∷ []
  write_fields e (field k v fs) = write_string e k ++ (58 ∷ (write e v ++ write_rest e fs))

  pub write_rest : (ℕ → Text) → Fields → Text
  write_rest e end = 125 ∷ []
  write_rest e (field k v fs) = 44 ∷ (write_string e k ++ (58 ∷ (write e v ++ write_rest e fs)))

-- json.Marshal
unfoldable pub marshal : Value → Text
unfolding write marshal_rune
marshal v = write marshal_rune v

marshal_test :
    marshal (
      obj (
        field
          (codes "a<")
          (arr (cons null (cons (number (codes "12")) nil)))
          (field (codes "b") (str (codes "x\n")) end)))
    ≡ codes "{\"a\\u003c\":[null,12],\"b\":\"x\\n\"}"
unfolding marshal
marshal_test = refl
