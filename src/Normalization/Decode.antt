-- ===== src/Normalization/Decode.antt =====
-- Decode, readValue, checkString and validSurrogates of internal/normalization/normalization.go.
-- The tokens of encoding/json, utf8.Valid, package norm and the category of marks are parameters.
pub mod Safe
pub mod Spelled
pub mod Enough
pub mod Sound
pub mod Complete
use normgate.Prelude.{
  ℕ, zero, suc, ◌+◌, ◌-◌, ◌*◌, ◌^◌, ℤ, pos, negsuc, Bool, true, false, ◌&&◌, ◌||◌, not, Option,
  none, some, List, [], ◌∷◌, leb, ltb, ◌==◌, if◌then◌else◌, length,
}
use normgate.Text.{Text, contains}
use normgate.Text.Utf8.{Bytes}
use normgate.Json.{Value, null, bool, number, str, arr, obj, Items, nil, cons, Fields, end, field}
use normgate.Json.Decimal.{format_int}
use normgate.Json.Decimal.Parse.{atoi}
use normgate.Policy.{Try, ok, err, panic, ◌>>=◌, ◌>>◌, require}
use normgate.Normalization.Normalize.{invalid}

-- A json.Token, with numbers as json.Number.
pub data Token : Type 0 where
  open_object close_object open_array close_array : Token
  numeral : Text → Token
  text : Text → Token
  literal : Bool → Token
  nothing : Token

-- What the calls of json.Decoder.Token give: tokens, and then io.EOF or a syntax error. Before an
-- error, More tells whether something else than a closing bracket comes next.
pub data Tokens : Type 0 where
  ended : Tokens
  broken : (more : Bool) → Tokens
  next : Token → Tokens → Tokens

pub record Packages : Type 0 where
  pub is_utf8 : Bytes → Bool
  pub tokens : Bytes → Tokens
  pub nfc : Text → Text
  pub nfd : Text → Text
  pub is_mark : ℕ → Bool

abbrev pub max_bytes : ℕ
max_bytes = 2 ^ 20

abbrev pub max_depth : ℕ
max_depth = 64

abbrev pub max_integer : ℕ
max_integer = 9007199254740991

-- strconv.ParseUint of four characters to the base 16
abbrev hex_value : ℕ → Option ℕ
hex_value c =
    if leb 48 c && leb c 57
    then some (c - 48)
    else if leb 97 c && leb c 102
    then some (c - 87)
    else if leb 65 c && leb c 70
    then some (c - 55)
    else none

abbrev add_digit : Option ℕ → Option ℕ → Option ℕ
add_digit (some a) (some b) = some (a * 16 + b)
add_digit _ _ = none

unfoldable pub hex_unit : ℕ → ℕ → ℕ → ℕ → Option ℕ
hex_unit a b c d =
    add_digit (add_digit (add_digit (hex_value a) (hex_value b)) (hex_value c)) (hex_value d)

abbrev pub is_high : ℕ → Bool
is_high n = leb 0xd800 n && leb n 0xdbff

abbrev pub is_low : ℕ → Bool
is_low n = leb 0xdc00 n && leb n 0xdfff

abbrev is_low_unit : Option ℕ → Bool
is_low_unit none = false
is_low_unit (some n) = is_low n

-- What follows a high surrogate: an escape of a low one, and the rest.
unfoldable pub check_low : (Bytes → Bool) → Bytes → Bool
unfolding hex_unit
check_low rest (x ∷ y ∷ a ∷ b ∷ c ∷ d ∷ s) =
    x == 92 && y == b'u' && is_low_unit (hex_unit a b c d) && rest s
check_low rest _ = false

unfoldable pub check_unit : (Bytes → Bool) → Option ℕ → Bytes → Bool
unfolding check_low
check_unit rest none s = false
check_unit rest (some n) s =
    if is_low n then false else if is_high n then check_low rest s else rest s

-- What follows a backslash.
unfoldable pub check_escape : (Bytes → Bool) → Bytes → Bool
unfolding check_unit hex_unit
check_escape rest [] = false
check_escape rest (x ∷ []) = if x == b'u' then false else rest []
check_escape rest (x ∷ a ∷ []) = if x == b'u' then false else rest (a ∷ [])
check_escape rest (x ∷ a ∷ b ∷ []) = if x == b'u' then false else rest (a ∷ b ∷ [])
check_escape rest (x ∷ a ∷ b ∷ c ∷ []) = if x == b'u' then false else rest (a ∷ b ∷ c ∷ [])
check_escape rest (x ∷ a ∷ b ∷ c ∷ d ∷ s) =
    if x == b'u' then check_unit rest (hex_unit a b c d) s else rest (a ∷ b ∷ c ∷ d ∷ s)

-- The loop of validSurrogates. A round takes a byte at least.
unfoldable pub check_bytes : ℕ → Bytes → Bool
unfolding check_escape
check_bytes zero s = true
check_bytes (suc f) [] = true
check_bytes (suc f) (x ∷ s) =
    let after = check_escape (check_bytes f) s in
    let rest = check_bytes f s in if x == 92 then after else rest

-- validSurrogates
unfoldable pub valid_surrogates : Bytes → Bool
unfolding check_bytes
valid_surrogates s = check_bytes (length s) s

-- strconv.ParseInt, and the limits of the integers that a double holds exactly.
abbrev is_exact : ℤ → Bool
is_exact (pos n) = leb n max_integer
is_exact (negsuc n) = ltb n max_integer

unfoldable pub integer : Option ℤ → Try Value
integer none = err (invalid "unsafe_number")
integer (some n) = if is_exact n then ok (number (format_int n)) else err (invalid "unsafe_number")

-- dec.More()
unfoldable pub has_more : Tokens → Bool
has_more ended = false
has_more (broken more) = more
has_more (next close_object s) = false
has_more (next close_array s) = false
has_more (next t s) = true

-- The closing bracket, which is the token after the entries.
unfoldable pub close_fields : Tokens → Try Tokens
close_fields (next close_object s) = ok s
close_fields s = err (invalid "invalid_json")

unfoldable pub close_items : Tokens → Try Tokens
close_items (next close_array s) = ok s
close_items s = err (invalid "invalid_json")

abbrev pub object_of : Try (Fields × Tokens) → Try (Value × Tokens)
object_of r = r >>= λ (p : Fields × Tokens). ok (obj p.0, p.1)

abbrev pub array_of : Try (Items × Tokens) → Try (Value × Tokens)
array_of r = r >>= λ (p : Items × Tokens). ok (arr p.0, p.1)

unfoldable pub token_count : Tokens → ℕ
token_count ended = 0
token_count (broken more) = 0
token_count (next t s) = suc (token_count s)

-- Nothing may follow the value.
abbrev pub whole : Value × Tokens → Try Value
whole (v, ended) = ok v
whole (v, s) = err (invalid "trailing_data")

module _ (L : Packages) where
  open L use {nfc, nfd, is_mark}

  -- The loop of checkString, after a run of marks.
  unfoldable pub check_runs : ℕ → Text → Bool
  check_runs run [] = true
  check_runs run (c ∷ s) =
      let run' = if is_mark c then suc run else 0 in
      let rest = check_runs run' s in if ltb 30 run' then false else rest

  -- checkString
  unfoldable pub check_string : Text → Try (Unit {0})
  unfolding check_runs
  check_string s = require (check_runs 0 (nfd s)) (invalid "unicode_complexity")

  -- A key, and what follows it.
  unfoldable pub read_key : List Text → Tokens → Try (Text × Tokens)
  unfolding check_string
  read_key seen ended = err (invalid "invalid_json")
  read_key seen (broken more) = err (invalid "invalid_json")
  read_key seen (next (text k) s) = do
    check_string k
    require (not (contains seen (nfc k))) (invalid "duplicate_key")
    ok (k, s)
  read_key seen (next t s) = err (invalid "invalid_key")

  -- The switch on the token, over the loops of an object and of an array.
  unfoldable pub read_token :
      (Tokens → Try (Fields × Tokens))
      → (Tokens → Try (Items × Tokens))
      → Tokens
      → Try (Value × Tokens)
  unfolding check_string integer
  read_token fields items ended = err (invalid "invalid_json")
  read_token fields items (broken more) = err (invalid "invalid_json")
  read_token fields items (next open_object s) = object_of (fields s)
  read_token fields items (next open_array s) = array_of (items s)
  read_token fields items (next close_object s) = err (invalid "invalid_json")
  read_token fields items (next close_array s) = err (invalid "invalid_json")
  read_token fields items (next (numeral n) s) = do v ← integer (atoi n); ok (v, s)
  read_token fields items (next (text t) s) = do check_string t; ok (str t, s)
  read_token fields items (next (literal b) s) = ok (bool b, s)
  read_token fields items (next nothing s) = ok (null, s)

  -- readValue, with the loops over the entries and the items. Keys are distinct, so each entry is a
  -- new one of the map. The fuel bounds the number of calls.
  unfoldable mutual
    unfolding read_token read_key has_more close_fields close_items

    pub read_value : ℕ → ℕ → Tokens → Try (Value × Tokens)
    read_value zero depth s = panic
    read_value (suc f) depth s =
        let read = read_token (read_fields f (suc depth) []) (read_items f (suc depth)) s in
        if ltb max_depth depth then err (invalid "depth_limit") else read

    pub read_fields : ℕ → ℕ → List Text → Tokens → Try (Fields × Tokens)
    read_fields zero depth seen s = panic
    read_fields (suc f) depth seen s =
        let entry = read_key seen s >>= λ (k : Text × Tokens).
        read_value f depth k.1 >>= λ (v : Value × Tokens).
        read_fields f depth (nfc k.0 ∷ seen) v.1 >>= λ (r : Fields × Tokens).
        ok (field k.0 v.0 r.0, r.1) in
        if has_more s then entry else (close_fields s >>= λ (t : Tokens). ok (end, t))

    pub read_items : ℕ → ℕ → Tokens → Try (Items × Tokens)
    read_items zero depth s = panic
    read_items (suc f) depth s =
        let item = read_value f depth s >>= λ (v : Value × Tokens).
        read_items f depth v.1 >>= λ (r : Items × Tokens). ok (cons v.0 r.0, r.1) in
        if has_more s then item else (close_items s >>= λ (t : Tokens). ok (nil, t))

  -- Decode, on the tokens of its input
  unfoldable pub decode_tokens : Tokens → Try Value
  unfolding read_value token_count
  decode_tokens s = do p ← read_value (suc (2 * token_count s)) 0 s; whole p

  -- Decode
  unfoldable pub decode : Bytes → Try Value
  unfolding valid_surrogates decode_tokens
  decode raw = do
    require (leb (length raw) max_bytes) (invalid "size_limit")
    require (L.is_utf8 raw && valid_surrogates raw) (invalid "invalid_unicode")
    decode_tokens (L.tokens raw)
