-- ===== src/Tests/Canonical.antt =====
-- Runs of Decode and Canonicalize of internal/normalization/normalization.go.
use normgate.Prelude.{◌≡◌, refl, ◌↔◌, true, false, [], ◌∷◌, ◌≢◌}
use normgate.Text.{Text, codes, contains, text_eq, text_leb}
use normgate.Text.Utf8.{Bytes}
use normgate.Json.{Value, str, obj, number, field, end, escape_rune, write}
use normgate.Json.Decimal.{format_int}
use normgate.Json.Decimal.Parse.{atoi, unsigned, digits}
use normgate.Policy.{panic, ok, err}
use normgate.Normalization.Decode
use normgate.Normalization.Decode.{
  Tokens, Token, open_object, close_object, open_array, close_array, numeral, text, next, ended,
  broken, valid_surrogates, check_bytes, check_escape, check_unit, hex_unit, check_low, decode,
  decode_tokens, read_value, read_key, check_string, check_runs, read_token, integer, has_more,
  close_fields, close_items, token_count,
}
use normgate.Normalization.Decode.Safe.{IsSafe}
use normgate.Normalization.Decode.Spelled.{respell, value_tokens}
use normgate.Normalization.Decode.Complete.{decode_tokens_iff}
use normgate.Normalization.Decode.Sound.{decode_tokens-IsSafe}
use normgate.Normalization.Decode.Enough.{decode_tokens-ne-panic}
use normgate.Normalization.Decode.Spelled.{value_tokens, respell}
use normgate.Normalization.Normalize.{
  Profile, normalize, by_profile, invalid, put_first, has_key, next_path, pointer, pointer_rune,
}
use normgate.Normalization.Encode.{encode, in_order, insert_field, quote_rune}
use normgate.Normalization.Encode.Same.{Same}
use normgate.Normalization.Canonicalize.{normal_value, canonicalize}
use normgate.Normalization.Canonicalize.Unique.{canonicalize_iff}
use normgate.Tests.Normalization.{packages}

abbrev entry_a : Text → Tokens → Tokens
entry_a n s = next (text (codes "a")) (next (numeral n) s)

abbrev entry_b : Tokens → Tokens
entry_b s = next (text (codes "b")) (next (text (codes "x")) s)

abbrev braced : Tokens → Tokens
braced s = next open_object s

abbrev last : Tokens
last = next close_object ended

-- {"a":0,"b":"x"} for an input of one byte, and {"b":"x","a":-0} for any other.
abbrev scanned : Bytes → Tokens
scanned (c ∷ []) = braced (entry_a (codes "0") (entry_b last))
scanned raw = braced (entry_b (entry_a (codes "-0") last))

abbrev pub reader : Decode.Packages
reader = record {
  is_utf8 = λ raw. true;
  tokens = scanned;
  nfc = λ s. s;
  nfd = λ s. s;
  is_mark = λ c. false;
}

abbrev plain : Profile
plain = record { sets = []; timestamps = []; omit = [] }

abbrev pub a_b : Value
a_b = obj (field (codes "a") (number (codes "0")) (field (codes "b") (str (codes "x")) end))

decode_run : decode_tokens reader (scanned (0 ∷ [])) ≡ ok a_b
unfolding decode_tokens token_count read_value has_more close_fields check_string check_runs
    contains text_eq integer atoi unsigned digits format_int
decode_run = refl

-- The same key twice.
duplicate_run :
    decode_tokens reader (braced (entry_b (entry_b last))) ≡ err (invalid "duplicate_key")
unfolding decode_tokens token_count read_value has_more close_fields check_string check_runs
    contains text_eq integer
duplicate_run = refl

-- 2^53
unsafe_run :
    decode_tokens reader (next (numeral (codes "9007199254740992")) ended)
    ≡ err (invalid "unsafe_number")
unfolding decode_tokens token_count read_value integer atoi unsigned digits
unsafe_run = refl

trailing_run : decode_tokens reader (entry_b ended) ≡ err (invalid "trailing_data")
unfolding decode_tokens token_count read_value check_string check_runs
trailing_run = refl

-- A pair of escapes of surrogates, and one alone.
paired_run : valid_surrogates (codes "\"\\ud83d\\ude00\"") ≡ true
unfolding valid_surrogates check_bytes check_escape check_unit check_low hex_unit
paired_run = refl

unpaired_run : valid_surrogates (codes "\"\\ud83d\\n\"") ≡ false
unfolding valid_surrogates check_bytes check_escape check_unit check_low hex_unit
unpaired_run = refl

decode_tokens_iff_example :
    (decode_tokens reader (value_tokens a_b ended) ≡ ok a_b) ↔ IsSafe reader 0 a_b
decode_tokens_iff_example = decode_tokens_iff reader a_b

abbrev pub canonical : Text
canonical = codes "{\"a\":0,\"b\":\"x\"}"

first_run : canonicalize reader packages plain (0 ∷ []) ≡ ok canonical
unfolding canonicalize normal_value decode decode_tokens token_count read_value has_more
    close_fields check_string check_runs contains text_eq integer atoi unsigned digits format_int
    valid_surrogates normalize by_profile put_first has_key next_path pointer pointer_rune encode
    in_order insert_field text_leb quote_rune write escape_rune
first_run = refl

second_run : canonicalize reader packages plain [] ≡ ok canonical
unfolding canonicalize normal_value decode decode_tokens token_count read_value has_more
    close_fields check_string check_runs contains text_eq integer atoi unsigned digits format_int
    valid_surrogates normalize by_profile put_first has_key next_path pointer pointer_rune encode
    in_order insert_field text_leb quote_rune write escape_rune
second_run = refl

canonicalize_iff_example :
    (v : Value) × (v' : Value) × (normal_value reader packages plain (0 ∷ []) ≡ ok v)
    × (normal_value reader packages plain [] ≡ ok v')
    × ((canonical ≡ canonical) ↔ Same v v')
canonicalize_iff_example =
    canonicalize_iff reader packages plain (0 ∷ []) [] canonical canonical first_run second_run

decode_tokens-IsSafe_example :
    IsSafe reader 0 a_b × (respell (scanned (0 ∷ [])) ≡ value_tokens a_b ended)
decode_tokens-IsSafe_example = decode_tokens-IsSafe reader (scanned (0 ∷ [])) a_b decode_run

decode_tokens-ne-panic_example : decode_tokens reader (entry_b ended) ≢ panic
decode_tokens-ne-panic_example = decode_tokens-ne-panic reader (entry_b ended)
