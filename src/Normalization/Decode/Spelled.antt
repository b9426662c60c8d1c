-- ===== src/Normalization/Decode/Spelled.antt =====
-- The tokens of a value, and numbers in their canonical spelling.
use normgate.Prelude.{ℤ, Option, none, some}
use normgate.Text.{Text}
use normgate.Json.{Value, null, bool, number, str, arr, obj, Items, nil, cons, Fields, end, field}
use normgate.Json.Decimal.{format_int}
use normgate.Json.Decimal.Parse.{atoi}
use normgate.Normalization.Decode.{
  Token, open_object, close_object, open_array, close_array, numeral, text, literal, nothing,
  Tokens, ended, broken, next,
}

-- The tokens of a value before the given ones.
unfoldable mutual
  pub value_tokens : Value → Tokens → Tokens
  value_tokens null s = next nothing s
  value_tokens (bool b) s = next (literal b) s
  value_tokens (number n) s = next (numeral n) s
  value_tokens (str t) s = next (text t) s
  value_tokens (arr xs) s = next open_array (items_tokens xs (next close_array s))
  value_tokens (obj fs) s = next open_object (fields_tokens fs (next close_object s))

  pub items_tokens : Items → Tokens → Tokens
  items_tokens nil s = s
  items_tokens (cons x xs) s = value_tokens x (items_tokens xs s)

  pub fields_tokens : Fields → Tokens → Tokens
  fields_tokens end s = s
  fields_tokens (field k v fs) s = next (text k) (value_tokens v (fields_tokens fs s))

unfoldable pub canonical : Text → Option ℤ → Text
canonical t none = t
canonical t (some n) = format_int n

unfoldable pub respell_token : Token → Token
unfolding canonical
respell_token (numeral t) = numeral (canonical t (atoi t))
respell_token t = t

-- Each number as FormatInt writes it, if ParseInt reads it.
unfoldable pub respell : Tokens → Tokens
unfolding respell_token
respell ended = ended
respell (broken more) = broken more
respell (next t s) = next (respell_token t) (respell s)
