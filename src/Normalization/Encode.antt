-- ===== src/Normalization/Encode.antt =====
-- encode and quote of internal/normalization/normalization.go. A Go map is the list of its entries.
pub mod Same
pub mod Canonical
use normgate.Prelude.{ℕ, Bool, ltb, if◌then◌else◌}
use normgate.Text.{Text, text_leb}
use normgate.Json.{
  Value, null, bool, number, str, arr, obj, Items, nil, cons, Fields, end, field, escape_rune,
  write,
}

-- An entry put before the first one with a greater key.
unfoldable pub insert_field : Text → Value → Fields → Fields
insert_field k v end = field k v end
insert_field k v (field l w fs) =
    if text_leb k l then field k v (field l w fs) else field l w (insert_field k v fs)

-- The value with the keys of its objects sorted.
unfoldable mutual
  pub in_order : Value → Value
  in_order null = null
  in_order (bool b) = bool b
  in_order (number n) = number n
  in_order (str s) = str s
  in_order (arr xs) = arr (items_in_order xs)
  in_order (obj fs) = obj (fields_in_order fs)

  pub items_in_order : Items → Items
  items_in_order nil = nil
  items_in_order (cons x xs) = cons (in_order x) (items_in_order xs)

  pub fields_in_order : Fields → Fields
  fields_in_order end = end
  fields_in_order (field k v fs) = insert_field k (in_order v) (fields_in_order fs)

abbrev pub is_control : ℕ → Bool
is_control c = ltb c 32

-- The switch of quote.
unfoldable pub quote_rune : ℕ → Text
quote_rune = escape_rune is_control

-- encode
unfoldable pub encode : Value → Text
encode v = write quote_rune (in_order v)
