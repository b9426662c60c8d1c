-- ===== src/Tests/Normalization.antt =====
-- Runs of internal/normalization/normalization.go, over packages for texts that are in NFC and for
-- one instant.
use normgate.Prelude.{◌≡◌, refl, true, some, [], ◌∷◌, pos}
use normgate.Text.{Text, codes, text_eq, text_leb, contains}
use normgate.Sort.{sort}
use normgate.Json.{Value, number, str, arr, obj, nil, cons, end, field, write, escape_rune}
use normgate.Policy.{ok}
use normgate.Normalization.Encode.{encode, in_order, insert_field, quote_rune}
use normgate.Normalization.Normalize.{
  Packages, Profile, is_timestamp, format_instant, timestamp, nfc_all, set_of, by_profile,
  strings_of, string_items, has_no_twins, in_range, put_first, has_key, next_path, pointer,
  pointer_rune, normalize,
}
use normgate.Normalization.Normalize.Profiled.{IsStable}
use normgate.Normalization.Normalize.Again.{normalize_idempotent}

abbrev new_year : Text
new_year = codes "2026-01-01T00:00:00Z"

abbrev pub packages : Packages
packages = record {
  Instant = Text;
  nfc = λ s. s;
  parse_time = λ s. some s;
  year = λ t. pos 2026;
  utc_year = λ t. pos 2026;
  format_utc = λ t. new_year;
}

new_year_matches : is_timestamp new_year ≡ true
unfolding is_timestamp
new_year_matches = refl

packages-IsStable : IsStable packages
packages-IsStable = record {
  nfc_twice = λ s. refl;
  reads_back = λ t h. (new_year_matches, (new_year, refl, refl, refl, refl));
}

abbrev profile : Profile
profile = record {
  sets = codes "/roles" ∷ [];
  timestamps = codes "/at" ∷ [];
  omit = codes "/transport" ∷ [];
}

abbrev event : Value
event = obj (
    field (codes "roles") (arr (cons (str (codes "b")) (cons (str (codes "a")) nil))) (
      field (codes "transport") (str []) (
        field (codes "at") (str (codes "2026-01-01T01:00:00+01:00"))
          (field (codes "count") (number (codes "1")) end))))

abbrev normal : Value
normal = obj (
    field (codes "roles") (arr (cons (str (codes "a")) (cons (str (codes "b")) nil)))
      (field (codes "at") (str new_year) (field (codes "count") (number (codes "1")) end)))

normal_run : normalize packages profile [] event ≡ ok normal
unfolding normalize by_profile contains text_eq next_path pointer pointer_rune set_of strings_of
    nfc_all sort text_leb has_no_twins string_items timestamp is_timestamp format_instant in_range
    put_first has_key
normal_run = refl

normalize_idempotent_example : normalize packages profile [] normal ≡ ok normal
normalize_idempotent_example =
    normalize_idempotent packages profile [] event normal packages-IsStable normal_run

abbrev one_two : Value
one_two = obj (field (codes "a") (number (codes "1")) (field (codes "b") (number (codes "2")) end))

abbrev two_one : Value
two_one = obj (field (codes "b") (number (codes "2")) (field (codes "a") (number (codes "1")) end))

two_one_run : encode two_one ≡ codes "{\"a\":1,\"b\":2}"
unfolding encode in_order insert_field text_leb quote_rune write escape_rune
two_one_run = refl
