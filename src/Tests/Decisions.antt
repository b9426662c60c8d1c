-- ===== src/Tests/Decisions.antt =====
-- Runs of internal/policy/engine.go on two events that differ in the order of their fields and in the
-- spelling of a number.
use normgate.Prelude.{◌≡◌, refl, Bool, true, false, some, [], ◌∷◌}
use normgate.Text.{codes, contains, text_eq, text_leb}
use normgate.Text.Utf8.{utf8, utf8_rune}
use normgate.Json.{Value, null, number, str, obj, field, end, marshal, escape_rune, write}
use normgate.Json.Decimal.{format_int}
use normgate.Json.Decimal.Parse.{atoi, unsigned, digits}
use normgate.Contracts.Validation.{
  SchemaMap, find_schema, schemas_of, schema_of, is_supported, find_field, validate,
}
use normgate.Policy.{Result, ok}
use normgate.Normalization.Decode.{
  valid_surrogates, decode, decode_tokens, token_count, read_value, check_string, check_runs,
  has_more, close_fields, integer,
}
use normgate.Normalization.Normalize.{
  normalize, by_profile, put_first, has_key, next_path, pointer, pointer_rune,
}
use normgate.Normalization.Encode.{encode, in_order, insert_field, quote_rune}
use normgate.Normalization.Encode.Canonical.{encode_iff}
use normgate.Normalization.Canonicalize.{normal_value, canonicalize}
use normgate.Policy.Decisions.{
  Events, event_profile, canonical_event, decide, profile_of, event_bytes,
}
use normgate.Policy.Decisions.Same.{decide-Same}
use normgate.Tests.Archive.{no_digest}
use normgate.Tests.Canonical.{reader, a_b, canonical}
use normgate.Tests.Normalization.{packages}

abbrev events : Events
events = record {
  Event = Bool;
  event_value = λ (e : Bool). elim e [ true ↦ number (codes "1") | false ↦ null ];
  unmarshal = λ raw. some true;
  resource_count = λ e. 0;
  fact_count = λ e. 0;
  operation_value = λ e. null;
  facts_value = λ e. null;
  occurred_at = λ e. codes "2026-01-01T00:00:00Z";
}

abbrev schemas : SchemaMap
schemas = (codes "event-envelope", λ v. true) ∷ (codes "decision", λ v. true) ∷ []

abbrev result : Result
result = record { outcome = codes "allow"; reason_codes = []; obligations = [] }

abbrev b_a : Value
b_a = obj (field (codes "b") (str (codes "x")) (field (codes "a") (number (codes "0")) end))

first_run :
    canonical_event events reader packages (some schemas) no_digest true ≡ ok (true, canonical)
unfolding canonical_event validate schemas_of schema_of find_schema is_supported find_field
    canonicalize normal_value decode decode_tokens token_count read_value has_more close_fields
    check_string check_runs contains text_eq integer atoi unsigned digits format_int
    valid_surrogates normalize by_profile put_first has_key next_path pointer pointer_rune
    event_profile utf8 utf8_rune marshal write escape_rune encode in_order insert_field text_leb
    quote_rune
first_run = refl

second_run :
    canonical_event events reader packages (some schemas) no_digest false ≡ ok (true, canonical)
unfolding canonical_event validate schemas_of schema_of find_schema is_supported find_field
    canonicalize normal_value decode decode_tokens token_count read_value has_more close_fields
    check_string check_runs contains text_eq integer atoi unsigned digits format_int
    valid_surrogates normalize by_profile put_first has_key next_path pointer pointer_rune
    event_profile utf8 utf8_rune marshal write escape_rune encode in_order insert_field text_leb
    quote_rune
second_run = refl

first_value :
    normal_value reader packages
      (profile_of events reader packages (some schemas) no_digest true)
      (event_bytes events reader packages (some schemas) no_digest true)
    ≡ ok a_b
unfolding normal_value decode decode_tokens token_count read_value has_more close_fields
    check_string check_runs contains text_eq integer atoi unsigned digits format_int
    valid_surrogates normalize by_profile put_first has_key next_path pointer pointer_rune
    event_profile utf8 utf8_rune marshal write escape_rune
first_value = refl

second_value :
    normal_value reader packages
      (profile_of events reader packages (some schemas) no_digest false)
      (event_bytes events reader packages (some schemas) no_digest false)
    ≡ ok b_a
unfolding normal_value decode decode_tokens token_count read_value has_more close_fields
    check_string check_runs contains text_eq integer atoi unsigned digits format_int
    valid_surrogates normalize by_profile put_first has_key next_path pointer pointer_rune
    event_profile utf8 utf8_rune marshal write escape_rune
second_value = refl

encode_run : encode a_b ≡ encode b_a
unfolding encode in_order insert_field text_leb
encode_run = refl

decide-Same_example :
    decide events reader packages (some schemas) no_digest (codes "sha256:1") true result
    ≡ decide events reader packages (some schemas) no_digest (codes "sha256:1") false result
decide-Same_example =
    decide-Same events reader packages (some schemas) no_digest true false (true, canonical)
      (true, canonical) a_b b_a (codes "sha256:1") result first_run second_run first_value
      second_value ((encode_iff a_b b_a (refl, (tt, tt)) (tt, (refl, tt))).0 encode_run)
