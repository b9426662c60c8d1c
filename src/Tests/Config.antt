-- ===== src/Tests/Config.antt =====
-- Runs of internal/config/config.go, internal/contracts/validate.go and safeYAML.
use normgate.Prelude.{◌≡◌, ◌↔◌, refl, pos, true, false, none, some, [], ◌∷◌}
use normgate.Text.{text_leb, Text, codes, text_eq, has_prefix, trim_prefix, contains}
use normgate.Text.Utf8.{utf8, utf8_rune, byte_length}
use normgate.Json.{str, Fields, end, field, marshal}
use normgate.Json.Struct.{struct}
use normgate.Json.Decimal.{format_int}
use normgate.Json.Decimal.Parse.{atoi, unsigned, digits}
use normgate.Contracts.Validation.{
  SchemaMap, find_schema, schemas_of, schema_of, is_supported, find_field, validate,
  decode_contract, trim_suffix,
}
use normgate.Policy.{ok, err}
use normgate.Policy.Bundle.Inspect.{trim_space, trim_left, trim_right}
use normgate.Policy.Sources.{is_abs}
use normgate.Normalization.Encode.{in_order, insert_field}
use normgate.Normalization.Decode
use normgate.Normalization.Decode.{
  open_object, close_object, ended, next, decode, decode_tokens, token_count, read_value,
  read_token, has_more, close_fields, valid_surrogates,
}
use normgate.Config
use normgate.Config.{
  System, Config, Configuration, SecretFile, config_error, environment_reference, file_reference,
  braced, has_reference, secret, resolve, resolve_environment, resolve_file, resolve_fields,
  override, set_field, load, validate_config, is_source, is_local, is_remote, configuration_value,
  string_of,
}
use normgate.Config.Loaded.{IsLoaded, load-IsLoaded}
use normgate.Config.Redacted.{SameSettings, string_of_iff}
use normgate.Yaml.{Node, node, mapping, scalar, nil, cons}
use normgate.Policy.Scenarios.Parse.{safe_yaml, has_safe_keys}

-- Every input has the tokens of an empty object.
abbrev reader : Decode.Packages
reader = record {
  is_utf8 = λ raw. true;
  tokens = λ raw. next open_object (next close_object ended);
  nfc = λ s. s;
  nfd = λ s. s;
  is_mark = λ c. false;
}

abbrev schemas : SchemaMap
schemas = (codes "configuration", λ v. true) ∷ []

abbrev settings : Configuration
settings = record {
  schema_version = codes "1.0";
  listen_address = codes "[::1]:8443";
  policy_source = codes "https://registry/org";
  request_timeout_ms = pos 500;
  fail_closed = true;
  api_key = codes "secret";
  extensions = none;
}

abbrev key_file : SecretFile
key_file = record { is_regular = true; size = pos 8; content = some (codes "secret\r\n") }

abbrev system : System
system = record {
  lookup_env = λ name. some (codes "secret");
  open_secret = λ path. some key_file;
  split_host_port = λ address. some (codes "::1", codes "8443");
  parse_url = λ address. some (record {
    scheme = codes "https";
    has_user = false;
    host = codes "registry";
    hostname = codes "registry";
    path = codes "/org";
    opaque = [];
    raw_query = [];
    fragment = [];
  });
  read_document = λ text. none;
  node_value = λ n. none;
  has_second_document = λ text. false;
  unmarshal = λ raw. some settings;
}

abbrev flags : Fields
flags = field (codes "api_key") (str (codes "${ENV:NORMGATE_KEY}")) end

abbrev config : Config
config = record {
  schema_version = codes "1.0";
  listen_address = codes "[::1]:8443";
  policy_source = codes "https://registry/org";
  request_timeout_ms = pos 500;
  fail_closed = true;
  api_key = codes "secret";
}

file_run : resolve system reader (some schemas) (codes "${FILE:/run/key}") ≡ ok (codes "secret")
unfolding resolve environment_reference file_reference braced resolve_file secret trim_suffix is_abs
    byte_length utf8 utf8_rune has_prefix trim_prefix text_eq
file_run = refl

-- A reference is a whole scalar.
partial_run :
    resolve system reader (some schemas) (codes "x${ENV:A}")
    ≡ err (config_error "invalid_reference")
unfolding resolve environment_reference file_reference has_reference has_prefix
partial_run = refl

load_run : load system reader (some schemas) (codes " {}") flags ≡ ok config
unfolding load byte_length utf8 utf8_rune Config.read_value trim_space trim_left trim_right decode
    valid_surrogates decode_tokens token_count read_value has_more close_fields override set_field
    resolve_fields resolve environment_reference braced resolve_environment has_prefix trim_prefix
    text_eq decode_contract validate schemas_of schema_of find_schema is_supported find_field
    validate_config atoi unsigned digits is_source is_remote in_order insert_field text_leb marshal
    struct format_int
load_run = refl

load-IsLoaded_example : IsLoaded system reader (some schemas) (codes " {}") flags config
load-IsLoaded_example =
    load-IsLoaded system reader (some schemas) (codes " {}") flags config load_run

string_of_iff_example :
    (string_of config ≡ string_of (record config { api_key = [] }))
    ↔ SameSettings config (record config { api_key = [] })
string_of_iff_example = string_of_iff config (record config { api_key = [] })

abbrev word : Text → Node
word s = node scalar (codes "!!str") [] s nil

-- a: b
abbrev entries : Node
entries = node mapping (codes "!!map") [] [] (cons (word (codes "a")) (cons (word (codes "b")) nil))

-- The same key twice.
twice_run :
    safe_yaml 0 (
      node mapping
        (codes "!!map")
        []
        []
        (cons (word (codes "a")) (cons (word []) (cons (word (codes "a")) (cons (word []) nil)))))
    ≡ false
unfolding safe_yaml has_safe_keys contains text_eq
twice_run = refl
