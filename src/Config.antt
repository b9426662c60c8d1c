-- ===== src/Config.antt =====
-- internal/config/config.go: the configuration of the service. The environment, the files, net and
-- net/url and the parser of YAML are parameters. Texts are valid UTF-8.
pub mod References
pub mod Loaded
pub mod Redacted
use normgate.Prelude.{
  ℕ, suc, ◌^◌, ℤ, pos, negsuc, Bool, true, false, ◌&&◌, ◌||◌, not, Option, none, some, List, [],
  ◌∷◌, ◌++◌, leb, ltb, ◌==◌, if◌then◌else◌, String,
}
use normgate.Text.{Text, codes, text_eq, has_prefix, has_suffix, trim_prefix}
use normgate.Text.Utf8.{Bytes, utf8, byte_length}
use normgate.Json.{Value, null, bool, number, str, arr, obj, Fields, end, field, marshal}
use normgate.Json.Struct.{struct}
use normgate.Json.Decimal.Parse.{atoi}
use normgate.Contracts.{int_value}
use normgate.Contracts.Validation.{
  SchemaMap, or_error, result_of, decode_contract, validate, trim_suffix,
}
use normgate.Policy.{Error, foreign_error, Try, ok, err, panic, ◌>>=◌, ◌>>◌, require}
use normgate.Policy.Bundle.Inspect.{trim_space}
use normgate.Policy.Sources.{is_abs}
use normgate.Normalization.Encode.{in_order}
use normgate.Normalization.Decode
use normgate.Normalization.Decode.{decode, max_bytes, max_depth}
use normgate.Yaml.{Node, Nodes, node, nil, cons, is_alias, is_scalar, is_plain_tag}

-- The Error of the package.
abbrev pub config_error : String → Error
config_error code = foreign_error (codes "configuration: " ++ codes code)

-- Config: the API key is not exported.
pub record Config : Type 0 where
  pub schema_version : Text
  pub listen_address : Text
  pub policy_source : Text
  pub request_timeout_ms : ℤ
  pub fail_closed : Bool
  pub api_key : Text

-- v1.Configuration
pub record Configuration : Type 0 where
  pub schema_version : Text
  pub listen_address : Text
  pub policy_source : Text
  pub request_timeout_ms : ℤ
  pub fail_closed : Bool
  pub api_key : Text
  pub extensions : Option Fields

-- A file that a reference names: whether it is regular, its size, and what can be read of it.
pub record SecretFile : Type 0 where
  pub is_regular : Bool
  pub size : ℤ
  pub content : Option Text

-- What url.Parse reads of the source of policies.
pub record Location : Type 0 where
  pub scheme : Text
  pub has_user : Bool
  pub host : Text
  pub hostname : Text
  pub path : Text
  pub opaque : Text
  pub raw_query : Text
  pub fragment : Text

pub record System : Type 0 where
  pub lookup_env : Text → Option Text
  pub open_secret : Text → Option SecretFile
  pub split_host_port : Text → Option (Text × Text)
  pub parse_url : Text → Option Location
  pub read_document : Text → Option Node
  pub node_value : Node → Option Value
  pub has_second_document : Text → Bool
  pub unmarshal : Bytes → Option Configuration

abbrev is_letter : ℕ → Bool
is_letter c = (leb b'a' c && leb c b'z') || (leb b'A' c && leb c b'Z') || c == b'_'

abbrev pub is_name_rune : ℕ → Bool
is_name_rune c = is_letter c || (leb b'0' c && leb c b'9')

abbrev pub is_path_rune : ℕ → Bool
is_path_rune c = not (c == b'}')

-- The text before a closing brace, which is the last character, if its characters pass the test.
unfoldable pub braced : (ℕ → Bool) → Text → Option Text
braced p [] = none
braced p (c ∷ []) = if c == b'}' then some [] else none
braced p (c ∷ d ∷ s) = elim (braced p (d ∷ s)) [
  | none ↦ none
  | some r ↦ if p c then some (c ∷ r) else none
]

abbrev starts : Option Text → (ℕ → Bool) → Option Text
starts none p = none
starts (some []) p = none
starts (some (c ∷ s)) p = if p c then some (c ∷ s) else none

-- The group of environmentReference.
unfoldable pub environment_reference : Text → Option Text
unfolding braced
environment_reference s =
    if has_prefix s (codes "${ENV:")
    then starts (braced is_name_rune (trim_prefix s (codes "${ENV:"))) is_letter
    else none

-- The group of fileReference.
unfoldable pub file_reference : Text → Option Text
unfolding braced
file_reference s =
    if has_prefix s (codes "${FILE:")
    then starts (braced is_path_rune (trim_prefix s (codes "${FILE:"))) is_path_rune
    else none

-- strings.Contains(s, "${")
unfoldable pub has_reference : Text → Bool
has_reference [] = false
has_reference (c ∷ s) = has_prefix (c ∷ s) (codes "${") || has_reference s

abbrev fits : ℤ → Bool
fits (pos n) = leb n 65536
fits (negsuc n) = true

-- The content of a file without its last line break.
unfoldable pub secret : SecretFile → Try Text
unfolding trim_suffix
secret file = do
  require (file.is_regular && fits file.size) (config_error "invalid_secret_file")
  content ← result_of (config_error "secret_unavailable") file.content
  require (leb (byte_length content) 65536) (config_error "secret_unavailable")
  ok (trim_suffix (codes "\r") (trim_suffix (codes "\n") content))

-- inspectYAML
unfoldable mutual
  pub inspect_yaml : ℕ → Node → Try (Unit {0})
  inspect_yaml depth (node kind tag anchor value children) =
      let rest = inspect_nodes (suc depth) children in
      if ltb max_depth depth
      then err (config_error "depth_limit")
      else if is_alias kind || not (text_eq anchor [])
      then err (config_error "yaml_alias")
      else if is_scalar kind && not (is_plain_tag tag)
      then err (config_error "yaml_tag")
      else rest

  pub inspect_nodes : ℕ → Nodes → Try (Unit {0})
  inspect_nodes depth nil = ok tt
  inspect_nodes depth (cons n ns) = do inspect_yaml depth n; inspect_nodes depth ns

-- object[key] = value
unfoldable pub set_field : Text → Value → Fields → Fields
set_field k v end = field k v end
set_field k v (field j w fs) =
    let rest = set_field k v fs in if text_eq j k then field j v fs else field j w rest

unfoldable pub override : Fields → Fields → Fields
override fs end = fs
override fs (field k v os) = override (set_field k v fs) os

abbrev pub expect_object : Value → Try Fields
expect_object (obj fs) = ok fs
expect_object v = err (config_error "expected_object")

abbrev is_json : Text → Bool
is_json [] = false
is_json (c ∷ s) = c == b'{' || c == b'['

abbrev is_port : Option ℤ → Bool
is_port (some (pos n)) = leb 1 n && leb n 65535
is_port _ = false

unfoldable pub is_local : Location → Bool
unfolding is_abs text_eq
is_local u = text_eq u.host [] && is_abs u.path

unfoldable pub is_remote : Location → Bool
unfolding text_eq
is_remote u = not (text_eq u.hostname []) && text_eq u.opaque []

-- The tests on the source of policies.
unfoldable pub is_source : Location → Bool
unfolding is_local is_remote text_eq
is_source u =
    not u.has_user
    && text_eq u.fragment []
    && text_eq u.raw_query []
    && (if text_eq u.scheme (codes "file")
        then is_local u
        else text_eq u.scheme (codes "https") && is_remote u)

abbrev pub configuration_keys : List Text
configuration_keys =
    codes "schema_version"
    ∷ codes "listen_address"
    ∷ codes "policy_source"
    ∷ codes "request_timeout_ms"
    ∷ codes "fail_closed"
    ∷ []

abbrev pub setting_fields : Config → List (Option Value)
setting_fields c =
    some (str c.schema_version)
    ∷ some (str c.listen_address)
    ∷ some (str c.policy_source)
    ∷ some (int_value c.request_timeout_ms)
    ∷ some (bool c.fail_closed)
    ∷ []

-- Config.String: json.Marshal writes the exported fields.
unfoldable pub string_of : Config → Text
string_of c = marshal (obj (struct configuration_keys (setting_fields c)))

-- The JSON of the v1.Configuration that Validate checks.
unfoldable pub configuration_value : Config → Value
configuration_value c = obj (
    struct (configuration_keys ++ codes "api_key" ∷ [])
      (setting_fields c ++ some (str c.api_key) ∷ []))

module _ (Y : System) (D : Decode.Packages) (compiled : Option SchemaMap) where
  unfoldable pub resolve_environment : Option Text → Try Text
  unfolding text_eq
  resolve_environment none = err (config_error "missing_environment")
  resolve_environment (some s) =
      if text_eq s [] then err (config_error "missing_environment") else ok s

  unfoldable pub resolve_file : Text → Try Text
  unfolding secret
  resolve_file path = do
    require (is_abs path) (config_error "relative_secret_path")
    file ← result_of (config_error "secret_unavailable") (Y.open_secret path)
    secret file

  -- resolve
  unfoldable pub resolve : Text → Try Text
  unfolding resolve_environment resolve_file
  resolve value = elim (environment_reference value) [
    | some name ↦ resolve_environment (Y.lookup_env name)
    | none ↦ elim (file_reference value) [
      | some path ↦ resolve_file path
      | none ↦ if has_reference value then err (config_error "invalid_reference") else ok value
    ]
  ]

  -- The values of the object that are strings are resolved.
  unfoldable pub resolve_fields : Fields → Try Fields
  unfolding resolve
  resolve_fields end = ok end
  resolve_fields (field k (str s) fs) = do
    r ← resolve s
    gs ← resolve_fields fs
    ok (field k (str r) gs)
  resolve_fields (field k v fs) = do gs ← resolve_fields fs; ok (field k v gs)

  unfoldable pub read_yaml : Text → Try Value
  unfolding inspect_yaml
  read_yaml text = do
    document ← result_of (config_error "invalid_yaml") (Y.read_document text)
    inspect_yaml 0 document
    value ← result_of (config_error "invalid_yaml") (Y.node_value document)
    require (not (Y.has_second_document text)) (config_error "multiple_documents")
    ok value

  -- JSON or YAML, by the first character.
  unfoldable pub read_value : Text → Try Value
  unfolding read_yaml
  read_value text =
      if is_json (trim_space text)
      then or_error (config_error "invalid_json") (decode D (utf8 text))
      else read_yaml text

  -- Validate
  unfoldable pub validate_config : Config → Try (Unit {0})
  unfolding is_source configuration_value
  validate_config c = do
    or_error (config_error "invalid_configuration")
        (validate D compiled (codes "configuration") (utf8 (marshal (configuration_value c))))
    address ← result_of (config_error "invalid_listen_address") (Y.split_host_port c.listen_address)
    require (is_port (atoi address.1)) (config_error "invalid_listen_address")
    location ← result_of (config_error "invalid_policy_source") (Y.parse_url c.policy_source)
    require (is_source location) (config_error "invalid_policy_source")

  abbrev pub config_of : Configuration → Config
  config_of raw = record {
    schema_version = raw.schema_version;
    listen_address = raw.listen_address;
    policy_source = raw.policy_source;
    request_timeout_ms = raw.request_timeout_ms;
    fail_closed = raw.fail_closed;
    api_key = raw.api_key;
  }

  -- Load
  unfoldable pub load : Text → Fields → Try Config
  unfolding read_value override resolve_fields validate_config
  load text overrides = do
    require (leb (byte_length text) max_bytes) (config_error "size_limit")
    value ← read_value text
    object ← expect_object value
    resolved ← resolve_fields (override object overrides)
    raw ← or_error (config_error "invalid_configuration") (
        decode_contract D compiled Y.unmarshal (codes "configuration")
          (utf8 (marshal (in_order (obj resolved)))))
    validate_config (config_of raw)
    ok (config_of raw)
