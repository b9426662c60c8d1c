-- ===== src/Contracts/Validation.antt =====
-- internal/contracts/validate.go: validation by the embedded schemas. The compiler of schemas, a
-- third-party package, is a parameter.
pub mod Accepted
use normgate.Prelude.{
  String, Bool, true, false, not, Option, none, some, List, [], ◌∷◌, ◌++◌, if◌then◌else◌,
}
use normgate.Text.{Text, codes, text_eq, has_prefix, has_suffix}
use normgate.Text.Utf8.{Bytes}
use normgate.Json.{Value, str, obj, Fields, end, field}
use normgate.Policy.{Error, foreign_error, Try, ok, err, panic, ◌>>=◌, ◌>>◌, require}
use normgate.Normalization.Decode
use normgate.Normalization.Decode.{decode}

-- The Error of the package.
abbrev pub contract_error : String → Error
contract_error code = foreign_error (codes "contract validation: " ++ codes code)

-- Whether a schema accepts a value.
abbrev pub Schema : Type 0
Schema = Value → Bool

abbrev pub SchemaMap : Type 0
SchemaMap = List (Text × Schema)

-- A jsonschema.Compiler that asserts formats and loads nothing from elsewhere.
pub record Compiler : Type 1 where
  pub State : Type 0
  pub new : State
  pub add_resource : State → Text → Value → Option State
  pub compile : State → Text → Option (Schema × State)

-- The embedded files.
pub record SchemaFiles : Type 0 where
  pub entries : Option (List Text)
  pub read_file : Text → Option Bytes
  pub unmarshal : Bytes → Option Value

abbrev schema_url : Text → Text
schema_url name = codes "https://normgate.dev/schemas/v1/" ++ name

abbrev schema_suffix : Text
schema_suffix = codes ".schema.json"

-- strings.TrimSuffix(s, p)
unfoldable pub trim_suffix : Text → Text → Text
unfolding text_eq
trim_suffix p [] = []
trim_suffix p (c ∷ s) = if text_eq (c ∷ s) p then [] else c ∷ trim_suffix p s

-- result[name] = schema
unfoldable pub put_schema : Text → Schema → SchemaMap → SchemaMap
put_schema name schema [] = (name, schema) ∷ []
put_schema name schema ((n, s) ∷ m) =
    if text_eq n name then (name, schema) ∷ m else (n, s) ∷ put_schema name schema m

unfoldable pub find_schema : Text → SchemaMap → Option Schema
find_schema name [] = none
find_schema name ((n, s) ∷ m) = if text_eq n name then some s else find_schema name m

infixl 5 ◌>>?◌
abbrev ◌>>?◌ {ℓ κ} : {A : Type ℓ} {B : Type κ} → Option A → (A → Option B) → Option B
none >>? f = none
some a >>? f = f a

module _ (C : Compiler) (files : SchemaFiles) where
  -- The loop that adds the resources.
  unfoldable pub add_resources : List Text → C.State → Option C.State
  add_resources [] c = some c
  add_resources (name ∷ names) c = files.read_file (codes "v1/" ++ name) >>? λ raw.
      files.unmarshal raw >>? λ value.
      C.add_resource c (schema_url name) value >>? λ c'. add_resources names c'

  -- The loop that compiles them.
  unfoldable pub compile_schemas : List Text → C.State → SchemaMap → Option SchemaMap
  compile_schemas [] c result = some result
  compile_schemas (name ∷ names) c result =
      C.compile c (schema_url name) >>? λ (p : Schema × C.State).
      compile_schemas names p.1 (put_schema (trim_suffix schema_suffix name) p.0 result)

  -- compileBundle
  unfoldable pub compile_bundle : Option SchemaMap
  unfolding add_resources compile_schemas
  compile_bundle =
      files.entries >>? λ names. add_resources names C.new >>? λ c. compile_schemas names c []

-- object[key]
unfoldable pub find_field : Text → Fields → Option Value
find_field k end = none
find_field k (field j v fs) = if text_eq j k then some v else find_field k fs

abbrev is_version_1 : Option Value → Bool
is_version_1 (some (str s)) = has_prefix s (codes "1.")
is_version_1 _ = true

-- The test on schema_version.
unfoldable pub is_supported : Value → Bool
unfolding find_field
is_supported (obj fs) = is_version_1 (find_field (codes "schema_version") fs)
is_supported v = true

unfoldable pub schemas_of : Option SchemaMap → Try SchemaMap
schemas_of none = err (contract_error "schema_unavailable")
schemas_of (some m) = ok m

unfoldable pub schema_of : Option Schema → Try Schema
schema_of none = err (contract_error "unknown_schema")
schema_of (some s) = ok s

-- An error of any kind becomes the given one.
abbrev pub or_error {ℓ} : {A : Type ℓ} → Error → Try A → Try A
or_error e (ok a) = ok a
or_error e (err x) = err e
or_error e panic = panic

abbrev pub result_of {ℓ} : {A : Type ℓ} → Error → Option A → Try A
result_of e none = err e
result_of e (some a) = ok a

module _ (D : Decode.Packages) (compiled : Option SchemaMap) where
  -- Validate
  unfoldable pub validate : Text → Bytes → Try (Unit {0})
  unfolding schemas_of schema_of is_supported
  validate name raw = do
    schemas ← schemas_of compiled
    schema ← schema_of (find_schema name schemas)
    value ← or_error (contract_error "invalid_json") (decode D raw)
    require (is_supported value) (contract_error "unsupported_version")
    require (schema value) (contract_error "invalid_contract")

  -- Decode[T], where json.Unmarshal reads a T
  unfoldable pub decode_contract {ℓ} : {T : Type ℓ} → (Bytes → Option T) → Text → Bytes → Try T
  unfolding validate
  decode_contract unmarshal name raw = do
    validate name raw
    result_of (contract_error "type_mismatch") (unmarshal raw)
