-- ===== src/Policy/Bundle/Inspect.antt =====
-- Inspect of internal/policy/bundle.go. What reads JSON into a Go type, after the schema where there
-- is one, is a parameter; `order` is the order in which a range over a map meets its entries.
pub mod Layers
pub mod Reports
use normgate.Prelude.{
  ℕ, suc, ℤ, int_eq, int_ltb, Bool, true, false, ◌&&◌, ◌||◌, not, Option, none, some, List, [], ◌∷◌,
  ◌++◌, map, if◌then◌else◌, leb, ltb, ◌==◌, any, all, length,
}
use normgate.Text.{Text, codes, text_eq, text_leb, has_prefix, contains}
use normgate.Text.Split.{split}
use normgate.Text.Utf8.{Bytes}
use normgate.Sort.{sort}
use normgate.Contracts.{PolicyManifest}
use normgate.Policy.{Try, ok, err, panic, failure, ◌>>=◌, ◌>>◌, require}
use normgate.Policy.Composition.{layer_names}
use normgate.Policy.Bundle.Dependencies.{Marks, nested, validate_dependencies}
use normgate.Policy.Bundle.Files.{Files, names, find_file, file_of, check_files}

pub record Layer : Type 0 where
  pub name : Text
  pub namespace : Text
  pub priority : ℤ

pub record Reason : Type 0 where
  pub description : Text
  pub remediation : Text

-- The decoders: contracts.Decode of a manifest, and strictJSON into each of the other types; of the
-- object in data.json only its keys are used.
pub record Decoders : Type 0 where
  pub manifest : Bytes → Option PolicyManifest
  pub raws : Bytes → Option (List Bytes)
  pub layers : Bytes → Option (List Layer)
  pub reasons : Bytes → Option (List (Text × Reason))
  pub keys : Bytes → Option (Option (List Text))

pub record Report : Type 0 where
  pub manifest : PolicyManifest
  pub revision : Text
  pub files : List Text
  pub layers : List Layer
  pub reasons : List (Text × Reason)
  pub signature_verified : Bool

abbrev is_lower : ℕ → Bool
is_lower c = leb 97 c && leb c 122

abbrev is_word : ℕ → Bool
is_word c = is_lower c || (leb 48 c && leb c 57) || c == 95

-- [a-z][a-z0-9_]*
unfoldable pub is_identifier : Text → Bool
is_identifier [] = false
is_identifier (c ∷ s) = is_lower c && all is_word s

-- namespacePattern
unfoldable pub is_namespace : Text → Bool
unfolding is_identifier
is_namespace s = all is_identifier (split b'.' s)

abbrev categories : List Text
categories =
    codes "validation"
    ∷ codes "authentication"
    ∷ codes "policy"
    ∷ codes "enforcement"
    ∷ codes "storage"
    ∷ codes "upstream"
    ∷ codes "internal"
    ∷ []

unfoldable pub is_reason_parts : List Text → Bool
is_reason_parts (ng ∷ category ∷ code ∷ []) =
    text_eq ng (codes "ng") && contains categories category && is_identifier code
is_reason_parts _ = false

-- reasonPattern
unfoldable pub is_reason : Text → Bool
unfolding is_reason_parts
is_reason s = is_reason_parts (split b'.' s)

-- unicode.IsSpace
abbrev is_space : ℕ → Bool
is_space c =
    (leb 9 c && leb c 13)
    || c == 32
    || c == 0x85
    || c == 0xa0
    || c == 0x1680
    || (leb 0x2000 c && leb c 0x200a)
    || c == 0x2028
    || c == 0x2029
    || c == 0x202f
    || c == 0x205f
    || c == 0x3000

unfoldable pub trim_left : Text → Text
trim_left [] = []
trim_left (c ∷ s) = if is_space c then trim_left s else c ∷ s

abbrev pub keep_right : ℕ → Text → Text
keep_right c [] = if is_space c then [] else c ∷ []
keep_right c (d ∷ s) = c ∷ d ∷ s

unfoldable pub trim_right : Text → Text
trim_right [] = []
trim_right (c ∷ s) = keep_right c (trim_right s)

-- strings.TrimSpace(s)
unfoldable pub trim_space : Text → Text
unfolding trim_left trim_right
trim_space s = trim_right (trim_left s)

-- The two tests on signing_identity.
unfoldable pub is_identity : Text → Bool
is_identity s =
    (text_eq s (codes "unsigned") || has_prefix s (codes "key:"))
    && not (text_eq (trim_space s) (codes "key:"))

-- slices.Index(xs, s), where the text is there
unfoldable pub index_of : List Text → Text → ℕ
index_of [] s = 0
index_of (x ∷ xs) s = if text_eq x s then 0 else suc (index_of xs s)

unfoldable pub layer_leb : Layer → Layer → Bool
layer_leb a b = leb (index_of layer_names a.name) (index_of layer_names b.name)

abbrev pub clashes : Layer → Layer → Bool
clashes l k = text_eq l.name k.name || int_eq l.priority k.priority

abbrev pub nests : Layer → Layer → Bool
nests l k = nested l.namespace k.namespace

-- A layer after those that were met before it.
unfoldable pub check_layer : List Text → List Layer → Layer → Try (Unit {0})
check_layer owned seen l =
    if not (contains layer_names l.name)
      || not (is_namespace l.namespace)
      || not (contains owned l.namespace)
      || any (clashes l) seen
    then err (failure "invalid_layers")
    else if any (nests l) seen
    then err (failure "namespace_collision")
    else ok tt

unfoldable pub check_layers : List Text → List Layer → List Layer → Try (Unit {0})
unfolding check_layer
check_layers owned seen [] = ok tt
check_layers owned seen (l ∷ ls) = do check_layer owned seen l; check_layers owned (l ∷ seen) ls

-- The last loop over the layers: the priorities rise.
unfoldable pub rises : List Layer → Bool
rises [] = true
rises (l ∷ []) = true
rises (l ∷ k ∷ ls) = int_ltb l.priority k.priority && rises (k ∷ ls)

abbrev is_complete : Text × Reason → Bool
is_complete (code, r) =
    is_reason code && not (text_eq r.description []) && not (text_eq r.remediation [])

abbrev pub owned_by : List PolicyManifest → List Text
owned_by [] = []
owned_by (m ∷ ms) = m.namespaces ++ owned_by ms

abbrev pub of_option {ℓ} : {A : Type ℓ} → Option A → Try A → Try A
of_option (some a) r = ok a
of_option none r = r

-- The error of ValidateDependencies; its fuel is never used up.
abbrev pub verdict : Option (Try Marks) → Try (Unit {0})
verdict (some (ok marks)) = ok tt
verdict (some (err e)) = err e
verdict (some panic) = panic
verdict none = panic

abbrev pub is_config : Option (List Text) → Bool
is_config none = false
is_config (some keys) = all (λ k. text_eq k (codes "config")) keys

module _ (decoders : Decoders) where
  -- ParseManifest
  unfoldable pub parse_manifest : Bytes → Try PolicyManifest
  parse_manifest raw = of_option (decoders.manifest raw) (err (failure "invalid_manifest"))

  unfoldable pub parse_manifests : List Bytes → Try (List PolicyManifest)
  unfolding parse_manifest
  parse_manifests [] = ok []
  parse_manifests (raw ∷ raws) = do m ← parse_manifest raw; ms ← parse_manifests raws; ok (m ∷ ms)

  unfoldable pub read_dependencies : Option Bytes → Try (List PolicyManifest)
  read_dependencies none = ok []
  read_dependencies (some raw) = do
    raws ← of_option (decoders.raws raw) (err (failure "invalid_manifest"))
    parse_manifests raws

  unfoldable pub read_layers : List PolicyManifest → Files → Try (List Layer)
  read_layers manifests files = do
    layers ←
        of_option (decoders.layers (file_of (codes "layers.json") files))
          (err (failure "invalid_layers"))
    require (not (length layers == 0) && leb (length layers) 32) (failure "invalid_layers")
    check_layers (owned_by manifests) [] layers
    require (contains (map (λ (l : Layer). l.name) layers) (codes "baseline"))
        (failure "missing_baseline")
    require (rises (sort layer_leb layers)) (failure "invalid_layers")
    ok (sort layer_leb layers)

  unfoldable pub read_reasons : Files → Try (List (Text × Reason))
  read_reasons files = do
    reasons ←
        of_option (decoders.reasons (file_of (codes "reasons.json") files))
          (err (failure "invalid_reasons"))
    require (not (length reasons == 0) && all is_complete reasons) (failure "invalid_reasons")
    ok reasons

  unfoldable pub check_data : Files → Try (Unit {0})
  check_data files = do
    keys ←
        of_option (decoders.keys (file_of (codes "data.json") files)) (err (failure "invalid_data"))
    require (is_config keys) (failure "invalid_data")

  -- Inspect
  unfoldable pub inspect : (List PolicyManifest → List PolicyManifest) → Files → Try Report
  inspect order files = do
    check_files files
    m ← parse_manifest (file_of (codes "manifest.json") files)
    deps ← read_dependencies (find_file (codes "dependencies.json") files)
    verdict (validate_dependencies order (m ∷ deps))
    require (is_identity m.signing_identity) (failure "invalid_signing_identity")
    layers ← read_layers (m ∷ deps) files
    reasons ← read_reasons files
    check_data files
    ok (record {
      manifest = m;
      revision = m.build_digest;
      files = sort text_leb (names files);
      layers = layers;
      reasons = reasons;
      signature_verified = false;
    })
