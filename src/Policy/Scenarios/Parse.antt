-- ===== src/Policy/Scenarios/Parse.antt =====
-- ParseScenario and safeYAML of internal/policy/scenarios.go, and strictJSON of
-- internal/policy/bundle.go. The parser of YAML and the reading of a scenario from JSON are
-- parameters.
pub mod Safe
use normgate.Prelude.{
  ℕ, suc, ◌^◌, Bool, true, false, ◌&&◌, ◌||◌, not, Option, none, some, List, [], ◌∷◌, leb, ltb,
  if◌then◌else◌, length,
}
use normgate.Text.{Text, codes, text_eq, contains}
use normgate.Text.Utf8.{Bytes, utf8}
use normgate.Json.{Value, marshal}
use normgate.Policy.{Try, ok, err, panic, failure, ◌>>=◌, ◌>>◌, require}
use normgate.Policy.Scenarios.{Scenario}
use normgate.Contracts.Validation.{or_error, result_of}
use normgate.Normalization.Decode
use normgate.Normalization.Decode.{decode}
use normgate.Yaml.{Node, Nodes, node, nil, cons, is_alias, is_scalar, is_mapping, is_plain_tag}

-- The keys of a mapping, which are every other node, are strings and differ.
unfoldable mutual
  unfolding contains text_eq

  pub has_safe_keys : List Text → Nodes → Bool
  has_safe_keys seen nil = true
  has_safe_keys seen (cons (node kind tag anchor value children) ns) =
      let rest = skip_value (value ∷ seen) ns in
      if not (text_eq tag (codes "!!str")) || contains seen value then false else rest

  pub skip_value : List Text → Nodes → Bool
  skip_value seen nil = true
  skip_value seen (cons n ns) = has_safe_keys seen ns

-- safeYAML
unfoldable mutual
  unfolding has_safe_keys text_eq

  pub safe_yaml : ℕ → Node → Bool
  safe_yaml depth (node kind tag anchor value children) =
      let rest = are_safe (suc depth) children in
      if ltb 64 depth || is_alias kind || not (text_eq anchor [])
      then false
      else if is_scalar kind && not (is_plain_tag tag)
      then false
      else if is_mapping kind && not (has_safe_keys [] children)
      then false
      else rest

  pub are_safe : ℕ → Nodes → Bool
  are_safe depth nil = true
  are_safe depth (cons n ns) = safe_yaml depth n && are_safe depth ns

-- The package yaml, and the strict reading of JSON.
pub record ScenarioPackages (Event : Type 0) : Type 0 where
  pub read_document : Bytes → Option Node
  pub has_second_document : Bytes → Bool
  pub node_value : Node → Option Value
  pub read_strictly : Bytes → Option (Scenario Event)

-- strictJSON, where a decoder that refuses unknown fields reads a T
unfoldable pub strict_json {ℓ} : {T : Type ℓ} → Decode.Packages → (Bytes → Option T) → Bytes → Try T
strict_json D read raw = do
  _ ← or_error (failure "invalid_bundle") (decode D raw)
  result_of (failure "invalid_bundle") (read raw)

module _ {Event : Type 0} (D : Decode.Packages) (Y : ScenarioPackages Event) where
  -- ParseScenario
  unfoldable pub parse_scenario : Bytes → Try (Scenario Event)
  unfolding safe_yaml strict_json text_eq
  parse_scenario raw = do
    require (leb (length raw) (2 ^ 20)) (failure "invalid_scenario")
    document ← result_of (failure "invalid_scenario") (Y.read_document raw)
    require (not (Y.has_second_document raw)) (failure "invalid_scenario")
    require (safe_yaml 0 document) (failure "invalid_scenario")
    value ← result_of (failure "invalid_scenario") (Y.node_value document)
    scenario ←
        or_error (failure "invalid_scenario") (strict_json D Y.read_strictly (utf8 (marshal value)))
    require (not (text_eq scenario.id [])) (failure "invalid_scenario")
    ok scenario
