-- ===== src/Policy/Opa.antt =====
-- Package opa (internal/policy/opa/engine.go): the engine over the embedded evaluator of Rego.
pub mod Compile
pub mod Lint
pub mod Revisions
pub mod Rules
pub mod Syntax
use normgate.Prelude.{ℕ}

abbrev pub max_rule_depth : ℕ
max_rule_depth = 64

abbrev pub max_rules : ℕ
max_rules = 2048

abbrev pub max_revisions : ℕ
max_revisions = 128
