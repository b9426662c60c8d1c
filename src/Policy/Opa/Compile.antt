-- ===== src/Policy/Opa/Compile.antt =====
-- Compile of internal/policy/opa/engine.go up to the entry in the map of revisions. Packages ast,
-- rego and inmem of the third-party evaluator are the parameter `Rego`.
pub mod Gathered
pub mod Accepted
use normgate.Prelude.{
  ℕ, ◌+◌, Bool, true, false, ◌&&◌, ◌||◌, not, Option, none, some, List, [], ◌∷◌, ◌++◌,
  if◌then◌else◌, ltb, leb, length, any, all,
}
use normgate.Text.{Text, codes, text_eq, has_suffix, trim_prefix, contains}
use normgate.Text.Utf8.{Bytes}
use normgate.Policy.{
  Error, policy_error, context_error, failure, Try, ok, err, panic, ◌>>=◌, ◌>>◌, require,
}
use normgate.Policy.Bundle.Files.{Files, file_of}
use normgate.Policy.Bundle.Inspect.{Layer, Report}
use normgate.Policy.Opa.{max_rules}
use normgate.Policy.Opa.Syntax.{bounded_syntax}
use normgate.Policy.Opa.Rules.{Graph, is_shallow, is_reached}
use normgate.Policy.Opa.Lint.{Head, Module, Finding, lint}

-- An error of the parser or compiler: ast.Errors, the first with its location or without one, or
-- another error.
pub data Refusal : Type 0 where
  at : (file : Text) (row column : ℕ) → Refusal
  nowhere : Refusal
  other_error : Refusal

-- sanitized
unfoldable pub sanitized : Refusal → Error
sanitized (at file row column) = policy_error (codes "ng.policy.compile_error") file row column
sanitized nowhere = policy_error (codes "ng.policy.compile_error") [] 0 0
sanitized other_error = failure "compile_error"

-- A result of the evaluator's packages.
pub data Given (A : Type 0) : Type 0 where
  given : A → Given A
  refused : Refusal → Given A

pub record Rego : Type 1 where
  pub Program : Type 0
  pub Store : Type 0
  pub Query : Type 0
  pub parse : Text → Bytes → Given Module
  pub compile : List (Text × Module) → Given (Graph × Program)
  pub store : Bytes → Option Store
  pub prepare : Program → Store → Text → Given Query
  pub is_obligation : Bytes → Bool

-- Whether the context is cancelled at each of its tests.
pub record Cancelled : Type 0 where
  pub at_start : Bool
  pub when_cached : Bool
  pub after_rules : Bool
  pub after_queries : Bool

abbrev pub accept : {A : Type 0} → Given A → Try A
accept (given a) = ok a
accept (refused e) = err (sanitized e)

abbrev pub no_finding : Finding → Try (Unit {0})
no_finding none = ok tt
no_finding (some e) = err e

abbrev pub holds : Option Bool → Bool
holds (some b) = b
holds none = false

abbrev pub stored : {A : Type 0} → Option A → Try A
stored none = err (failure "invalid_data")
stored (some a) = ok a

-- module.Package.Path without "data."
unfoldable pub namespace_of : Module → Text
namespace_of m = trim_prefix m.path (codes "data.")

abbrev pub is_default_decisions : Head → Bool
is_default_decisions h = h.is_default && text_eq h.name (codes "decisions")

unfoldable pub is_owned : List Layer → Text → Bool
is_owned ls ns = any (λ (l : Layer). text_eq ns l.namespace) ls

-- The maps `modules` and `defaults`, and the number of rules.
pub record Parsed : Type 0 where
  pub modules : List (Text × Module)
  pub defaults : List Text
  pub rules : ℕ

abbrev pub nothing_parsed : Parsed
nothing_parsed = record { modules = []; defaults = []; rules = 0 }

unfoldable pub add_module : Text → Module → Parsed → Parsed
add_module name m p = record {
  modules = p.modules ++ (name, m) ∷ [];
  defaults = if any is_default_decisions m.rules then namespace_of m ∷ p.defaults else p.defaults;
  rules = p.rules + length m.rules;
}

module _ (R : Rego) where
  open R use {Program, Store, Query, parse, compile, store, prepare, is_obligation}

  -- One round of the loop over the modules.
  unfoldable pub check_module : Report → Text → Bytes → Try Module
  check_module report name raw = do
    require (bounded_syntax raw) (failure "rule_depth")
    m ← accept (parse name raw)
    require (is_owned report.layers (namespace_of m)) (failure "namespace_collision")
    no_finding (lint is_obligation report m)
    ok m

  unfoldable pub check_modules : Report → Files → List Text → Parsed → Try Parsed
  unfolding check_module
  check_modules report files [] p = ok p
  check_modules report files (name ∷ ns) p = elim (has_suffix name (codes ".rego")) [
    | false ↦ check_modules report files ns p
    | true ↦ elim (check_module report name (file_of name files)) [
      | ok m ↦ check_modules report files ns (add_module name m p)
      | err e ↦ err e
      | panic ↦ panic
    ]
  ]

  unfoldable pub prepare_queries : Program → Store → List Layer → Try (List Query)
  prepare_queries program base [] = ok []
  prepare_queries program base (l ∷ ls) = do
    q ← accept (prepare program base l.namespace)
    qs ← prepare_queries program base ls
    ok (q ∷ qs)

  -- What follows the test of the cache, on the sealed files.
  unfoldable pub build_queries : Cancelled → Report → Files → Try (List Query)
  build_queries cancelled report files = do
    p ← check_modules report files report.files nothing_parsed
    require (leb p.rules max_rules) (failure "rule_depth")
    require (all (λ (l : Layer). contains p.defaults l.namespace) report.layers)
        (failure "missing_default")
    c ← accept (compile p.modules)
    require (holds (is_shallow c.0)) (failure "rule_depth")
    require (holds (is_reached c.0)) (failure "unreachable_rule")
    require (not cancelled.after_rules) context_error
    base ← stored (store (file_of (codes "data.json") files))
    qs ← prepare_queries c.1 base report.layers
    require (not cancelled.after_queries) context_error
    ok qs
