-- ===== src/Tests/Opa.antt =====
-- Runs of internal/policy/opa/engine.go, over an evaluator that gives every module the same rules.
use normgate.Prelude.{
  ap, ◌≡◌, refl, ◌⊎◌, ◌↔◌, ℕ, Bool, true, false, some, [], ◌∷◌, all, All, leb, length, arith,
  if◌then◌else◌, ◌==◌, increment, decrement,
}
use normgate.Text.{Text, codes, text_eq, has_prefix, has_suffix, contains, trim_prefix}
use normgate.Text.Utf8.{Bytes}
use normgate.Policy.{Try, ok}
use normgate.Policy.Composition.{zero_digest}
use normgate.Policy.Bundle.Files.{Files, find_file, file_of, put_file}
use normgate.Policy.Bundle.Inspect.{Report}
use normgate.Policy.Bundle.Seal.{seal, sealed_files}
use normgate.Policy.Opa.{max_rule_depth}
use normgate.Policy.Opa.Syntax.{bounded_syntax, scan, scan_byte, scan_code, opens, closes}
use normgate.Policy.Opa.Syntax.Lexing.{code, code_of}
use normgate.Policy.Opa.Syntax.Nesting.{NestsWithin, bounded_syntax_iff}
use normgate.Policy.Opa.Rules.{
  Rule, Graph, depth, depth_in, deepest, max, are_shallow, is_shallow, visit, visit_rules, is_in,
  visit_entries, is_reached,
}
use normgate.Policy.Opa.Rules.Depths.{AreHeights, highest, is_shallow_heights}
use normgate.Policy.Opa.Rules.Reached.{IsReached, is_reached_iff}
use normgate.Policy.Opa.Lint.{
  Module, lint, lint_term, lint_terms, lint_refs, lint_calls, is_reason_of, string_term,
}
use normgate.Policy.Opa.Compile.{
  Rego, given, Cancelled, namespace_of, is_owned, add_module, check_module, check_modules,
  prepare_queries, build_queries,
}
use normgate.Policy.Opa.Compile.Accepted.{IsAccepted, build_queries-IsAccepted}
use normgate.Policy.Opa.Revisions.{
  Prepared, State, new, find_revision, put_revision, publish, close, prepare_revision, compile,
}
use normgate.Policy.Opa.Revisions.Steps.{
  Transitions, stay, then_step, publishing, closing, IsWellFormed, steps-IsWellFormed,
}
use normgate.Policy.Opa.Revisions.Compiled.{compile_revision}
use normgate.Tests.Archive.{files, out, report, no_digest, decoders, same_order, seal_run}

-- Rule 0 is an entry point that uses rule 1.
abbrev graph : Graph
graph = record {
  rules =
      record { id = 0; name = codes "decisions" } ∷ record { id = 1; name = codes "helper" } ∷ [];
  dependencies = λ r. if r == 0 then 1 ∷ [] else [];
}

abbrev module_of : Module
module_of = record {
  path = codes "data.org.base";
  terms = string_term (codes "ng.policy.blocked") ∷ [];
  refs = codes "input.operation" ∷ [];
  calls = codes "eq" ∷ [];
  rules = record { is_default = true; name = codes "decisions" } ∷ [];
}

abbrev pub toy_rego : Rego
toy_rego = record {
  Program = Unit;
  Store = Unit;
  Query = Unit;
  parse = λ name raw. given module_of;
  compile = λ ms. given (graph, tt);
  store = λ raw. some tt;
  prepare = λ p s ns. given tt;
  is_obligation = λ raw. true;
}

abbrev pub uncancelled : Cancelled
uncancelled = record {
  at_start = false;
  when_cached = false;
  after_rules = false;
  after_queries = false;
}

abbrev heights : ℕ → ℕ
heights r = if r == 0 then 2 else 1

heights-AreHeights : AreHeights graph.dependencies (length graph.rules) heights
unfolding highest max
heights-AreHeights = record { above = λ r. ground arith; bounded = λ r. ground arith }

abbrev text : Bytes
text = codes "a{ \"{{{\" } # ((("

bounded_syntax_iff_example :
    (bounded_syntax text ≡ true) ↔ NestsWithin max_rule_depth (code_of code text)
bounded_syntax_iff_example = bounded_syntax_iff text

is_shallow_heights_example :
    is_shallow graph ≡ some (all (λ (r : Rule). leb (heights r.id) max_rule_depth) graph.rules)
is_shallow_heights_example = is_shallow_heights graph heights heights-AreHeights

is_reached_iff_example :
    (b : Bool) × (is_reached graph ≡ some b)
    × ((b ≡ true) ↔ All (λ r. IsReached graph r.id) graph.rules)
is_reached_iff_example = is_reached_iff graph heights heights-AreHeights

build_run : build_queries toy_rego uncancelled report out ≡ ok (tt ∷ [])
unfolding build_queries check_modules check_module has_suffix bounded_syntax scan scan_byte
    scan_code opens closes increment decrement file_of find_file sealed_files put_file is_owned
    namespace_of trim_prefix has_prefix text_eq contains lint lint_calls lint_refs lint_term
    lint_terms is_reason_of add_module prepare_queries is_shallow are_shallow depth depth_in deepest
    max is_reached visit_entries visit visit_rules is_in
build_run = refl

build_queries-IsAccepted_example : IsAccepted toy_rego report out
build_queries-IsAccepted_example =
    build_queries-IsAccepted toy_rego report out uncancelled (tt ∷ []) build_run

abbrev prepared : Prepared toy_rego
prepared = record { report = report; queries = tt ∷ [] }

abbrev pub compiled : State toy_rego
compiled = record { revisions = (zero_digest, prepared) ∷ []; closed = false }

pub compile_run :
    compile {R = toy_rego} no_digest decoders same_order uncancelled new new files
    ≡ (ok zero_digest, compiled)
unfolding compile prepare_revision publish find_revision put_revision
compile_run = rw seal_run (rw build_run refl)

abbrev after : State toy_rego
after = (compile no_digest decoders same_order uncancelled new new files).1

compile_revision_example :
    (sealed : Files × Report) × (seal no_digest decoders same_order files ≡ ok sealed)
    × (zero_digest ≡ (sealed.1).revision)
    × ((after.closed ≡ true)
        ⊎ ((p : Prepared toy_rego) × (find_revision zero_digest after.revisions ≡ some p)))
compile_revision_example =
    compile_revision no_digest decoders same_order uncancelled new new files zero_digest (stay new)
      (ap (λ (x : Try Text × State toy_rego). x.0) compile_run)

abbrev published : State toy_rego
published = (publish prepared new).1

publishes_once : Transitions {R = toy_rego} new published
publishes_once = then_step new new published (stay new) (publishing prepared new)

new-IsWellFormed : IsWellFormed {R = toy_rego} new
new-IsWellFormed = record { bounded = omega arith; keyed = tt; distinct = tt; emptied = λ e. refl }

steps-IsWellFormed_example : IsWellFormed published
steps-IsWellFormed_example = steps-IsWellFormed new published publishes_once new-IsWellFormed

compiled_found : find_revision zero_digest compiled.revisions ≡ some prepared
unfolding find_revision text_eq
compiled_found = refl

closes_after : Transitions compiled (close compiled)
closes_after = then_step compiled compiled (close compiled) (stay compiled) (closing compiled)
