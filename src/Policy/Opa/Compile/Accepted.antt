-- ===== src/Policy/Opa/Compile/Accepted.antt =====
-- Proofs on Compile: the modules that it accepts.
use normgate.Prelude.{
  ◌≡◌, ◌≤◌, inl, inr, true, some, List, arith, All, keep_if, All-imp, All-of_all,
}
use normgate.Text.{Text, contains}
use normgate.Policy.{ok, Try-cases}
use normgate.Policy.Bundle.Files.{Files}
use normgate.Policy.Bundle.Inspect.{Layer, Report}
use normgate.Policy.Opa.{max_rules}
use normgate.Policy.Opa.Rules.{Graph, is_shallow, is_reached}
use normgate.Policy.Opa.Lint.{Module}
use normgate.Policy.Opa.Compile.{
  Rego, given, Cancelled, nothing_parsed, check_modules, build_queries, accept,
}
use normgate.Policy.Opa.Compile.Gathered.{
  rule_count, HasDefault, is_module, module_names, accept-given, holds-some, IsChecked,
  nothing-Gathers, check_modules-Gathers,
}

module _ (R : Rego) (report : Report) (files : Files) where
  -- What Compile has checked when it prepares the queries.
  pub record IsAccepted : Type 0 where
    pub modules : List (Text × Module)
    pub all_modules : module_names modules ≡ keep_if is_module report.files
    pub checked : All (λ (e : Text × Module). IsChecked R report files e.0 e.1) modules
    pub few_rules : rule_count modules ≤ max_rules
    pub defaults : All (λ (l : Layer). HasDefault modules l.namespace) report.layers
    pub graph : Graph
    pub program : R.Program
    pub compiled : R.compile modules ≡ given (graph, program)
    pub shallow : is_shallow graph ≡ some true
    pub reached : is_reached graph ≡ some true

  -- Queries are prepared only for modules that are exactly the .rego files, that nest at most 64
  -- deep, parse, belong to the namespace of a layer and have no finding; with at most 2048 rules and
  -- a default for each layer; and whose compiled rules pass the checks of depth and reachability.
  pub build_queries-IsAccepted :
      (cancelled : Cancelled) (qs : List R.Query)
      → build_queries R cancelled report files ≡ ok qs
      → IsAccepted
  unfolding build_queries
  build_queries-IsAccepted cancelled qs h =
      elim (Try-cases (check_modules R report files report.files nothing_parsed)) [
        | inr e ↦ absurd (ground arith)
        | inl (p, e) ↦ elim (Try-cases (accept (R.compile p.modules))) [
          | inr f ↦ absurd (ground arith)
          | inl ((graph, program), f) ↦
              let (g, l) =
                check_modules-Gathers R report files report.files nothing_parsed p e
                  (nothing-Gathers R report files) in
              record {
                modules = p.modules;
                all_modules = l;
                checked = g.checked;
                few_rules = ground (arith, g.counted);
                defaults =
                    All-imp (λ (k : Layer). contains p.defaults k.namespace ≡ true)
                      (λ (k : Layer). HasDefault p.modules k.namespace)
                      (λ k. g.defaulted k.namespace) report.layers
                      (All-of_all (λ (k : Layer). contains p.defaults k.namespace) report.layers
                        (ground arith));
                graph = graph;
                program = program;
                compiled = accept-given (R.compile p.modules) f;
                shallow = holds-some (is_shallow graph) (ground arith);
                reached = holds-some (is_reached graph) (ground arith);
              }
        ]
      ]
