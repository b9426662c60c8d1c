-- ===== src/Policy/Opa/Compile/Gathered.antt =====
-- Proofs on Compile: what the loop over the modules gathers.
use normgate.Prelude.{
  ◌≡◌, refl, sym, ap, ◌∙◌, ◌+◌, ◌⊎◌, inl, inr, ℕ, Bool, true, Option, none, some, List, [], ◌∷◌,
  ◌++◌, arith, Bool-cases, length, subst, if-cases, if◌then◌else◌, All, Elem, any, map, keep_if,
  All-append, Elem-append,
}
use mathlib.Core.List.{append-nil}
use normgate.Text.{Text, codes, text_eq, text_eq→eq, has_suffix, contains}
use normgate.Policy.{ok, Try-cases}
use normgate.Policy.Bundle.Files.{Files, file_of}
use normgate.Policy.Bundle.Inspect.{Report}
use normgate.Policy.Opa.Syntax.{bounded_syntax}
use normgate.Policy.Opa.Lint.{Finding, Module, lint}
use normgate.Policy.Opa.Compile.{
  Rego, Given, given, refused, Parsed, nothing_parsed, add_module, namespace_of, is_owned,
  check_module, check_modules, holds, accept, no_finding, is_default_decisions,
}

unfoldable pub rule_count : List (Text × Module) → ℕ
rule_count [] = 0
rule_count ((name, m) ∷ ms) = length m.rules + rule_count ms

-- A module of the namespace has a default for "decisions".
pub record HasDefault (modules : List (Text × Module)) (ns : Text) : Type 0 where
  pub entry : Text × Module
  pub member : Elem entry modules
  pub named : namespace_of (entry.1) ≡ ns
  pub default : any is_default_decisions (entry.1).rules ≡ true

abbrev pub is_module : Text → Bool
is_module name = has_suffix name (codes ".rego")

abbrev pub module_names : List (Text × Module) → List Text
module_names ms = map (λ (e : Text × Module). e.0) ms

pub accept-given : {A : Type 0} (g : Given A) {a : A} → accept g ≡ ok a → g ≡ given a
accept-given (given x) h = cc
accept-given (refused e) h = cc

rule_count-append :
    (ms : List (Text × Module)) (name : Text) (m : Module)
    → rule_count (ms ++ (name, m) ∷ []) ≡ rule_count ms + length m.rules
unfolding rule_count
rule_count-append [] name m = omega arith
rule_count-append ((n, k) ∷ ms) name m = omega (arith, rule_count-append ms name m)

module_names-append :
    (ms : List (Text × Module)) (name : Text) (m : Module) (ns : List Text)
    → module_names (ms ++ (name, m) ∷ []) ++ ns ≡ module_names ms ++ (name ∷ ns)
module_names-append [] name m ns = refl
module_names-append ((n, k) ∷ ms) name m ns = ap (λ x. n ∷ x) (module_names-append ms name m ns)

HasDefault-append :
    (ms : List (Text × Module)) (name : Text) (m : Module) (ns : Text)
    → HasDefault ms ns
    → HasDefault (ms ++ (name, m) ∷ []) ns
HasDefault-append ms name m ns d = record {
  entry = d.entry;
  member = Elem-append d.entry ms ((name, m) ∷ []) (inl d.member);
  named = d.named;
  default = d.default;
}

contains-cons :
    (x s : Text) (xs : List Text) → contains (x ∷ xs) s ≡ true → (x ≡ s) ⊎ (contains xs s ≡ true)
unfolding contains
contains-cons x s xs h = elim (Bool-cases (text_eq s x)) [
  | inl e ↦ inl (sym (text_eq→eq s x e))
  | inr e ↦ inr (ground (arith, e))
]

new_default :
    (name : Text) (m : Module) (ms : List (Text × Module)) (defaults : List Text) (ns : Text)
    → ((n : Text) → contains defaults n ≡ true → HasDefault ms n)
    → contains (if any is_default_decisions m.rules then namespace_of m ∷ defaults else defaults) ns
      ≡ true
    → HasDefault (ms ++ (name, m) ∷ []) ns
new_default name m ms defaults ns f =
    if-cases (λ ds. contains ds ns ≡ true → HasDefault (ms ++ (name, m) ∷ []) ns)
      (any is_default_decisions m.rules)
      (λ d h. elim (contains-cons (namespace_of m) ns defaults h) [
        | inl e ↦ record {
          entry = (name, m);
          member = Elem-append (name, m) ms ((name, m) ∷ []) (inr (inl refl));
          named = e;
          default = d;
        }
        | inr k ↦ HasDefault-append ms name m ns (f ns k)
      ])
      (λ d h. HasDefault-append ms name m ns (f ns h))

pub holds-some : (o : Option Bool) → holds o ≡ true → o ≡ some true
holds-some none h = cc
holds-some (some b) h = ap some h

no_finding-none : (o : Finding) → no_finding o ≡ ok tt → o ≡ none
no_finding-none none h = refl
no_finding-none (some e) h = cc

module _ (R : Rego) (report : Report) (files : Files) where
  -- A module that passed the checks of the loop.
  pub record IsChecked (name : Text) (m : Module) : Type 0 where
    pub nested : bounded_syntax (file_of name files) ≡ true
    pub parsed : R.parse name (file_of name files) ≡ given m
    pub owned : is_owned report.layers (namespace_of m) ≡ true
    pub clean : lint R.is_obligation report m ≡ none

  -- What the loop gathers.
  pub record Gathers (p : Parsed) : Type 0 where
    pub checked : All (λ (e : Text × Module). IsChecked e.0 e.1) p.modules
    pub counted : p.rules ≡ rule_count p.modules
    pub defaulted : (ns : Text) → contains p.defaults ns ≡ true → HasDefault p.modules ns

  check_module-IsChecked :
      (name : Text) (m : Module)
      → check_module R report name (file_of name files) ≡ ok m
      → IsChecked name m
  unfolding check_module
  check_module-IsChecked name m h = elim (Try-cases (accept (R.parse name (file_of name files)))) [
    | inr e ↦ absurd (ground arith)
    | inl (k, e) ↦
        let same : k ≡ m = ground arith in
        record {
          nested = ground arith;
          parsed = accept-given (R.parse name (file_of name files)) (e ∙ ap ok same);
          owned = ap (λ x. is_owned report.layers (namespace_of x)) (sym same) ∙ ground arith;
          clean =
              ap (lint R.is_obligation report) (sym same)
              ∙ no_finding-none (lint R.is_obligation report k) (ground arith);
        }
  ]

  add_module-Gathers :
      (name : Text) (m : Module) (p : Parsed)
      → IsChecked name m
      → Gathers p
      → Gathers (add_module name m p)
  unfolding add_module
  add_module-Gathers name m p c g = record {
    checked = All-append (λ e. IsChecked e.0 e.1) p.modules ((name, m) ∷ []) g.checked (c, tt);
    counted = omega (arith, g.counted, rule_count-append p.modules name m);
    defaulted = λ ns. new_default name m p.modules p.defaults ns g.defaulted;
  }

  pub nothing-Gathers : Gathers nothing_parsed
  unfolding contains rule_count
  nothing-Gathers = record {
    checked = tt;
    counted = refl;
    defaulted = λ ns h. absurd (ground arith);
  }

  pub check_modules-Gathers :
      (ns : List Text) (p q : Parsed)
      → check_modules R report files ns p ≡ ok q
      → Gathers p
      → Gathers q × (module_names q.modules ≡ module_names p.modules ++ keep_if is_module ns)
  unfolding check_modules add_module
  check_modules-Gathers [] p q h g =
      let same : p ≡ q = cc in
      (
        subst Gathers same g,
        ap (λ (x : Parsed). module_names x.modules) (sym same)
            ∙ sym (append-nil (module_names p.modules)),
      )
  check_modules-Gathers (n ∷ ns) p q h g = elim (Bool-cases (is_module n)) [
    | inr e ↦ rw e (check_modules-Gathers ns p q (ground (arith, e)) g)
    | inl e ↦ elim (Try-cases (check_module R report n (file_of n files))) [
      | inr f ↦ absurd (ground (arith, e))
      | inl (m, f) ↦
          let (g', l) =
            check_modules-Gathers ns (add_module n m p) q (ground (arith, e, f))
              (add_module-Gathers n m p (check_module-IsChecked n m f) g) in
          (g', rw e (l ∙ module_names-append p.modules n m (keep_if is_module ns)))
    ]
  ]
