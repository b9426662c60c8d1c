-- ===== src/Policy/Opa/Lint.antt =====
-- The checks of one module in Compile of internal/policy/opa/engine.go. What the third-party parser
-- gives of a module is what its walks visit, in their order; the schema of an obligation is a
-- parameter. A later finding replaces an earlier one.
use normgate.Prelude.{
  Bool, true, false, ◌&&◌, ◌||◌, not, Option, none, some, List, [], ◌∷◌, all, if◌then◌else◌,
}
use normgate.Text.{Text, codes, text_eq, has_prefix}
use normgate.Text.Utf8.{Bytes}
use normgate.Policy.{Error, failure}
use normgate.Policy.Bundle.Inspect.{Reason, Report}

-- The entry "obligations" of an object: none that is ground, one without a JSON value, or its
-- value, whose items are given if it is a list.
pub data Obligations : Type 0 where
  no_obligations : Obligations
  no_json : Obligations
  json : Option (List Bytes) → Obligations

pub data Term : Type 0 where
  object_term : Obligations → Term
  string_term : Text → Term
  other_term : Term

pub record Head : Type 0 where
  pub is_default : Bool
  pub name : Text

pub record Module : Type 0 where
  pub path : Text
  pub terms : List Term
  pub refs : List Text
  pub calls : List Text
  pub rules : List Head

-- The variable `lint`.
abbrev pub Finding : Type 0
Finding = Option Error

-- report.Reasons[code], if it is there
unfoldable pub is_reason_of : List (Text × Reason) → Text → Bool
is_reason_of [] code = false
is_reason_of ((c, r) ∷ reasons) code = text_eq c code || is_reason_of reasons code

abbrev pub has_no_sources : List Text → Bool
has_no_sources [] = true
has_no_sources (s ∷ ss) = false

-- The walk over the calls.
unfoldable pub lint_calls : List Text → Finding → Finding
lint_calls [] found = found
lint_calls (op ∷ ops) found = lint_calls ops (
    if text_eq op (codes "print") || text_eq op (codes "internal.print")
    then some (failure "forbidden_builtin")
    else found)

-- The walk over the references.
unfoldable pub lint_refs : Report → List Text → Finding → Finding
lint_refs report [] found = found
lint_refs report (r ∷ rs) found = lint_refs report rs (
    if has_prefix r (codes "input.external_facts")
      && has_no_sources report.manifest.external_fact_sources
    then some (failure "undeclared_fact")
    else found)

module _ (is_obligation : Bytes → Bool) where
  unfoldable pub lint_obligations : Obligations → Finding → Finding
  lint_obligations no_obligations found = found
  lint_obligations no_json found = some (failure "invalid_obligation")
  lint_obligations (json none) found = some (failure "invalid_obligation")
  lint_obligations (json (some items)) found =
      if all is_obligation items then found else some (failure "invalid_obligation")

  module _ (report : Report) where
    unfoldable pub lint_term : Term → Finding → Finding
    unfolding lint_obligations
    lint_term (object_term os) found = lint_obligations os found
    lint_term (string_term s) found =
        if has_prefix s (codes "ng.") && not (is_reason_of report.reasons s)
        then some (failure "unknown_reason")
        else found
    lint_term other_term found = found

    unfoldable pub lint_terms : List Term → Finding → Finding
    lint_terms [] found = found
    lint_terms (t ∷ ts) found = lint_terms ts (lint_term t found)

    -- The three walks.
    unfoldable pub lint : Module → Finding
    unfolding lint_terms
    lint m = lint_calls m.calls (lint_refs report m.refs (lint_terms m.terms none))
