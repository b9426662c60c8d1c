-- ===== src/Policy/Scenarios.antt =====
-- RunTests of internal/policy/scenarios.go. ParseScenario, over a third-party YAML parser, and the
-- engine are parameters.
pub mod Passing
pub mod Parse
use normgate.Prelude.{
  ℕ, suc, ◌≡◌, Bool, true, false, ◌&&◌, ◌||◌, not, Option, none, some, List, [], ◌∷◌, ◌++◌, map,
  if◌then◌else◌, keep_if, Slice, pos,
}
use normgate.Text.{Text, codes, text_eq, text_leb, has_prefix, has_suffix, contains}
use normgate.Sort.{sort}
use normgate.Json.{Value, str, obj, marshal}
use normgate.Json.Decimal.{format_int}
use normgate.Json.Struct.{struct, slice_value}
use normgate.Contracts.{Obligation, Decision, obligation_value}
use normgate.Policy.{
  Error, policy_error, context_error, foreign_error, failure, Contribution, Try, ok, err, panic,
}
use normgate.Policy.Bundle.Files.{Files, names, file_of}
use normgate.Policy.Exec.{Exec, ◌>>◌}

pub record Expected : Type 0 where
  pub outcome : Text
  pub reason_codes : Slice Text
  pub obligations : Slice Obligation
  pub rule_ids : Slice Text

unfoldable pub expected_value : Expected → Value
expected_value x = obj (
    struct (codes "outcome" ∷ codes "reason_codes" ∷ codes "obligations" ∷ codes "rule_ids" ∷ []) (
      some (str x.outcome)
      ∷ some (slice_value str x.reason_codes)
      ∷ some (slice_value obligation_value x.obligations)
      ∷ some (slice_value str x.rule_ids)
      ∷ []))

-- What Explain gives, as far as it is read here.
pub record Explanation : Type 0 where
  pub decision : Decision
  pub rules : List Contribution

pub record Scenario (Event : Type 0) : Type 0 where
  pub id : Text
  pub event : Event
  pub expected : Expected
  pub expected_error : Text

-- The report and the map `seen`.
pub record Progress : Type 0 where
  pub passed : ℕ
  pub failed : List Text
  pub seen : List Text

abbrev pub no_progress : Progress
no_progress = record { passed = 0; failed = []; seen = [] }

unfoldable pub is_test : Text → Bool
is_test name =
    has_prefix name (codes "tests/")
    && (has_suffix name (codes ".yaml") || has_suffix name (codes ".json"))

unfoldable pub test_names : Files → List Text
test_names files = sort text_leb (keep_if is_test (names files))

unfoldable pub actual : Explanation → Expected
actual ex = record {
  outcome = ex.decision.outcome;
  reason_codes = ex.decision.reason_codes;
  obligations = ex.decision.obligations;
  rule_ids = some (sort text_leb (map (λ (r : Contribution). r.rule_id) ex.rules));
}

-- same
unfoldable pub same_expected : Expected → Expected → Bool
same_expected a b = text_eq (marshal (expected_value a)) (marshal (expected_value b))

-- The methods Error of the errors; the text of the context's error is a parameter.
unfoldable pub error_text : Text → Error → Text
error_text context (policy_error code file row column) =
    if text_eq file []
    then code
    else code
      ++ codes " ("
      ++ file
      ++ codes ":"
      ++ format_int (pos row)
      ++ codes ":"
      ++ format_int (pos column)
      ++ codes ")"
error_text context context_error = context
error_text context (foreign_error text) = text

abbrev pub none_failed : List Text → Try (Unit {0})
none_failed [] = ok tt
none_failed (id ∷ ids) = err (failure "tests_failed")

-- What follows the loop.
unfoldable pub verdict : Try (Unit {0}) × Progress → Try (Unit {0}) × Progress
verdict (ok u, p) = (none_failed p.failed, p)
verdict (err e, p) = (err e, p)
verdict (panic, p) = (panic, p)

abbrev pub fails_with : (context : Text) → Text → Try Explanation → Bool
fails_with context text (err e) = text_eq (error_text context e) text
fails_with context text _ = false

abbrev pub gives : Expected → Try Explanation → Bool
gives expected (ok ex) = same_expected (actual ex) expected
gives expected _ = false

module _ {Event : Type 0} (context : Text) where
  -- Whether a scenario passes with what Explain gives.
  unfoldable pub passes : Scenario Event → Try Explanation → Bool
  passes s r =
      if not (text_eq s.expected_error [])
      then fails_with context s.expected_error r
      else gives s.expected r

  unfoldable pub count : Scenario Event → Bool → Progress → Progress
  count s true p = record p { passed = suc p.passed }
  count s false p = record p { failed = p.failed ++ s.id ∷ [] }

  unfoldable pub tally : Scenario Event → Try Explanation → Exec Progress (Unit {0})
  tally s panic p = (panic, p)
  tally s (ok ex) p = (ok tt, count s (passes s (ok ex)) p)
  tally s (err e) p = (ok tt, count s (passes s (err e)) p)

  module _ (explain : Event → Try Explanation) where
    unfoldable pub judge : Try (Scenario Event) → Exec Progress (Unit {0})
    judge (err e) p = (err e, p)
    judge panic p = (panic, p)
    judge (ok s) p =
        if contains p.seen s.id
        then (err (failure "duplicate_scenario"), p)
        else tally s (explain s.event) (record p { seen = s.id ∷ p.seen })

    -- `cancelled` says at which file the context has ended.
    module _ (parse : Text → Try (Scenario Event)) (cancelled : Text → Bool) (files : Files) where
      unfoldable pub run_file : Text → Exec Progress (Unit {0})
      run_file name p =
          if cancelled name then (err context_error, p) else judge (parse (file_of name files)) p

      unfoldable pub run_files : List Text → Exec Progress (Unit {0})
      run_files [] p = (ok tt, p)
      run_files (name ∷ ns) p = (do run_file name; run_files ns) p

      unfoldable pub run_named : List Text → Try (Unit {0}) × Progress
      run_named [] = (err (failure "missing_tests"), no_progress)
      run_named (name ∷ ns) = verdict (run_files (name ∷ ns) no_progress)

      -- RunTests
      unfoldable pub run_tests : Try (Unit {0}) × Progress
      run_tests = run_named (test_names files)
