-- ===== src/Tests/Scenarios.antt =====
-- A run of the tests of a bundle with two files, one of them a test.
use normgate.Prelude.{◌≡◌, ◌≢◌, refl, Bool, false, none, some, [], ◌∷◌, All, length}
use normgate.Text.{Text, codes, text_eq, text_leb, has_prefix, has_suffix, contains}
use normgate.Sort.{sort}
use normgate.Json.{marshal}
use normgate.Json.Struct.{struct}
use normgate.Contracts.{obligation_value}
use normgate.Policy.{Try, ok}
use normgate.Policy.Composition.{zero_digest}
use normgate.Policy.Scenarios.{
  Explanation, Scenario, expected_value, is_test, test_names, actual, same_expected, passes, count,
  tally, judge, run_file, run_files, verdict, run_named, run_tests,
}
use normgate.Policy.Bundle.Files.{Files, file_of, find_file}
use normgate.Policy.Scenarios.Passing.{Passes, run_tests-Passes}

abbrev pub explained : Text → Try Explanation
explained outcome = ok (record {
  decision = record {
    schema_version = codes "1.0";
    id = codes "d";
    outcome = outcome;
    policy_revision = zero_digest;
    operation_digest = zero_digest;
    reason_codes = some [];
    obligations = some [];
    evaluated_at = codes "2026-01-01T00:00:00Z";
    external_facts_digest = zero_digest;
    extensions = none;
  };
  rules = [];
})

-- Events are the outcomes wanted, and files the outcomes expected.
abbrev pub parsed : Text → Try (Scenario Text)
parsed raw = ok (record {
  id = raw;
  event = raw;
  expected = record {
    outcome = raw;
    reason_codes = some [];
    obligations = some [];
    rule_ids = some [];
  };
  expected_error = [];
})

abbrev pub never : Text → Bool
never name = false

abbrev files : Files
files = (codes "policy.rego", []) ∷ (codes "tests/a.yaml", codes "deny") ∷ []

run_test : (run_tests [] explained parsed never files).0 ≡ ok tt
unfolding run_tests run_named verdict run_files run_file judge tally passes count same_expected
    actual expected_value file_of find_file is_test test_names text_eq text_leb has_prefix
    has_suffix contains sort marshal struct obligation_value
run_test = refl

run_tests-Passes_example :
    (test_names files ≢ [])
    × All (Passes [] explained parsed never files) (test_names files)
    × ((run_tests [] explained parsed never files).1.passed ≡ length (test_names files))
run_tests-Passes_example = run_tests-Passes [] explained parsed never files run_test
