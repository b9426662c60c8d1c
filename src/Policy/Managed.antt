-- ===== src/Policy/Managed.antt =====
-- The engine of internal/policy/opa/engine.go as the `Engine` that internal/policy/manager.go calls.
-- ParseScenario, Explain, what cancels a call and what other calls do between the two locks of a
-- Compile are parameters.
pub mod Durability
pub mod Activated
pub mod Refreshed
use normgate.Prelude.{Bool, false, List}
use normgate.Text.{Text}
use normgate.Text.Utf8.{Bytes}
use normgate.Contracts.{PolicyManifest, Decision}
use normgate.Policy.{Try, ok, err, panic, ◌>>=◌}
use normgate.Policy.Bundle.Files.{Files}
use normgate.Policy.Bundle.Inspect.{Decoders, Report, inspect}
use normgate.Policy.Bundle.Archive.{Packages, read_archive}
use normgate.Policy.Scenarios.{Explanation, Scenario, run_tests}
use normgate.Policy.Manager.{Engine}
use normgate.Policy.Opa.Compile.{Rego, Cancelled}
use normgate.Policy.Opa.Revisions.{State, compile, health}

-- The third-party packages, the files' decoders and the order of a range, as one.
pub record Surroundings : Type 1 where
  pub rego : Rego
  pub packages : Packages
  pub digest : Bytes → Text
  pub decoders : Decoders
  pub order : List PolicyManifest → List PolicyManifest
  pub Event : Type 0
  pub parse : Text → Try (Scenario Event)
  pub explain : State rego → Text → Event → Try Explanation
  pub context : Text
  pub cancelled : State rego → Cancelled
  pub cancelled_test : Text → Bool
  pub elsewhere : State rego → State rego

module _ (S : Surroundings) where
  open S use {packages, digest, decoders, order, explain}

  abbrev pub inspect_revision : Files → Try Text
  inspect_revision files = do report ← inspect decoders order files; ok report.revision

  abbrev pub decision_of : State S.rego → Text → S.Event → Try Decision
  decision_of s revision event = do explanation ← explain s revision event; ok explanation.decision

  abbrev pub managed : Engine
  managed = record {
    State = State S.rego;
    Bundle = Files;
    Event = S.Event;
    read_archive = read_archive packages digest decoders order;
    inspect_revision = inspect_revision;
    compile = λ s files. compile digest decoders order (S.cancelled s) s (S.elsewhere s) files;
    is_ready = λ s. (health false s).0;
    run_tests = λ s revision files.
        (run_tests S.context (explain s revision) S.parse S.cancelled_test files).0;
    evaluate = decision_of;
  }
