-- ===== src/Tests/Manager.antt =====
-- Runs of internal/policy/manager.go over an engine that gives every bundle the same revision.
use normgate.Prelude.{◌≡◌, refl, Bool, true, false, none, some, []}
use normgate.Text.{Text, codes, text_eq, has_prefix, trim_prefix}
use normgate.Contracts.{Decision}
use normgate.Policy.{ok, err, failure}
use normgate.Policy.Composition.{zero_digest}
use normgate.Policy.Manager.{
  Status, Engine, stored, Steps, World, Manager, atomic_write, is_digest, recording, error_code,
}
use normgate.Policy.Manager.Activation.{
  validate, persist, write_artifact, store_artifact, successor, install, activate_body, activate,
}
use normgate.Policy.Manager.Lifecycle.{Call, activates, call}
use normgate.Policy.Manager.Startup.{
  recover_from, recover, or_previous, recover_state, start_from, new_manager, plausible, no_status,
}
use normgate.Policy.Manager.Failure.{call_failure}
use normgate.Policy.Manager.Durable.{IsDurable}
use normgate.Policy.Manager.Success.{IsSaved, call_success}
use normgate.Policy.Manager.Recovery.{IsStarted, new_manager-IsStarted}

-- Bundles are their archives, events are the decisions wanted, the state is whether it is healthy.
abbrev pub toy : Engine
toy = record {
  State = Bool;
  Bundle = Text;
  Event = Decision;
  read_archive = λ a. ok a;
  inspect_revision = λ b. ok zero_digest;
  compile = λ s b. (ok zero_digest, s);
  is_ready = λ s. s;
  run_tests = λ s r b. ok tt;
  evaluate = λ s r d. ok d;
}

pub toy_honest :
    (a : Text) (b : Text) (s : Bool) (r : Text)
    → toy.read_archive a ≡ ok b
    → (toy.compile s b).0 ≡ ok r
    → toy.inspect_revision b ≡ ok r
toy_honest a b s r f g = g

abbrev steps : Steps
steps = record {
  creates = true;
  writes = true;
  syncs = true;
  closes = true;
  renames = true;
  opens_directory = true;
  syncs_directory = true;
}

-- At time 5 everything works.
abbrev pub calm : World
calm = record {
  now = 5;
  cancelled_in_health = false;
  cancelled_in_validate = false;
  cancelled_before_persist = false;
  directory_fails = false;
  state_unreadable = false;
  artifact_unreadable = λ p. false;
  existing_unreadable = false;
  artifact_write = steps;
  state_write = steps;
}

-- The rename of state.json is not synced.
abbrev pub unsynced : World
unsynced = record calm { state_write = record steps { syncs_directory = false } }

abbrev pub fresh : Manager toy
fresh = record {
  engine = true;
  active = no_status;
  artifact = λ p. none;
  state = none;
  max_staleness = 10;
}

abbrev first : Call
first = activates (codes "archive") (codes "file") (codes "e1")

abbrev running : Status
running = record {
  ready = true;
  revision = zero_digest;
  previous = [];
  source = codes "file";
  etag = codes "e1";
  refreshed_at = 5;
  last_error = [];
}

-- A directory with one revision.
abbrev saved : Manager toy
saved = record fresh {
  active = running;
  artifact = λ p. some (codes "archive");
  state = some (stored running);
}

pub fresh-IsDurable : IsDurable toy fresh
fresh-IsDurable = record { active_held = λ n. absurd (n refl); state_held = λ s e. cc }

first_run : (call toy calm first fresh).0 ≡ ok tt
unfolding call activate recording activate_body validate install store_artifact write_artifact
    persist atomic_write successor
first_run = refl

unsynced_run : (call toy unsynced first fresh).0 ≡ err (failure "persistence_failed")
unfolding call activate recording activate_body validate install store_artifact write_artifact
    persist atomic_write successor
unsynced_run = refl

restart_run : (new_manager toy calm (codes "/policy") (some true) saved).0 ≡ ok tt
unfolding new_manager plausible is_digest start_from recover_state or_previous recover recover_from
    validate persist atomic_write text_eq has_prefix trim_prefix
restart_run = refl

call_failure_example :
    (call toy unsynced first fresh).1.active
    ≡ record no_status { last_error = error_code (failure "persistence_failed") }
call_failure_example =
    call_failure toy unsynced first fresh (failure "persistence_failed") unsynced_run

call_success_example : IsSaved toy calm (call toy calm first fresh).1
call_success_example = call_success toy calm first fresh first_run

abbrev wanted : Decision
wanted = record {
  schema_version = codes "1.0";
  id = codes "d";
  outcome = codes "allow";
  policy_revision = zero_digest;
  operation_digest = zero_digest;
  reason_codes = some [];
  obligations = some [];
  evaluated_at = codes "2026-01-01T00:00:00Z";
  external_facts_digest = zero_digest;
  extensions = none;
}

new_manager-IsStarted_example :
    IsStarted toy
      (record saved { engine = true; active = no_status })
      running
      (new_manager toy calm (codes "/policy") (some true) saved).1
new_manager-IsStarted_example =
    new_manager-IsStarted toy calm toy_honest (codes "/policy") true running saved refl restart_run
