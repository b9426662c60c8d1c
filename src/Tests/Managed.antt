-- ===== src/Tests/Managed.antt =====
-- Runs of the manager of internal/policy/manager.go with the engine of internal/policy/opa/engine.go.
use normgate.Prelude.{◌≡◌, refl, none, [], some, ◌⊎◌}
use normgate.Text.{Text, codes, text_eq, text_leb, has_prefix, has_suffix, contains, trim_prefix}
use normgate.Sort.{sort}
use normgate.Json.{marshal}
use normgate.Json.Struct.{struct}
use normgate.Contracts.{obligation_value}
use normgate.Policy.{ok}
use normgate.Policy.Bundle.Files.{file_of, find_file}
use normgate.Policy.Opa.Revisions.{new, health}
use normgate.Policy.Scenarios.{
  expected_value, is_test, test_names, actual, same_expected, passes, count, tally, judge, run_file,
  run_files, verdict, run_named, run_tests,
}
use normgate.Policy.Manager.{Manager, artifact_path, atomic_write, recording}
use normgate.Policy.Manager.Activation.{
  validate, persist, write_artifact, store_artifact, successor, install, activate_body, activate,
}
use normgate.Policy.Manager.Lifecycle.{activates, call}
use normgate.Policy.Manager.Startup.{no_status}
use normgate.Policy.Manager.Durable.{IsDurable}
use normgate.Policy.Managed.{Surroundings, managed}
use normgate.Policy.Managed.Durability.{managed-IsDurable}
use normgate.Policy.Managed.Activated.{IsActivated, activate-IsActivated}
use normgate.Policy.Manager.Lifecycle.{refresh, receive}
use normgate.Policy.Manager.{FetchResult, Source}
use normgate.Policy.Sources.Oci.{oci_id, oci_source}
use normgate.Policy.Sources.Pulled.{IsPulled}
use normgate.Policy.Managed.Refreshed.{IsKept, refresh-IsPulled}
use normgate.Tests.Sources.{plain, served, indexed, pulled, oci_fetch_run}
use normgate.Tests.Archive.{
  read_byte_run, packages, no_digest, decoders, same_order, files, read_run,
}
use normgate.Tests.Scenarios.{explained, parsed, never}
use normgate.Tests.Opa.{toy_rego, uncancelled, compile_run}
use normgate.Tests.Manager.{calm, unsynced}

abbrev around : Surroundings
around = record {
  rego = toy_rego;
  packages = packages;
  digest = no_digest;
  decoders = decoders;
  order = same_order;
  Event = Text;
  parse = parsed;
  explain = λ s r event. explained event;
  context = [];
  cancelled = λ s. uncancelled;
  cancelled_test = never;
  elsewhere = λ s. s;
}

abbrev fresh : Manager (managed around)
fresh = record {
  engine = new;
  active = no_status;
  artifact = λ p. none;
  state = none;
  max_staleness = 10;
}

fresh-IsDurable : IsDurable (managed around) fresh
fresh-IsDurable = record { active_held = λ h. absurd (h refl); state_held = λ s h. cc }

managed-IsDurable_example :
    IsDurable
      (managed around)
      (call (managed around) unsynced (activates [] (codes "file:a") []) fresh).1
managed-IsDurable_example =
    managed-IsDurable around unsynced (activates [] (codes "file:a") []) fresh fresh-IsDurable

test_run : (run_tests [] explained parsed never files).0 ≡ ok tt
unfolding run_tests run_named verdict run_files run_file judge tally passes count same_expected
    actual expected_value file_of find_file is_test test_names text_eq text_leb has_prefix
    has_suffix contains sort marshal struct obligation_value
test_run = refl

activate_run : (activate (managed around) calm [] (codes "file:a") [] fresh).0 ≡ ok tt
unfolding activate activate_body recording validate health install store_artifact write_artifact
    artifact_path trim_prefix successor persist atomic_write text_eq
activate_run = rw read_run (rw compile_run (rw test_run refl))

activate-IsActivated_example :
    IsActivated around []
      (activate (managed around) calm [] (codes "file:a") [] fresh).1.active.revision
      new
activate-IsActivated_example =
    activate-IsActivated around calm [] (codes "file:a") [] fresh activate_run

abbrev registry : Source
registry = oci_source plain no_digest served indexed pulled

refresh_run : (refresh (managed around) calm (some registry) fresh).0 ≡ ok tt
unfolding refresh receive oci_source oci_id activate activate_body recording validate health install
    store_artifact write_artifact artifact_path trim_prefix successor persist atomic_write text_eq
refresh_run = rw oci_fetch_run (rw read_byte_run (rw compile_run (rw test_run refl)))

refresh-IsPulled_example :
    IsKept registry fresh (refresh (managed around) calm (some registry) fresh).1
    ⊎ ((r : FetchResult) × IsPulled plain no_digest served indexed pulled r
        × IsActivated around r.bytes
            (refresh (managed around) calm (some registry) fresh).1.active.revision
            new)
refresh-IsPulled_example =
    refresh-IsPulled around plain served indexed calm pulled fresh refresh_run
