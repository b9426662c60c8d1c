-- ===== src/Tests/Retry.antt =====
-- Runs of the loop of refreshes: a failed write, then a refresh that succeeds.
use normgate.Prelude.{ℕ, zero, suc, ◌≡◌, refl, false, Option, none, some, List, [], ◌∷◌, arith, All}
use normgate.Text.{codes, text_eq, trim_prefix}
use normgate.Policy.{ok}
use normgate.Policy.Manager.{World, Source, atomic_write, recording, artifact_path}
use normgate.Policy.Manager.Activation.{
  check_artifact, validate, persist, write_artifact, store_artifact, successor, install,
  activate_body, activate,
}
use normgate.Policy.Manager.Lifecycle.{receive, refresh}
use normgate.Policy.Manager.Retry.{Round, jitter, schedule, proceed, conclude, run_rounds, run}
use normgate.Policy.Manager.Retry.Bounds.{DrawsBelow, WaitIsBounded, run_bounds}
use normgate.Tests.Manager.{toy, calm, unsynced, fresh}

-- The greatest number below the bound.
last_below : ℕ → Option ℕ
last_below zero = none
last_below (suc b) = some b

abbrev file : Source
file = record {
  id = codes "file";
  fetch = λ etag. ok (record { bytes = codes "archive"; etag = codes "e1"; not_modified = false });
}

abbrev round : World → Round
round w = record {
  world = w;
  source = some file;
  cancelled = false;
  cancelled_waiting = false;
  draw = last_below;
}

round-DrawsBelow : (w : World) → DrawsBelow (round w)
unfolding last_below
round-DrawsBelow w zero n e = absurd (ground arith)
round-DrawsBelow w (suc b) n e = ground (arith, e)

abbrev rounds : List Round
rounds = round unsynced ∷ round unsynced ∷ round unsynced ∷ round calm ∷ []

-- The delay doubles up to the longest back-off, and a success ends that.
run_test : (run toy 8 20 rounds fresh).waits ≡ 7 ∷ 13 ∷ 16 ∷ 8 ∷ []
unfolding run run_rounds conclude proceed schedule jitter last_below refresh receive activate
    recording activate_body validate install store_artifact write_artifact persist atomic_write
    successor text_eq artifact_path trim_prefix check_artifact
run_test = refl

run_bounds_example : All (WaitIsBounded 8 20) (run toy 8 20 rounds fresh).waits
run_bounds_example = run_bounds 8 20 toy rounds fresh (
  round-DrawsBelow unsynced,
  (round-DrawsBelow unsynced, (round-DrawsBelow unsynced, (round-DrawsBelow calm, tt))),
)
