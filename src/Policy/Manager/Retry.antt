-- ===== src/Policy/Manager/Retry.antt =====
-- Run and jitter of internal/policy/manager.go: the loop of refreshes, round by round.
pub mod Bounds
use normgate.Prelude.{
  ℕ, ◌-◌, ◌*◌, ◌/◌, Bool, ◌||◌, Option, none, some, List, [], ◌∷◌, ltb, ◌==◌, if◌then◌else◌,
}
use normgate.Policy.{Try, ok, err, panic, context_error, failure}
use normgate.Policy.Manager.{Engine, Manager, World, Source}
use normgate.Policy.Manager.Lifecycle.{refresh}

-- What happens in a round: the system calls and the source of its refresh, whether the context is
-- cancelled after it or in the wait, and what rand.Int gives below a bound, or that it fails.
pub record Round : Type 0 where
  pub world : World
  pub source : Option Source
  pub cancelled : Bool
  pub cancelled_waiting : Bool
  pub draw : ℕ → Option ℕ

abbrev pub max : ℕ → ℕ → ℕ
max a b = if ltb a b then b else a

abbrev pub less : ℕ → Option ℕ → ℕ
less delay none = delay
less delay (some n) = delay - n

-- jitter
unfoldable pub jitter : Round → ℕ → ℕ
jitter r delay = less delay (r.draw (max (delay / 4) 1))

-- The wait after a refresh, and the delay of the next failure.
unfoldable pub schedule : (interval max_backoff : ℕ) → Round → ℕ → Try (Unit {0}) → ℕ × ℕ
schedule interval max_backoff r delay (ok u) = (interval, interval)
schedule interval max_backoff r delay _ =
    (jitter r delay, if ltb (max_backoff / 2) delay then max_backoff else delay * 2)

module _ (E : Engine) where
  -- The waits, the result where the loop has ended, and the manager.
  pub record Ran : Type 0 where
    pub waits : List ℕ
    pub result : Option (Try (Unit {0}))
    pub manager : Manager E

  abbrev pub ends : List ℕ → Try (Unit {0}) → Manager E → Ran
  ends waits result m = record { waits = waits; result = some result; manager = m }

  abbrev pub waits_first : ℕ → Ran → Ran
  waits_first wait ran = record ran { waits = wait ∷ ran.waits }

  -- The context is looked at after the refresh, and in the wait.
  unfoldable pub proceed : Round → ℕ → Manager E → Ran → Ran
  proceed r wait m rest =
      if r.cancelled
      then ends [] (err context_error) m
      else if r.cancelled_waiting
      then ends (wait ∷ []) (err context_error) m
      else waits_first wait rest

  unfoldable pub conclude : Round → ℕ → Try (Unit {0}) → Manager E → Ran → Ran
  conclude r wait panic m rest = ends [] panic m
  conclude r wait (ok u) m rest = proceed r wait m rest
  conclude r wait (err e) m rest = proceed r wait m rest

  -- The loop, over the rounds that there are.
  unfoldable pub run_rounds : (interval max_backoff : ℕ) → List Round → ℕ → Manager E → Ran
  run_rounds interval max_backoff [] delay m = record { waits = []; result = none; manager = m }
  run_rounds interval max_backoff (r ∷ rs) delay m =
      let (result, m') = refresh E r.world r.source m in
      let (wait, delay') = schedule interval max_backoff r delay result in
      let rest = run_rounds interval max_backoff rs delay' m' in conclude r wait result m' rest

  -- Run
  unfoldable pub run : (interval max_backoff : ℕ) → List Round → Manager E → Ran
  run interval max_backoff rs m =
      if interval == 0 || ltb max_backoff interval
      then ends [] (err (failure "invalid_refresh")) m
      else run_rounds interval max_backoff rs interval m
