-- ===== src/Policy/Manager/Retry/Bounds.antt =====
-- Proofs on internal/policy/manager.go: Run and jitter.
use normgate.Prelude.{
  ℕ, ◌*◌, ◌/◌, ◌≤◌, ◌<◌, ◌≡◌, refl, ◌||◌, Option, none, some, List, [], ◌∷◌, arith, All, ltb, ◌==◌,
  if-cases,
}
use normgate.Text.{Text}
use normgate.Policy.{Try, ok, err, panic}
use normgate.Policy.Manager.{Engine, Manager}
use normgate.Policy.Manager.Lifecycle.{refresh, call, refreshes}
use normgate.Policy.Manager.Durable.{IsDurable, call-IsDurable}
use normgate.Policy.Manager.Retry.{
  Round, max, less, jitter, schedule, Ran, ends, waits_first, proceed, conclude, run_rounds, run,
}

-- rand.Int gives a number below its bound.
abbrev pub DrawsBelow : Round → Type 0
DrawsBelow r = (b n : ℕ) → r.draw b ≡ some n → n < b

less_bounds :
    (d : ℕ) (o : Option ℕ)
    → ((n : ℕ) → o ≡ some n → n < max (d / 4) 1)
    → (3 * d ≤ 4 * less d o) × (less d o ≤ d)
less_bounds d none f = (omega arith, omega arith)
less_bounds d (some n) f = let h = f n refl in ground (arith, h)

jitter_bounds : (r : Round) (d : ℕ) → DrawsBelow r → (3 * d ≤ 4 * jitter r d) × (jitter r d ≤ d)
unfolding jitter
jitter_bounds r d f = less_bounds d (r.draw (max (d / 4) 1)) (λ n e. f _ n e)

-- How a round may end.
conclude-ends :
    (E : Engine) (r : Round) (wait : ℕ) (o : Try (Unit {0})) (m : Manager E) (rest : Ran E)
    (P : Ran E → Type 0)
    → ((x : Try (Unit {0})) → P (ends E [] x m))
    → ((x : Try (Unit {0})) → P (ends E (wait ∷ []) x m))
    → P (waits_first E wait rest)
    → P (conclude E r wait o m rest)
unfolding conclude proceed
conclude-ends E r wait panic m rest P f g h = f panic
conclude-ends E r wait (ok u) m rest P f g h =
    if-cases P r.cancelled (λ _. f _) (λ _. if-cases P r.cancelled_waiting (λ _. g _) (λ _. h))
conclude-ends E r wait (err e) m rest P f g h =
    if-cases P r.cancelled (λ _. f _) (λ _. if-cases P r.cancelled_waiting (λ _. g _) (λ _. h))

module _ (interval max_backoff : ℕ) where
  -- A wait is at least three quarters of the interval and at most the longest back-off.
  abbrev pub WaitIsBounded : ℕ → Type 0
  WaitIsBounded wait = (3 * interval ≤ 4 * wait) × (wait ≤ max_backoff)

  schedule_bounds :
      (r : Round) (d : ℕ) (o : Try (Unit {0}))
      → DrawsBelow r
      → interval ≤ d
      → d ≤ max_backoff
      → WaitIsBounded (schedule interval max_backoff r d o).0
        × (interval ≤ (schedule interval max_backoff r d o).1)
        × ((schedule interval max_backoff r d o).1 ≤ max_backoff)
  unfolding schedule
  schedule_bounds r d (ok u) f h k = ground (arith, h, k)
  schedule_bounds r d (err e) f h k = ground (arith, h, k, jitter_bounds r d f)
  schedule_bounds r d panic f h k = ground (arith, h, k, jitter_bounds r d f)

  module _ (E : Engine) where
    run_rounds_bounds :
        (rs : List Round) (d : ℕ) (m : Manager E)
        → All DrawsBelow rs
        → interval ≤ d
        → d ≤ max_backoff
        → All WaitIsBounded (run_rounds E interval max_backoff rs d m).waits
    unfolding run_rounds
    run_rounds_bounds [] d m f h k = tt
    run_rounds_bounds (r ∷ rs) d m (f, g) h k =
        let (o, m') = refresh E r.world r.source m in
        let (b, l, u) = schedule_bounds r d o f h k in
        let rest = run_rounds_bounds rs (schedule interval max_backoff r d o).1 m' g l u in
        conclude-ends E r (schedule interval max_backoff r d o).0 o m' _
          (λ (x : Ran E). All WaitIsBounded x.waits) (λ x. tt) (λ x. (b, tt)) (b, rest)

    -- Every wait between two refreshes is at least three quarters of the interval and at most the
    -- longest back-off, whatever the refreshes do and rand.Int draws below its bound.
    pub run_bounds :
        (rs : List Round) (m : Manager E)
        → All DrawsBelow rs
        → All WaitIsBounded (run E interval max_backoff rs m).waits
    unfolding run
    run_bounds rs m f =
        if-cases (λ (x : Ran E). All WaitIsBounded x.waits)
          (interval == 0 || ltb max_backoff interval) (λ _. tt)
          (λ e. run_rounds_bounds rs interval m f (omega arith) (ground (arith, e)))

    module _
        (honest : (a : Text) (b : E.Bundle) (s : E.State) (r : Text)
          → E.read_archive a ≡ ok b
          → (E.compile s b).0 ≡ ok r
          → E.inspect_revision b ≡ ok r) where
      run_rounds-IsDurable :
          (rs : List Round) (d : ℕ) (m : Manager E)
          → IsDurable E m
          → IsDurable E (run_rounds E interval max_backoff rs d m).manager
      unfolding run_rounds
      run_rounds-IsDurable [] d m h = h
      run_rounds-IsDurable (r ∷ rs) d m h =
          let (o, m') = refresh E r.world r.source m in
          let h' : IsDurable E m' =
            unfold call in call-IsDurable E honest r.world (refreshes r.source) m h in
          conclude-ends E r (schedule interval max_backoff r d o).0 o m' _
            (λ (x : Ran E). IsDurable E x.manager) (λ x. h') (λ x. h')
            (run_rounds-IsDurable rs (schedule interval max_backoff r d o).1 m' h')

      -- However many refreshes the loop makes, the archives of the active and of the saved
      -- revision stay on disk, where Inspect agrees with Compile on what ReadArchive accepts.
      pub run-IsDurable :
          (rs : List Round) (m : Manager E)
          → IsDurable E m
          → IsDurable E (run E interval max_backoff rs m).manager
      unfolding run
      run-IsDurable rs m h =
          if-cases (λ (x : Ran E). IsDurable E x.manager)
            (interval == 0 || ltb max_backoff interval) (λ _. h)
            (λ _. run_rounds-IsDurable rs interval m h)
