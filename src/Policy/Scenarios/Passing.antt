-- ===== src/Policy/Scenarios/Passing.antt =====
-- Proofs on RunTests: the tests that pass.
use normgate.Prelude.{
  suc, ◌+◌, ◌≡◌, ◌≢◌, refl, ap, ◌∙◌, subst, Bool, true, false, List, [], ◌∷◌, ◌++◌, arith, All,
  length, Bool-cases, inl, inr,
}
use normgate.Text.{Text, contains}
use normgate.Policy.{Try, ok, err, panic, Try-cases}
use normgate.Policy.Scenarios.{
  Scenario, Explanation, Progress, no_progress, test_names, none_failed, verdict, passes, count,
  tally, judge, run_file, run_files, run_named, run_tests,
}
use normgate.Policy.Bundle.Files.{Files, file_of}

append-ne_nil : (xs : List Text) (x : Text) → xs ++ x ∷ [] ≢ []
append-ne_nil [] x e = cc
append-ne_nil (y ∷ ys) x e = cc

none_failed-nil : (xs : List Text) → none_failed xs ≡ ok tt → xs ≡ []
none_failed-nil [] h = refl
none_failed-nil (x ∷ xs) h = absurd (ground (arith, h))

module _ {Event : Type 0} (context : Text) (explain : Event → Try Explanation)
    (parse : Text → Try (Scenario Event)) (cancelled : Text → Bool) (files : Files) where
  -- The file holds a scenario, and Explain gives what it expects.
  pub record Passes (name : Text) : Type 0 where
    pub scenario : Scenario Event
    pub parses : parse (file_of name files) ≡ ok scenario
    pub expected : passes context scenario (explain scenario.event) ≡ true

  Clean : Try (Unit {0}) × Progress → Type 0
  Clean x = (x.0 ≡ ok tt) × (x.1.failed ≡ [])

  count-passes :
      (s : Scenario Event) (b : Bool) (p : Progress)
      → (count context s b p).failed ≡ []
      → (b ≡ true) × (p.failed ≡ []) × ((count context s b p).passed ≡ suc p.passed)
  unfolding count
  count-passes s true p h = (refl, h, refl)
  count-passes s false p h = absurd (append-ne_nil p.failed s.id h)

  -- A file that is run and leaves no failure.
  tally-passes :
      (s : Scenario Event) (r : Try Explanation) (p : Progress)
      → Clean (tally context s r p)
      → (passes context s r ≡ true)
        × (p.failed ≡ [])
        × ((tally context s r p).1.passed ≡ suc p.passed)
  unfolding tally Clean
  tally-passes s panic p h = absurd (ground (arith, h.0))
  tally-passes s (ok ex) p h = count-passes s (passes context s (ok ex)) p h.1
  tally-passes s (err e) p h = count-passes s (passes context s (err e)) p h.1

  abbrev RunFile : Text → Progress → Try (Unit {0}) × Progress
  RunFile name p = run_file context explain parse cancelled files name p

  run_file-Passes :
      (name : Text) (p : Progress)
      → Clean (RunFile name p)
      → Passes name × (p.failed ≡ []) × ((RunFile name p).1.passed ≡ suc p.passed)
  unfolding run_file judge Clean
  run_file-Passes name p h = elim (Bool-cases (cancelled name)) [
    | inl c ↦ absurd (ground (arith, c, h.0))
    | inr c ↦ elim (Try-cases (parse (file_of name files))) [
      | inr e ↦ absurd (ground (arith, c, e, h.0))
      | inl (s, e) ↦ elim (Bool-cases (contains p.seen s.id)) [
        | inl d ↦ absurd (ground (arith, c, d, e, h.0))
        | inr d ↦
            let p' = record p { seen = s.id ∷ p.seen } in
            let run : RunFile name p ≡ tally context s (explain s.event) p' =
              ground (arith, c, d, e) in
            let (a, b, k) = tally-passes s (explain s.event) p' (subst Clean run h) in
            (
              record { scenario = s; parses = e; expected = a },
              b,
              ap (λ (x : Try (Unit {0}) × Progress). x.1.passed) run ∙ k,
            )
      ]
    ]
  ]

  abbrev RunFiles : List Text → Progress → Try (Unit {0}) × Progress
  RunFiles ns p = run_files context explain parse cancelled files ns p

  run_files-Passes :
      (ns : List Text) (p : Progress)
      → Clean (RunFiles ns p)
      → All Passes ns × (p.failed ≡ []) × ((RunFiles ns p).1.passed ≡ p.passed + length ns)
  unfolding run_files Clean
  run_files-Passes [] p h = (tt, h.1, omega arith)
  run_files-Passes (n ∷ ns) p h = elim (Try-cases (RunFile n p).0) [
    | inr e ↦ absurd (ground (arith, e, h.0))
    | inl (u, e) ↦
        let m = (RunFile n p).1 in
        let run : RunFiles (n ∷ ns) p ≡ RunFiles ns m = ground (arith, e) in
        let (a, f, k) = run_files-Passes ns m (subst Clean run h) in
        let (b, g, l) = run_file-Passes n p (e, f) in
        ((b, a), g, ap (λ (x : Try (Unit {0}) × Progress). x.1.passed) run ∙ k ∙ omega (arith, l))
  ]

  verdict-Clean : (x : Try (Unit {0}) × Progress) → (verdict x).0 ≡ ok tt → Clean x
  unfolding verdict Clean
  verdict-Clean (ok u, p) h = (refl, none_failed-nil p.failed h)
  verdict-Clean (err e, p) h = absurd (ground (arith, h))
  verdict-Clean (panic, p) h = absurd (ground (arith, h))

  verdict-report : (x : Try (Unit {0}) × Progress) → (verdict x).1 ≡ x.1
  unfolding verdict
  verdict-report (ok u, p) = refl
  verdict-report (err e, p) = refl
  verdict-report (panic, p) = refl

  run_named-Passes :
      (ns : List Text)
      → (run_named context explain parse cancelled files ns).0 ≡ ok tt
      → (ns ≢ [])
        × All Passes ns
        × ((run_named context explain parse cancelled files ns).1.passed ≡ length ns)
  unfolding run_named
  run_named-Passes [] h = absurd (ground (arith, h))
  run_named-Passes (n ∷ ns) h =
      let x = RunFiles (n ∷ ns) no_progress in
      let (a, f, k) = run_files-Passes (n ∷ ns) no_progress (verdict-Clean x h) in
      (λ e. cc, a, ap (λ (p : Progress). p.passed) (verdict-report x) ∙ k ∙ omega arith)

  -- Where the tests of a bundle pass, there is a test file, every test file holds a scenario with
  -- what Explain gives for it, and the report counts all of them as passed.
  pub run_tests-Passes :
      (run_tests context explain parse cancelled files).0 ≡ ok tt
      → (test_names files ≢ [])
        × All Passes (test_names files)
        × ((run_tests context explain parse cancelled files).1.passed ≡ length (test_names files))
  unfolding run_tests
  run_tests-Passes h = run_named-Passes (test_names files) h
