-- ===== src/Policy/Opa/Revisions/Compiled.antt =====
-- Proofs on Compile: the revision that it returns.
use normgate.Prelude.{
  ◌≡◌, refl, sym, ap, ◌∙◌, ◌⊎◌, inl, inr, true, Option, none, some, List, arith, length, leb, subst,
  if-cases,
}
use normgate.Text.{Text}
use normgate.Text.Utf8.{Bytes}
use normgate.Contracts.{PolicyManifest}
use normgate.Policy.{Try, ok, err, panic, Try-cases}
use normgate.Policy.Bundle.Files.{Files}
use normgate.Policy.Bundle.Inspect.{Decoders, Report}
use normgate.Policy.Bundle.Seal.{seal}
use normgate.Policy.Opa.{max_revisions}
use normgate.Policy.Opa.Compile.{Rego, Cancelled, build_queries}
use normgate.Policy.Opa.Revisions.{
  Prepared, State, Outcome, find_revision, put_revision, publish, compile, prepare_revision,
  compile_sealed, is_known, settle, built, returns, publishes,
}
use normgate.Policy.Opa.Revisions.Steps.{
  Transitions, then_step, publishing, find_revision-put_revision, steps-find_revision,
}

module _ {R : Rego} where
  publish-eq-ok :
      (p : Prepared R) (s : State R) (r : Text)
      → (publish p s).0 ≡ ok r
      → (r ≡ p.report.revision) × (find_revision r (publish p s).1.revisions ≡ some p)
  unfolding publish
  publish-eq-ok p s r =
      let Found = λ (x : Try Text × State R).
        x.0 ≡ ok r → (r ≡ p.report.revision) × (find_revision r x.1.revisions ≡ some p) in
      if-cases Found s.closed (λ c h. absurd (ground arith))
        (λ c.
          if-cases Found (leb max_revisions (length s.revisions)) (λ f h. absurd (ground arith))
            (λ f h.
              let e : r ≡ p.report.revision = ground arith in
              (
                e,
                subst (λ x. find_revision x (put_revision p.report.revision p s.revisions) ≡ some p)
                    (sym e) (find_revision-put_revision p.report.revision p s.revisions),
              )))

  -- The revision was in the map, or its bundle passed the checks and is there now.
  abbrev pub IsCompiled : Cancelled → State R → Files × Report → Text → State R → Type 0
  IsCompiled cancelled seen (files, report) r after =
      ((p : Prepared R) × (find_revision r seen.revisions ≡ some p))
      ⊎ ((p : Prepared R) × (p.report ≡ report)
          × (build_queries R cancelled report files ≡ ok p.queries)
          × (find_revision r after.revisions ≡ some p))

  known-some : (o : Option (Prepared R)) → is_known o ≡ true → (p : Prepared R) × (o ≡ some p)
  known-some none h = cc
  known-some (some p) h = (p, refl)

  built-ok :
      (cancelled : Cancelled) (seen later : State R) (files : Files) (report : Report) (r : Text)
      (t : Try (List R.Query))
      → build_queries R cancelled report files ≡ t
      → (settle (built report t) later).0 ≡ ok r
      → (r ≡ report.revision)
        × IsCompiled cancelled seen (files, report) r (settle (built report t) later).1
  built-ok cancelled seen later files report r (ok qs) q h =
      let p : Prepared R = record { report = report; queries = qs } in
      let (e, f) = publish-eq-ok p later r h in (e, inr (p, refl, q, f))
  built-ok cancelled seen later files report r (err x) q h = absurd (ground arith)
  built-ok cancelled seen later files report r panic q h = absurd (ground arith)

  settle-Transitions :
      (seen later : State R) (o : Outcome R)
      → Transitions seen later
      → Transitions seen (settle o later).1
  settle-Transitions seen later (returns r) st = st
  settle-Transitions seen later (publishes p) st =
      then_step seen later (publish p later).1 st (publishing p later)

  module _ (digest : Bytes → Text) (decoders : Decoders)
      (order : List PolicyManifest → List PolicyManifest) where
    -- The state after a call is the one at its second lock, or one step further.
    pub compile-Transitions :
        (cancelled : Cancelled) (seen later : State R) (files : Files)
        → Transitions seen later
        → Transitions seen (compile digest decoders order cancelled seen later files).1
    unfolding compile
    compile-Transitions cancelled seen later files st =
        settle-Transitions seen later (prepare_revision digest decoders order cancelled seen files)
          st

    compile_sealed-ok :
        (cancelled : Cancelled) (seen later : State R) (files : Files) (report : Report) (r : Text)
        → (settle
            (compile_sealed digest decoders order cancelled seen (ok (files, report)))
            later).0
          ≡ ok r
        → (r ≡ report.revision)
          × IsCompiled cancelled seen
              (files, report)
              r
              (settle
                (compile_sealed digest decoders order cancelled seen (ok (files, report)))
                later).1
    compile_sealed-ok cancelled seen later files report r =
        let Good = λ (o : Outcome R).
          (settle o later).0 ≡ ok r
          → (r ≡ report.revision)
            × IsCompiled cancelled seen (files, report) r (settle o later).1 in
        if-cases Good seen.closed (λ c h. absurd (ground arith))
          (λ c.
            if-cases Good (is_known (find_revision report.revision seen.revisions))
              (λ k.
                if-cases Good cancelled.when_cached (λ x h. absurd (ground arith))
                  (λ x h.
                    let e : r ≡ report.revision = ground arith in
                    let (p, f) = known-some (find_revision report.revision seen.revisions) k in
                    (e, inl (p, ap (λ y. find_revision y seen.revisions) e ∙ f))))
              (λ k.
                built-ok cancelled seen later files report r
                  (build_queries R cancelled report files) refl))

    pub compile-eq-ok :
        (cancelled : Cancelled) (seen later : State R) (files : Files) (r : Text)
        → (compile digest decoders order cancelled seen later files).0 ≡ ok r
        → (sealed : Files × Report) × (seal digest decoders order files ≡ ok sealed)
          × (r ≡ (sealed.1).revision)
          × IsCompiled cancelled seen sealed r
              (compile digest decoders order cancelled seen later files).1
    unfolding compile prepare_revision
    compile-eq-ok cancelled seen later files r =
        let Good = λ (o : Outcome R).
          (settle o later).0 ≡ ok r
          → (sealed : Files × Report) × (seal digest decoders order files ≡ ok sealed)
            × (r ≡ (sealed.1).revision)
            × IsCompiled cancelled seen sealed r (settle o later).1 in
        if-cases Good cancelled.at_start (λ c h. absurd (ground arith))
          (λ c h. elim (Try-cases (seal digest decoders order files)) [
            | inr q ↦ absurd (ground (arith, q))
            | inl (sealed, q) ↦
                let (e, k) = compile_sealed-ok cancelled seen later sealed.0 sealed.1 r (
                  subst
                    (λ t.
                      (settle (compile_sealed digest decoders order cancelled seen t) later).0
                      ≡ ok r)
                    q h) in
                (
                  sealed,
                  q,
                  e,
                  subst
                      (λ t.
                        IsCompiled cancelled seen sealed r
                          (settle (compile_sealed digest decoders order cancelled seen t) later).1)
                      (sym q) k,
                )
          ])

    -- A revision that Compile returns is that of the sealed files. After the call the engine has an
    -- entry for it, or has been closed, whatever calls of Compile and Close led from the state that
    -- it reads to the one at its second lock.
    pub compile_revision :
        (cancelled : Cancelled) (seen later : State R) (files : Files) (r : Text)
        → Transitions seen later
        → (compile digest decoders order cancelled seen later files).0 ≡ ok r
        → (sealed : Files × Report) × (seal digest decoders order files ≡ ok sealed)
          × (r ≡ (sealed.1).revision)
          × (((compile digest decoders order cancelled seen later files).1.closed ≡ true)
              ⊎ ((p : Prepared R) × (find_revision r
                      (compile digest decoders order cancelled seen later files).1.revisions
                    ≡ some p)))
    compile_revision cancelled seen later files r st h =
        let (sealed, q, e, k) = compile-eq-ok cancelled seen later files r h in
        (
          sealed,
          q,
          e,
          elim k [
            | inr (p, b, c, f) ↦ inr (p, f)
            | inl (p, f) ↦
                steps-find_revision r seen
                  (compile digest decoders order cancelled seen later files).1 p
                  (compile-Transitions cancelled seen later files st) f
          ],
        )
