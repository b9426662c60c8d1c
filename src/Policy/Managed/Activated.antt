-- ===== src/Policy/Managed/Activated.antt =====
-- Proofs on the manager with the engine: what an activation has checked.
use normgate.Prelude.{
  true, false, Bool-cases, ◌≡◌, ◌≢◌, refl, sym, ap, ◌∙◌, arith, All, inl, inr, [], subst,
}
use normgate.Text.{Text}
use normgate.Policy.{Try, ok, err, panic, Try-cases, ok-injective}
use normgate.Policy.Bundle.Files.{Files}
use normgate.Policy.Bundle.Inspect.{Report}
use normgate.Policy.Bundle.Archive.Reads.{IsVerified, read_archive-IsVerified}
use normgate.Policy.Scenarios.{test_names}
use normgate.Policy.Scenarios.Passing.{Passes, run_tests-Passes}
use normgate.Policy.Manager.{Engine, Status, World, Manager, recording}
use normgate.Policy.Manager.Activation.{
  validate, persist, install, successor, activate_body, activate,
}
use normgate.Policy.Opa.Compile.{Rego}
use normgate.Policy.Opa.Revisions.{State, health}
use normgate.Policy.Opa.Revisions.Compiled.{compile-eq-ok}
use normgate.Policy.Managed.{Surroundings, managed}

module _ (E : Engine) (w : World) where
  install-active :
      (a : Text) (next : Status) (m : Manager E)
      → (install E w a next m).0 ≡ ok tt
      → (install E w a next m).1.active ≡ next
  unfolding install persist
  install-active a next m h = ground arith

  recording-ok :
      (x : Try (Unit {0}) × Manager E)
      → (recording x).0 ≡ ok tt
      → (x.0 ≡ ok tt) × ((recording x).1 ≡ x.1)
  unfolding recording
  recording-ok (ok a, m) h = (refl, refl)
  recording-ok (err e, m) h = absurd (ground arith)
  recording-ok (panic, m) h = absurd (ground arith)

  validate-ok :
      (b : E.Bundle) (m : Manager E) (r : Text)
      → (validate E w b m).0 ≡ ok r
      → ((E.compile m.engine b).0 ≡ ok r)
        × (E.is_ready (E.compile m.engine b).1 ≡ true)
        × (E.run_tests (E.compile m.engine b).1 r b ≡ ok tt)
  unfolding validate
  validate-ok b m r h = elim (Try-cases (E.compile m.engine b).0) [
    | inr e ↦ absurd (ground arith)
    | inl (k, e) ↦ elim (Bool-cases (E.is_ready (E.compile m.engine b).1)) [
      | inr f ↦ absurd (ground arith)
      | inl f ↦ elim (Try-cases (E.run_tests (E.compile m.engine b).1 k b)) [
        | inr g ↦ absurd (ground arith)
        | inl (u, g) ↦
            let same : k ≡ r = ground arith in
            (e ∙ ap ok same, f, ap (λ x. E.run_tests (E.compile m.engine b).1 x b) (sym same) ∙ g)
      ]
    ]
  ]

  activate_body-ok :
      (a source etag : Text) (m : Manager E)
      → (activate_body E w a source etag m).0 ≡ ok tt
      → (b : E.Bundle) × (r : Text) × (E.read_archive a ≡ ok b)
        × ((validate E w b m).0 ≡ ok r)
        × ((activate_body E w a source etag m).1.active.revision ≡ r)
  unfolding activate_body
  activate_body-ok a source etag m h = elim (Try-cases (E.read_archive a)) [
    | inr f ↦ absurd (ground arith)
    | inl (b, e) ↦ elim (Try-cases (validate E w b m).0) [
      | inr f ↦ absurd (ground arith)
      | inl (r, f) ↦
          let m' = (validate E w b m).1 in
          let next = successor E w m'.active r source etag in
          (
            b,
            r,
            e,
            f,
            rw e (
                rw f (
                  ap (λ (x : Status). x.revision) (install-active a next m' (ground arith))
                  ∙ unfold successor in refl)),
          )
    ]
  ]

health-open : {R : Rego} (s : State R) → (health false s).0 ≡ true → s.closed ≡ false
unfolding health
health-open s h = ground arith

-- What is known of an archive that was activated in an engine: ReadArchive accepts it, the revision
-- is the digest that is computed from its files, and its scenarios pass in the engine after Compile,
-- which is open.
pub record IsActivated (S : Surroundings) (archive revision : Text) (before : State S.rego)
    : Type 0 where
  pub files : Files
  pub reads : (managed S).read_archive archive ≡ ok files
  pub verified : IsVerified S.digest S.decoders S.order files
  pub digest : revision ≡ (verified.sealed.1).revision
  pub open_engine : ((managed S).compile before files).1.closed ≡ false
  pub some_test : test_names files ≢ []
  pub tested :
      All
        (Passes S.context
          (S.explain ((managed S).compile before files).1 revision)
          S.parse
          S.cancelled_test
          files)
        (test_names files)

-- An activation that succeeds makes a revision active that is the digest of the files in its
-- archive, which ReadArchive has verified, and whose scenarios, at least one, all pass in the engine
-- as Compile has left it.
pub activate-IsActivated :
    (S : Surroundings) (w : World) (archive source etag : Text) (m : Manager (managed S))
    → (activate (managed S) w archive source etag m).0 ≡ ok tt
    → IsActivated S archive
        (activate (managed S) w archive source etag m).1.active.revision
        m.engine
unfolding activate
activate-IsActivated S w archive source etag m h =
    let M = managed S in
    let (b, k) = recording-ok M w (activate_body M w archive source etag m) h in
    let (files, r, reads, v, a) = activate_body-ok M w archive source etag m b in
    let (c, ready, t) = validate-ok M w files m r v in
    let (sealed, q, e, x) =
      compile-eq-ok S.digest S.decoders S.order (S.cancelled m.engine) m.engine
        (S.elsewhere m.engine) files r c in
    let verified =
      read_archive-IsVerified S.packages S.digest S.decoders S.order archive files reads in
    let (some_test, tested, count) =
      run_tests-Passes S.context (S.explain (M.compile m.engine files).1 r) S.parse S.cancelled_test
        files t in
    let same : (recording (activate_body M w archive source etag m)).1.active.revision ≡ r =
      ap (λ (x : Manager M). x.active.revision) k ∙ a in
    subst (λ y. IsActivated S archive y m.engine) (sym same)
      (record {
        files = files;
        reads = reads;
        verified = verified;
        digest =
            e
            ∙ ap (λ (x : Files × Report). (x.1).revision)
                (ok-injective sealed verified.sealed (sym q ∙ verified.seals));
        open_engine = health-open (M.compile m.engine files).1 ready;
        some_test = some_test;
        tested = tested;
      })
