-- ===== src/Policy/Manager/Success.antt =====
-- Proofs on internal/policy/manager.go: Status, Evaluate, and the calls that succeed.
use normgate.Prelude.{
  ℕ, ◌+◌, ◌≤◌, ◌<◌, ◌≡◌, ◌≢◌, refl, ap, Option, none, some, arith, true, false, [], ◌↔◌, Bool-cases,
  inl, inr, ◌⊎◌, if◌then◌else◌, if-cases, ltb, length, ◌||◌, not,
}
use normgate.Text.{Text, text_eq, text_eq→eq, text_eq_refl}
use normgate.Policy.{Error, Try, ok, err, panic, failure, Try-cases}
use normgate.Policy.Exec.{◌>>◌}
use normgate.Policy.Manager.{
  Status, Engine, stored, World, Manager, Source, FetchResult, recording, artifact_path, set_active,
  is_digest, max_archive,
}
use normgate.Policy.Manager.Activation.{
  validate, persist, install, activate_body, activate, successor,
}
use normgate.Policy.Manager.Lifecycle.{
  status, evaluate, roll_back_to, rollback, renew, receive, refresh, Call, activates, rolls_back,
  refreshes, call,
}

-- The conditions under which the active revision may decide at a time.
pub record IsFresh (E : Engine) (now : ℕ) (m : Manager E) : Type 0 where
  pub activated : m.active.ready ≡ true
  pub named : m.active.revision ≢ []
  pub refreshed : m.active.refreshed_at ≤ now
  pub young : now < m.active.refreshed_at + m.max_staleness
  pub healthy : E.is_ready m.engine ≡ true

module _ (E : Engine) (now : ℕ) (m : Manager E) where
  named_of : text_eq m.active.revision [] ≡ false → m.active.revision ≢ []
  named_of h e = ground (arith, ap (λ x. text_eq x []) e, text_eq_refl [])

  ready-IsFresh : (status E now m).ready ≡ true → IsFresh E now m
  unfolding status
  ready-IsFresh h = record {
    activated = ground arith;
    named = named_of (ground arith);
    refreshed = ground arith;
    young = ground arith;
    healthy = ground arith;
  }

  IsFresh-ready : IsFresh E now m → (status E now m).ready ≡ true
  unfolding status
  IsFresh-ready f = ground (arith, f.named, text_eq→eq m.active.revision [])

  -- The manager reports that it is ready exactly while its active revision is fresh.
  pub status_ready_iff : ((status E now m).ready ≡ true) ↔ IsFresh E now m
  status_ready_iff = (ready-IsFresh, IsFresh-ready)

  -- A fresh revision decides, and a manager that is not fresh answers with `stale`: no decision
  -- is served past the maximal staleness.
  pub evaluate_cases :
      (event : E.Event)
      → (IsFresh E now m × (evaluate E now event m ≡ E.evaluate m.engine m.active.revision event))
        ⊎ ((¬ IsFresh E now m) × (evaluate E now event m ≡ err (failure "stale")))
  unfolding evaluate
  evaluate_cases event = elim (Bool-cases (status E now m).ready) [
    | inl e ↦ inl (ready-IsFresh e, rw e (unfold status in refl))
    | inr e ↦ inr (λ f. cc (e, IsFresh-ready f), rw e)
  ]

-- What a call that succeeds leaves behind: state.json holds the active status, which is fresh.
pub record IsSaved (E : Engine) (w : World) (m : Manager E) : Type 0 where
  pub saved : m.state ≡ some (stored m.active)
  pub at_now : m.active.refreshed_at ≡ w.now
  pub no_error : m.active.last_error ≡ []

module _ (E : Engine) (w : World) where
  save-IsSaved :
      (next : Status) (m : Manager E)
      → next.refreshed_at ≡ w.now
      → next.last_error ≡ []
      → ((do persist E w next; set_active next) m).0 ≡ ok tt
      → IsSaved E w ((do persist E w next; set_active next) m).1
  unfolding persist
  save-IsSaved next m p q h = ground arith

  install-IsSaved :
      (a : Text) (next : Status) (m : Manager E)
      → next.refreshed_at ≡ w.now
      → next.last_error ≡ []
      → (install E w a next m).0 ≡ ok tt
      → IsSaved E w (install E w a next m).1
  unfolding install persist
  install-IsSaved a next m p q h = ground arith

  abbrev Saved : Try (Unit {0}) × Manager E → Type 0
  Saved x = x.0 ≡ ok tt → IsSaved E w x.1

  recording-Saved : (x : Try (Unit {0}) × Manager E) → Saved x → Saved (recording x)
  unfolding recording
  recording-Saved (ok a, m) s h = s refl
  recording-Saved (err e, m) s h = absurd (ground arith)
  recording-Saved (panic, m) s h = absurd (ground arith)

  error-Saved : (e : Error) (m : Manager E) → Saved (recording (err e, m))
  error-Saved e m = recording-Saved (err e, m) (λ h. absurd (ground arith))

  activate_body-Saved :
      (a source etag : Text) (m : Manager E) → Saved (activate_body E w a source etag m)
  unfolding activate_body
  activate_body-Saved a source etag m h = elim (Try-cases (E.read_archive a)) [
    | inr f ↦ absurd (ground arith)
    | inl (b, e) ↦ elim (Try-cases (validate E w b m).0) [
      | inr f ↦ absurd (ground arith)
      | inl (r, f) ↦
          let m' = (validate E w b m).1 in
          rw e (
            rw f (
              install-IsSaved a (successor E w m'.active r source etag) m'
                (unfold successor in refl) (unfold successor in refl) (ground arith)))
    ]
  ]

  activate-Saved : (a source etag : Text) (m : Manager E) → Saved (activate E w a source etag m)
  unfolding activate
  activate-Saved a source etag m = recording-Saved _ (activate_body-Saved a source etag m)

  roll_back_to-Saved : (r : Text) (o : Option Text) (m : Manager E) → Saved (roll_back_to E w r o m)
  unfolding roll_back_to
  roll_back_to-Saved r none m = error-Saved _ m
  roll_back_to-Saved r (some raw) m =
      if-cases Saved (ltb max_archive (length raw)) (λ _. error-Saved _ m)
        (λ _. activate-Saved raw _ [] m)

  rollback-Saved : (r : Text) (m : Manager E) → Saved (rollback E w r m)
  unfolding rollback
  rollback-Saved r m =
      if-cases Saved (not (is_digest r)) (λ _. error-Saved _ m)
        (λ _.
          roll_back_to-Saved r
            (if w.artifact_unreadable (artifact_path r) then none else m.artifact (artifact_path r))
            m)

  renew-Saved : (s : Source) (etag : Text) (m : Manager E) → Saved (renew E w s etag m.active m)
  unfolding renew
  renew-Saved s etag m =
      if-cases Saved
        (text_eq m.active.revision [] || not (text_eq m.active.source s.id) || text_eq etag [])
        (λ _. error-Saved _ m)
        λ _.
          if-cases Saved w.cancelled_before_persist (λ _. error-Saved _ m)
            λ _.
              recording-Saved _ (
                save-IsSaved (record m.active { refreshed_at = w.now; last_error = [] }) m refl
                  refl)

  receive-Saved :
      (s : Source) (etag : Text) (x : Try FetchResult) (m : Manager E)
      → Saved (receive E w s etag x m)
  unfolding receive
  receive-Saved s etag (err e) m = error-Saved _ m
  receive-Saved s etag panic m = λ h. absurd (ground arith)
  receive-Saved s etag (ok x) m =
      if-cases Saved x.not_modified (λ _. renew-Saved s etag m)
        (λ _. activate-Saved x.bytes s.id x.etag m)

-- A call of a manager that succeeds leaves its active status in state.json, refreshed at the time of
-- the call and without an error.
pub call_success :
    (E : Engine) (w : World) (c : Call) (m : Manager E)
    → (call E w c m).0 ≡ ok tt
    → IsSaved E w (call E w c m).1
unfolding call refresh
call_success E w (activates a source etag) m h = activate-Saved E w a source etag m h
call_success E w (rolls_back r) m h = rollback-Saved E w r m h
call_success E w (refreshes none) m h = absurd (unfold recording in ground arith)
call_success E w (refreshes (some s)) m h =
    let etag = if text_eq m.active.source s.id then m.active.etag else [] in
    receive-Saved E w s etag (s.fetch etag) m h
