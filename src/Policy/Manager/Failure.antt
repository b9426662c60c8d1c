-- ===== src/Policy/Manager/Failure.antt =====
-- Proofs on internal/policy/manager.go: the calls that fail.
use normgate.Prelude.{
  ◌≡◌, Option, none, some, arith, [], ◌⊎◌, inl, inr, Option-cases, if◌then◌else◌, ◌++◌,
}
use normgate.Text.{Text, codes, text_eq}
use normgate.Policy.{Error, Try, ok, err, panic, Try-cases}
use normgate.Policy.Manager.{
  Status, Engine, World, Manager, Source, FetchResult, record_error, recording, error_code,
  artifact_path,
}
use normgate.Policy.Manager.Activation.{
  validate, persist, write_artifact, check_artifact, store_artifact, install, activate_body,
  activate, successor,
}
use normgate.Policy.Manager.Lifecycle.{
  roll_back_to, rollback, renew, receive, refresh, Call, activates, rolls_back, refreshes, call,
}

module _ (E : Engine) (w : World) where
  pub validate_frame :
      (b : E.Bundle) (m : Manager E)
      → ((validate E w b m).1.active ≡ m.active)
        × ((validate E w b m).1.artifact ≡ m.artifact)
        × ((validate E w b m).1.state ≡ m.state)
  unfolding validate
  validate_frame b m = ground arith

  pub check_artifact_frame : (r a : Text) (m : Manager E) → (check_artifact E r a m).1 ≡ m
  unfolding check_artifact
  check_artifact_frame r a m = ground arith

  pub store_artifact_frame :
      (r a : Text) (m : Manager E)
      → ((store_artifact E w r a m).1.active ≡ m.active)
        × ((store_artifact E w r a m).1.state ≡ m.state)
  unfolding store_artifact write_artifact
  store_artifact_frame r a m = elim (Option-cases (m.artifact (artifact_path r))) [
    | inl e ↦ ground arith
    | inr (x, e) ↦ ground (arith, check_artifact_frame r x m)
  ]

  -- A step that fails has not changed the active status.
  abbrev Keeps : Try (Unit {0}) × Manager E → Manager E → Type 0
  Keeps (r, m') m = (r ≡ ok tt) ⊎ (m'.active ≡ m.active)

  install-Keeps : (a : Text) (next : Status) (m : Manager E) → Keeps (install E w a next m) m
  unfolding install persist
  install-Keeps a next m = ground (arith, store_artifact_frame next.revision a m)

  activate_body-Keeps :
      (a source etag : Text) (m : Manager E) → Keeps (activate_body E w a source etag m) m
  unfolding activate_body
  activate_body-Keeps a source etag m = elim (Try-cases (E.read_archive a)) [
    | inr f ↦ ground arith
    | inl (b, e) ↦ elim (Try-cases (validate E w b m).0) [
      | inr f ↦ ground (arith, validate_frame b m)
      | inl (r, f) ↦
          let m' = (validate E w b m).1 in
          ground
            (arith, validate_frame b m, install-Keeps a (successor E w m'.active r source etag) m')
    ]
  ]

  -- After a recorded failure the active status differs in its last error only.
  abbrev pub FailsSafely : Try (Unit {0}) × Manager E → Manager E → Type 0
  FailsSafely (r, m') m =
      (e : Error) → r ≡ err e → m'.active ≡ record m.active { last_error = error_code e }

  recording-FailsSafely :
      (x : Try (Unit {0}) × Manager E) (m : Manager E) → Keeps x m → FailsSafely (recording x) m
  unfolding recording record_error
  recording-FailsSafely (ok a, m') m k e h = cc
  recording-FailsSafely (err d, m') m k e h = ground arith
  recording-FailsSafely (panic, m') m k e h = cc

  activate-FailsSafely :
      (a source etag : Text) (m : Manager E) → FailsSafely (activate E w a source etag m) m
  unfolding activate
  activate-FailsSafely a source etag m =
      recording-FailsSafely _ m (activate_body-Keeps a source etag m)

  roll_back_to-FailsSafely :
      (r : Text) (o : Option Text) (m : Manager E) → FailsSafely (roll_back_to E w r o m) m
  unfolding roll_back_to recording record_error
  roll_back_to-FailsSafely r none m e h = ground arith
  roll_back_to-FailsSafely r (some raw) m e h =
      ground (arith, activate-FailsSafely raw (codes "rollback:" ++ r) [] m e)

  rollback-FailsSafely : (r : Text) (m : Manager E) → FailsSafely (rollback E w r m) m
  unfolding rollback recording record_error
  rollback-FailsSafely r m e h = ground (
    arith,
    roll_back_to-FailsSafely r
        (if w.artifact_unreadable (artifact_path r) then none else m.artifact (artifact_path r)) m
        e,
  )

  renew-FailsSafely :
      (s : Source) (etag : Text) (m : Manager E) → FailsSafely (renew E w s etag m.active m) m
  unfolding renew persist recording record_error
  renew-FailsSafely s etag m e h = ground arith

  receive-FailsSafely :
      (s : Source) (etag : Text) (x : Try FetchResult) (m : Manager E)
      → FailsSafely (receive E w s etag x m) m
  unfolding receive recording record_error
  receive-FailsSafely s etag (err d) m e h = ground arith
  receive-FailsSafely s etag panic m e h = cc
  receive-FailsSafely s etag (ok x) m e h =
      ground (arith, renew-FailsSafely s etag m e, activate-FailsSafely x.bytes s.id x.etag m e)

  refresh-FailsSafely : (s : Option Source) (m : Manager E) → FailsSafely (refresh E w s m) m
  unfolding refresh recording record_error
  refresh-FailsSafely none m e h = ground arith
  refresh-FailsSafely (some s) m e h =
      let etag = if text_eq m.active.source s.id then m.active.etag else [] in
      receive-FailsSafely s etag (s.fetch etag) m e h

-- A call of a manager that fails changes nothing of the active status but its last error, which
-- is the code of the error.
pub call_failure :
    (E : Engine) (w : World) (c : Call) (m : Manager E) (e : Error)
    → (call E w c m).0 ≡ err e
    → (call E w c m).1.active ≡ record m.active { last_error = error_code e }
unfolding call
call_failure E w (activates a source etag) m e h = activate-FailsSafely E w a source etag m e h
call_failure E w (rolls_back r) m e h = rollback-FailsSafely E w r m e h
call_failure E w (refreshes s) m e h = refresh-FailsSafely E w s m e h
