-- ===== src/Policy/Manager/Startup.antt =====
-- NewManager and recover of internal/policy/manager.go.
use normgate.Prelude.{
  Option, Bool, true, false, ◌&&◌, ◌||◌, not, none, some, [], ◌==◌, if◌then◌else◌,
}
use normgate.Text.{Text, codes, text_eq}
use normgate.Policy.{Try, Error, failure, ok, err, panic}
use normgate.Policy.Exec.{Exec, ◌>>=◌, ◌>>◌, lift, unless}
use normgate.Policy.Manager.{
  Status, Engine, stored, garbage, World, in_background, is_digest, artifact_path, Manager,
  set_active,
}
use normgate.Policy.Manager.Activation.{validate, persist}

-- The checks on the fields of state.json.
unfoldable pub plausible : Status → Bool
plausible s =
    is_digest s.revision
    && not (s.refreshed_at == 0)
    && (text_eq s.previous [] || is_digest s.previous)

abbrev pub fallback : Status → Text → Status
fallback s revision = record s {
  revision = revision;
  previous = [];
  etag = [];
  last_error = codes "ng.policy.recovered_previous";
}

abbrev pub no_status : Status
no_status = record {
  ready = false;
  revision = [];
  previous = [];
  source = [];
  etag = [];
  refreshed_at = 0;
  last_error = [];
}

module _ (E : Engine) where
  open E use {State, read_archive}

  -- The archive found for a recovery must validate as the revision asked for.
  unfoldable pub recover_from : World → Text → Option Text → Exec (Manager E) Text
  recover_from w revision none m = (err (failure "recovery_failed"), m)
  recover_from w revision (some raw) m =
      (do
        bundle ← lift (read_archive raw)
        r ← validate E (in_background w) bundle
        unless (text_eq r revision) (failure "checksum_mismatch")
        lift (ok r))
        m

  -- recover
  unfoldable pub recover : World → Text → Exec (Manager E) Text
  recover w revision m =
      recover_from w revision
        (if w.artifact_unreadable (artifact_path revision)
          then none
          else m.artifact (artifact_path revision))
        m

  -- The second recovery, where the first failed and there is a previous revision.
  unfoldable pub recover_previous : World → Status → Error → Exec (Manager E) Status
  recover_previous w s e m =
      if text_eq s.previous []
      then (err e, m)
      else (do revision ← recover w s.previous; lift (ok (fallback s revision))) m

  unfoldable pub or_previous : World → Status → Try Text → Exec (Manager E) Status
  or_previous w s (ok revision) m = (ok s, m)
  or_previous w s (err e) m = recover_previous w s e m
  or_previous w s panic m = (panic, m)

  -- The revision of state.json, or else the previous one.
  unfoldable pub recover_state : World → Status → Exec (Manager E) Status
  recover_state w s m = let (r, m') = recover w s.revision m in or_previous w s r m'

  unfoldable pub start_from : World → Status → Exec (Manager E) (Unit {0})
  start_from w s = do
    recovered ← recover_state w s
    persist E w (record recovered { ready = true })
    set_active (record recovered { ready = true })

  -- NewManager over the directory that an earlier manager left; a failure returns no manager.
  unfoldable pub new_manager : World → (dir : Text) → Option State → Exec (Manager E) (Unit {0})
  new_manager w dir none old = (err (failure "invalid_manager"), old)
  new_manager w dir (some engine) old =
      let m = record old { engine = engine; active = no_status } in
      if m.max_staleness == 0 || text_eq dir []
      then (err (failure "invalid_manager"), m)
      else if w.directory_fails || w.state_unreadable
      then (err (failure "persistence_failed"), m)
      else elim m.state [
        | none ↦ (ok tt, m)
        | some garbage ↦ (err (failure "invalid_state"), m)
        | some (stored s) ↦
            if plausible s then start_from w s m else (err (failure "invalid_state"), m)
      ]
