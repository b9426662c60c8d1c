-- ===== src/Policy/Manager/Activation.antt =====
-- validate, persist and activate of internal/policy/manager.go.
use normgate.Prelude.{true, ◌&&◌, not, none, some, [], if◌then◌else◌}
use normgate.Text.{Text, text_eq}
use normgate.Policy.{context_error, failure, ok, err, panic}
use normgate.Policy.Exec.{Exec, ◌>>=◌, ◌>>◌, lift, unless}
use normgate.Policy.Manager.{
  Status, Engine, stored, World, artifact_path, Manager, atomic_write, get_active, set_active,
  recording, landed, outcome,
}

module _ (E : Engine) where
  open E use {Bundle, read_archive, inspect_revision, compile, is_ready, run_tests}

  -- validate
  unfoldable pub validate : World → Bundle → Exec (Manager E) Text
  validate w bundle m =
      let (r, engine') = compile m.engine bundle in
      let m' = record m { engine = engine' } in
      (do
        revision ← lift r
        unless (is_ready engine' && not w.cancelled_in_health) (failure "unhealthy_candidate")
        lift (run_tests engine' revision bundle)
        unless (not w.cancelled_in_validate) context_error
        lift (ok revision))
        m'

  -- persist
  unfoldable pub persist : World → Status → Exec (Manager E) (Unit {0})
  persist w s m = (
    outcome (atomic_write w.state_write),
    record m { state = if landed (atomic_write w.state_write) then some (stored s) else m.state },
  )

  unfoldable pub write_artifact : World → Text → Text → Exec (Manager E) (Unit {0})
  write_artifact w name archive m = (
    outcome (atomic_write w.artifact_write),
    record m {
      artifact = λ p.
          if landed (atomic_write w.artifact_write) && text_eq p name
          then some archive
          else m.artifact p;
    },
  )

  -- The archive that is there must be that of the revision.
  unfoldable pub check_artifact : Text → Text → Exec (Manager E) (Unit {0})
  check_artifact revision existing = do
    bundle ← lift (read_archive existing)
    inspected ← lift (elim (inspect_revision bundle) [
      | ok r ↦ ok r
      | err e ↦ err (failure "checksum_mismatch")
      | panic ↦ panic
    ])
    unless (text_eq inspected revision) (failure "checksum_mismatch")

  -- The archive is written once, under the name of its revision.
  unfoldable pub store_artifact : World → Text → Text → Exec (Manager E) (Unit {0})
  store_artifact w revision archive m =
      if w.existing_unreadable
      then (err (failure "persistence_failed"), m)
      else elim (m.artifact (artifact_path revision)) [
        | some existing ↦ check_artifact revision existing m
        | none ↦ write_artifact w (artifact_path revision) archive m
      ]

  -- The status that a validated revision becomes active with.
  unfoldable pub successor : World → Status → Text → Text → Text → Status
  successor w old revision source etag = record {
    ready = true;
    revision = revision;
    previous = if text_eq old.revision revision then old.previous else old.revision;
    source = source;
    etag = etag;
    refreshed_at = w.now;
    last_error = [];
  }

  unfoldable pub install : World → Text → Status → Exec (Manager E) (Unit {0})
  install w archive next = do
    store_artifact w next.revision archive
    unless (not w.cancelled_before_persist) context_error
    persist w next
    set_active next

  unfoldable pub activate_body : World → Text → Text → Text → Exec (Manager E) (Unit {0})
  activate_body w archive source etag = do
    bundle ← lift (read_archive archive)
    revision ← validate w bundle
    state ← get_active
    install w archive (successor w state revision source etag)

  -- activate: every failure is recorded.
  unfoldable pub activate : World → Text → Text → Text → Exec (Manager E) (Unit {0})
  activate w archive source etag m = recording (activate_body w archive source etag m)
