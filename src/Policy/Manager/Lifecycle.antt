-- ===== src/Policy/Manager/Lifecycle.antt =====
-- Rollback, Refresh, Status and Evaluate of internal/policy/manager.go.
use normgate.Prelude.{
  ℕ, ◌+◌, ◌&&◌, ◌||◌, not, Option, none, some, [], ◌++◌, ltb, leb, if◌then◌else◌, length,
}
use normgate.Text.{Text, codes, text_eq}
use normgate.Contracts.{Decision}
use normgate.Policy.{context_error, failure, Try, ok, err, panic}
use normgate.Policy.Exec.{Exec, ◌>>◌}
use normgate.Policy.Manager.{
  FetchResult, Status, Engine, World, Source, max_archive, is_digest, artifact_path, Manager,
  set_active, recording,
}
use normgate.Policy.Manager.Activation.{persist, activate}

-- The calls that change a manager.
pub data Call : Type 0 where
  activates : (archive source etag : Text) → Call
  rolls_back : (revision : Text) → Call
  refreshes : Option Source → Call

module _ (E : Engine) where
  open E use {Event, is_ready}

  -- The archive found for a rollback, read within its limit. Its ETag is cleared.
  unfoldable pub roll_back_to : World → Text → Option Text → Exec (Manager E) (Unit {0})
  roll_back_to w revision none m = recording (err (failure "unknown_revision"), m)
  roll_back_to w revision (some raw) m =
      if ltb max_archive (length raw)
      then recording (err (failure "bundle_limit"), m)
      else activate E w raw (codes "rollback:" ++ revision) [] m

  -- Rollback
  unfoldable pub rollback : World → Text → Exec (Manager E) (Unit {0})
  unfolding roll_back_to
  rollback w revision m =
      if not (is_digest revision)
      then recording (err (failure "unknown_revision"), m)
      else roll_back_to w revision
          (if w.artifact_unreadable (artifact_path revision)
            then none
            else m.artifact (artifact_path revision))
          m

  -- The answer "not modified" keeps the revision and renews its age.
  unfoldable pub renew : World → Source → Text → Status → Exec (Manager E) (Unit {0})
  renew w source etag state m =
      if text_eq state.revision [] || not (text_eq state.source source.id) || text_eq etag []
      then recording (err (failure "invalid_response"), m)
      else if w.cancelled_before_persist
      then recording (err context_error, m)
      else let next = record state { refreshed_at = w.now; last_error = [] } in
        recording ((do persist E w next; set_active next) m)

  -- What Refresh does with the result of Fetch.
  unfoldable pub receive : World → Source → Text → Try FetchResult → Exec (Manager E) (Unit {0})
  receive w source etag (err e) m = recording (err e, m)
  receive w source etag panic m = (panic, m)
  receive w source etag (ok fetched) m =
      if fetched.not_modified
      then renew w source etag m.active m
      else activate E w fetched.bytes source.id fetched.etag m

  -- Refresh
  unfoldable pub refresh : World → Option Source → Exec (Manager E) (Unit {0})
  refresh w none m = recording (err (failure "invalid_source"), m)
  refresh w (some source) m =
      let etag = if text_eq m.active.source source.id then m.active.etag else [] in
      receive w source etag (source.fetch etag) m

  -- Status: an elapsed time that is negative is not ready either.
  unfoldable pub status : ℕ → Manager E → Status
  status now m =
      let s = m.active in
      let fresh = leb s.refreshed_at now && ltb now (s.refreshed_at + m.max_staleness) in
      let ready' = s.ready && not (text_eq s.revision []) && fresh && is_ready m.engine in
      record s {
        ready = ready';
        last_error =
            if not ready' && not (text_eq s.revision []) && text_eq s.last_error []
            then codes "ng.policy.stale"
            else s.last_error;
      }

  -- Evaluate
  unfoldable pub evaluate : ℕ → Event → Manager E → Try Decision
  evaluate now event m =
      let s = status now m in
      if s.ready then E.evaluate m.engine s.revision event else err (failure "stale")

  -- One call, under the mutex.
  unfoldable pub call : World → Call → Exec (Manager E) (Unit {0})
  call w (activates archive source etag) = activate E w archive source etag
  call w (rolls_back revision) = rollback w revision
  call w (refreshes source) = refresh w source
