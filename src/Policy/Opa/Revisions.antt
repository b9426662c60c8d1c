-- ===== src/Policy/Opa/Revisions.antt =====
-- The engine of internal/policy/opa/engine.go and its revisions. A call of Compile reads the state
-- once and writes it once, each time under the lock: between the two, other calls may change it.
pub mod Steps
pub mod Compiled
use normgate.Prelude.{
  ℕ, Bool, true, false, ◌&&◌, not, Option, none, some, List, [], ◌∷◌, if◌then◌else◌, leb, length,
}
use normgate.Text.{Text, text_eq}
use normgate.Text.Utf8.{Bytes}
use normgate.Contracts.{PolicyManifest}
use normgate.Policy.{context_error, failure, Try, ok, err, panic, ◌>>=◌, ◌>>◌, require}
use normgate.Policy.Bundle.Files.{Files}
use normgate.Policy.Bundle.Inspect.{Decoders, Report}
use normgate.Policy.Bundle.Seal.{seal}
use normgate.Policy.Opa.{max_revisions}
use normgate.Policy.Opa.Compile.{Rego, Cancelled, build_queries}

module _ (R : Rego) where
  -- prepared
  pub record Prepared : Type 0 where
    pub report : Report
    pub queries : List R.Query

  -- Engine: the map by revision, as a list of entries with different keys.
  pub record State : Type 0 where
    pub revisions : List (Text × Prepared)
    pub closed : Bool

  -- What Compile returns without writing, or the entry that it writes.
  pub data Outcome : Type 0 where
    returns : Try Text → Outcome
    publishes : Prepared → Outcome

module _ {R : Rego} where
  -- New
  abbrev pub new : State R
  new = record { revisions = []; closed = false }

  -- e.revisions[revision]
  unfoldable pub find_revision : Text → List (Text × Prepared R) → Option (Prepared R)
  find_revision r [] = none
  find_revision r ((x, p) ∷ ps) = if text_eq x r then some p else find_revision r ps

  -- e.revisions[revision] = p
  unfoldable pub put_revision :
      Text → Prepared R → List (Text × Prepared R) → List (Text × Prepared R)
  put_revision r p [] = (r, p) ∷ []
  put_revision r p ((x, q) ∷ ps) = if text_eq x r then (x, p) ∷ ps else (x, q) ∷ put_revision r p ps

  abbrev pub is_known : Option (Prepared R) → Bool
  is_known none = false
  is_known (some p) = true

  -- The end of Compile, under the lock.
  unfoldable pub publish : Prepared R → State R → Try Text × State R
  publish p s =
      if s.closed
      then (err (failure "closed"), s)
      else if leb max_revisions (length s.revisions)
      then (err (failure "revision_limit"), s)
      else (
        ok p.report.revision,
        record s { revisions = put_revision p.report.revision p s.revisions },
      )

  -- Close
  unfoldable pub close : State R → State R
  close s = record { revisions = []; closed = true }

  -- Health
  unfoldable pub health : (cancelled : Bool) → State R → Bool × ℕ
  health cancelled s = (not s.closed && not cancelled, length s.revisions)

  abbrev pub cached_outcome : Bool → Text → Outcome R
  cached_outcome cancelled r = if cancelled then returns (err context_error) else returns (ok r)

  abbrev pub built : Report → Try (List R.Query) → Outcome R
  built report (ok qs) = publishes (record { report = report; queries = qs })
  built report (err e) = returns (err e)
  built report panic = returns panic

  -- What follows, with the state at the second lock.
  abbrev pub settle : Outcome R → State R → Try Text × State R
  settle (returns r) later = (r, later)
  settle (publishes p) later = publish p later

  module _ (digest : Bytes → Text) (decoders : Decoders)
      (order : List PolicyManifest → List PolicyManifest) where
    abbrev pub compile_sealed : Cancelled → State R → Try (Files × Report) → Outcome R
    compile_sealed cancelled seen (err e) = returns (err e)
    compile_sealed cancelled seen panic = returns panic
    compile_sealed cancelled seen (ok (files, report)) =
        if seen.closed
        then returns (err (failure "closed"))
        else if is_known (find_revision report.revision seen.revisions)
        then cached_outcome cancelled.when_cached report.revision
        else built report (build_queries R cancelled report files)

    -- Compile up to its second lock, with the state that it reads.
    unfoldable pub prepare_revision : Cancelled → State R → Files → Outcome R
    prepare_revision cancelled seen files =
        if cancelled.at_start
        then returns (err context_error)
        else compile_sealed cancelled seen (seal digest decoders order files)

    -- Compile, with the state that it reads and the one that it finds at its second lock.
    unfoldable pub compile : Cancelled → (seen later : State R) → Files → Try Text × State R
    compile cancelled seen later files = settle (prepare_revision cancelled seen files) later
