-- ===== src/Policy/Manager.antt =====
-- internal/policy/manager.go: the durable activation of policy revisions. A call is a function from
-- the manager to a result and the manager after it; the mutex makes calls follow one another. What
-- the operating system does in a call (failed writes, cancellation, the clock) is its `World`.
pub mod Activation
pub mod Lifecycle
pub mod Startup
pub mod Failure
pub mod Durable
pub mod Success
pub mod Recovery
pub mod Retry
use normgate.Prelude.{
  ℕ, ◌+◌, ◌*◌, ◌≡◌, Bool, true, false, ◌&&◌, ◌||◌, not, Option, none, some, List, [], ◌∷◌, ◌++◌,
  ltb, leb, ◌==◌, if◌then◌else◌, length, all,
}
use normgate.Text.{Text, codes, text_eq, has_prefix, trim_prefix}
use normgate.Contracts.{Decision}
use normgate.Policy.Exec.{Exec}
use normgate.Policy.{
  Error, policy_error, context_error, foreign_error, failure, Try, ok, err, panic,
}

pub record Status : Type 0 where
  pub ready : Bool
  pub revision : Text
  pub previous : Text
  pub source : Text
  pub etag : Text
  pub refreshed_at : ℕ
  pub last_error : Text

-- The packages that the manager calls: ReadArchive and Inspect of bundle.go, RunTests of
-- scenarios.go, and an Engine with a state of its own.
pub record Engine : Type 1 where
  pub State : Type 0
  pub Bundle : Type 0
  pub Event : Type 0
  pub read_archive : Text → Try Bundle
  pub inspect_revision : Bundle → Try Text
  pub compile : State → Bundle → Try Text × State
  pub is_ready : State → Bool
  pub run_tests : State → Text → Bundle → Try (Unit {0})
  pub evaluate : State → Text → Event → Try Decision

-- The contents of state.json: a status, or bytes that strictJSON refuses.
pub data StateFile : Type 0 where
  stored : Status → StateFile
  garbage : StateFile

-- What atomicWrite does: nothing, a rename whose directory cannot be synced, or all of it.
pub data Write : Type 0 where
  fails renamed written : Write

-- The system calls of atomicWrite, in their order, and whether each succeeds.
pub record Steps : Type 0 where
  pub creates : Bool
  pub writes : Bool
  pub syncs : Bool
  pub closes : Bool
  pub renames : Bool
  pub opens_directory : Bool
  pub syncs_directory : Bool

-- atomicWrite: a failure after the rename leaves the new contents in place.
unfoldable pub atomic_write : Steps → Write
atomic_write s =
    if not s.creates
    then fails
    else if not s.writes
    then fails
    else if not s.syncs
    then fails
    else if not s.closes
    then fails
    else if not s.renames
    then fails
    else if not s.opens_directory
    then renamed
    else if not s.syncs_directory
    then renamed
    else written

-- What a call meets: the clock, whether its context is cancelled by the time of Health, after the
-- scenarios and before the status is persisted, and which system calls fail. An archive may be
-- unreadable when a recovery or a rollback opens it by its path, or when activate reads the one there.
pub record World : Type 0 where
  pub now : ℕ
  pub cancelled_in_health : Bool
  pub cancelled_in_validate : Bool
  pub cancelled_before_persist : Bool
  pub directory_fails : Bool
  pub state_unreadable : Bool
  pub artifact_unreadable : Text → Bool
  pub existing_unreadable : Bool
  pub artifact_write : Steps
  pub state_write : Steps

-- The context of a recovery is never cancelled.
abbrev pub in_background : World → World
in_background w = record w { cancelled_in_health = false; cancelled_in_validate = false }

pub record FetchResult : Type 0 where
  pub bytes : Text
  pub etag : Text
  pub not_modified : Bool

-- A Source: its ID, and what Fetch does with an ETag in this call.
pub record Source : Type 0 where
  pub id : Text
  pub fetch : Text → Try FetchResult

abbrev pub max_archive : ℕ
max_archive = 4194304 + 65536

abbrev is_hex : ℕ → Bool
is_hex c = (leb 48 c && leb c 57) || (leb 97 c && leb c 102)

-- digestPattern
unfoldable pub is_digest : Text → Bool
is_digest s =
    has_prefix s (codes "sha256:")
    && length (trim_prefix s (codes "sha256:")) == 64
    && all is_hex (trim_prefix s (codes "sha256:"))

unfoldable pub artifact_path : Text → Text
artifact_path revision = trim_prefix revision (codes "sha256:") ++ codes ".tar.gz"

module _ (E : Engine) where
  open E use {State}

  -- `artifact` is the directory of archives, by file name; `state` is state.json.
  pub record Manager : Type 0 where
    pub engine : State
    pub active : Status
    pub artifact : Text → Option Text
    pub state : Option StateFile
    pub max_staleness : ℕ

abbrev pub error_code : Error → Text
error_code (policy_error code file row column) = code
error_code e = codes "ng.policy.activation_failed"

module _ {E : Engine} where
  abbrev pub get_active : Exec (Manager E) Status
  get_active m = (ok m.active, m)

  abbrev pub set_active : Status → Exec (Manager E) (Unit {0})
  set_active s m = (ok tt, record m { active = s })

  -- recordError
  unfoldable pub record_error : Error → Manager E → Manager E
  record_error e m = record m { active = record m.active { last_error = error_code e } }

  unfoldable pub recording : {A : Type 0} → Try A × Manager E → Try A × Manager E
  unfolding record_error
  recording (ok a, m) = (ok a, m)
  recording (err e, m) = (err e, record_error e m)
  recording (panic, m) = (panic, m)

abbrev pub landed : Write → Bool
landed fails = false
landed renamed = true
landed written = true

abbrev pub outcome : Write → Try (Unit {0})
outcome written = ok tt
outcome _ = err (failure "persistence_failed")
