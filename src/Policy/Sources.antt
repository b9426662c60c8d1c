-- ===== src/Policy/Sources.antt =====
-- internal/policy/source.go: where the archives of bundles come from. A Fetch is a function of its
-- source, of the ETag that the caller holds and of what the file system or the network answers.
pub mod Http
pub mod Oci
pub mod Pinned
pub mod Pulled
pub mod Guarded
use normgate.Prelude.{
  ℕ, ◌^◌, Bool, false, ◌||◌, not, Option, none, some, [], ◌++◌, ◌==◌, if◌then◌else◌,
}
use normgate.Text.{Text, codes, text_eq}
use normgate.Text.Utf8.{Bytes}
use normgate.Policy.{◌∷◌, context_error, failure, Try, ok, err, ◌>>=◌, ◌>>◌, require}
use normgate.Policy.Bundle.Archive.{read_bounded, max_compressed}
use normgate.Policy.Manager.{FetchResult, Source}

pub record FileSource : Type 0 where
  pub path : Text
  pub checksum : Text

-- An open file: whether Stat tells that it is regular, and what can be read of it.
pub record OpenFile : Type 0 where
  pub is_regular : Bool
  pub content : Option Bytes

-- What happens during a Fetch: the context is cancelled before or after it, and os.Open finds files.
pub record FileWorld : Type 0 where
  pub cancelled_before : Bool
  pub cancelled_after : Bool
  pub open_file : Text → Option OpenFile

-- filepath.IsAbs on Unix
unfoldable pub is_abs : Text → Bool
is_abs [] = false
is_abs (c ∷ s) = c == b'/'

-- FileSource.ID
unfoldable pub file_id : FileSource → Text
file_id s = codes "file:" ++ s.path ++ codes "#" ++ s.checksum

unfoldable pub opened : Option OpenFile → Try OpenFile
opened none = err (failure "source_unavailable")
opened (some f) = ok f

-- ReadEvent, where normalization.MaxBytes is 1 MiB.
unfoldable pub read_event : Option Bytes → Try Bytes
read_event content = read_bounded content (2 ^ 20)

module _ (digest : Bytes → Text) where
  -- FileSource.Fetch
  unfoldable pub file_fetch : FileWorld → FileSource → Text → Try FetchResult
  unfolding opened is_abs
  file_fetch w s etag = do
    require (not w.cancelled_before) context_error
    require (is_abs s.path) (failure "invalid_source")
    f ← opened (w.open_file s.path)
    require f.is_regular (failure "invalid_source")
    raw ← read_bounded f.content max_compressed
    require (text_eq s.checksum [] || text_eq s.checksum (digest raw)) (failure "checksum_mismatch")
    require (not w.cancelled_after) context_error
    ok (record { bytes = raw; etag = digest raw; not_modified = text_eq etag (digest raw) })

  -- FileSource as a Source of the manager
  unfoldable pub file_source : FileWorld → FileSource → Source
  file_source w s = record { id = file_id s; fetch = file_fetch w s }
