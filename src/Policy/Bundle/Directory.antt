-- ===== src/Policy/Bundle/Directory.antt =====
-- LoadDir and Load of internal/policy/bundle.go. What filepath.WalkDir visits is a list, in its order.
pub mod Plain
use normgate.Prelude.{
  ℕ, ◌+◌, Bool, true, false, not, Option, none, some, List, [], ◌∷◌, leb, ltb, if◌then◌else◌,
  length,
}
use normgate.Text.{Text, codes, text_eq}
use normgate.Text.Utf8.{Bytes}
use normgate.Policy.{Try, ok, err, failure, ◌>>=◌, ◌>>◌, require}
use normgate.Policy.Bundle.Files.{
  Files, put_file, check_files, max_bytes, max_bundle_bytes, max_files,
}
use normgate.Policy.Bundle.Archive.{read_bounded}

pub data EntryKind : Type 0 where
  directory symlink regular irregular : EntryKind

-- An entry that is visited: whether the walk met an error there, the path below the directory unless
-- there is none, and what can be read of the file unless it cannot be opened.
pub record Visit : Type 0 where
  pub failed : Bool
  pub kind : EntryKind
  pub relative : Option Text
  pub opened : Option (Option Bytes)

abbrev pub relative_of : Option Text → Try Text
relative_of none = err (failure "invalid_path")
relative_of (some name) = ok name

abbrev pub content_of : Option (Option Bytes) → Try (Option Bytes)
content_of none = err (failure "bundle_read")
content_of (some content) = ok content

-- The file is read and kept under its path.
unfoldable pub add_file : Visit → Text → Files → ℕ → Try (Files × ℕ)
add_file v name files total = do
  require (ltb (length files) max_files) (failure "bundle_limit")
  content ← content_of v.opened
  raw ← read_bounded content max_bytes
  require (leb (total + length raw) max_bundle_bytes) (failure "bundle_limit")
  ok (put_file name raw files, total + length raw)

unfoldable pub visit_regular : Visit → Files → ℕ → Try (Files × ℕ)
unfolding text_eq add_file
visit_regular v files total = relative_of v.relative >>= λ (name : Text).
    if text_eq name (codes ".gitkeep") then ok (files, total) else add_file v name files total

unfoldable pub visit_kind : EntryKind → Visit → Files → ℕ → Try (Files × ℕ)
unfolding visit_regular
visit_kind symlink v files total = err (failure "invalid_path")
visit_kind directory v files total = ok (files, total)
visit_kind irregular v files total = err (failure "invalid_path")
visit_kind regular v files total = visit_regular v files total

-- The function that WalkDir calls.
unfoldable pub visit_entry : Visit → Files → ℕ → Try (Files × ℕ)
unfolding visit_kind
visit_entry v files total =
    if v.failed then err (failure "bundle_read") else visit_kind v.kind v files total

unfoldable pub walk : List Visit → Files → ℕ → Try Files
unfolding visit_entry
walk [] files total = ok files
walk (v ∷ vs) files total = visit_entry v files total >>= λ (p : Files × ℕ). walk vs p.0 p.1

-- LoadDir
unfoldable pub load_dir : List Visit → Try Files
unfolding walk
load_dir vs = do files ← walk vs [] 0; check_files files; ok files

-- What Stat and Open find under a name.
pub data Found : Type 0 where
  missing : Found
  folder : List Visit → Found
  archive : Option Bytes → Found

-- Load, over ReadArchive
unfoldable pub load : (Bytes → Try Files) → Found → Try Files
unfolding load_dir
load read_archive missing = err (failure "bundle_read")
load read_archive (folder vs) = load_dir vs
load read_archive (archive none) = err (failure "bundle_read")
load read_archive (archive (some raw)) = read_archive raw
