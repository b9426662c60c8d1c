-- ===== src/Policy/Bundle/Files.antt =====
-- The files of a bundle: safePath and checkFiles of internal/policy/bundle.go.
pub mod Limits
pub mod SafePath
use normgate.Prelude.{
  ℕ, ◌+◌, Bool, true, false, ◌&&◌, ◌||◌, not, Option, none, some, List, [], ◌∷◌, ◌++◌, map,
  if◌then◌else◌, leb, ltb, ◌==◌, any, all, length,
}
use normgate.Text.{Text, codes, text_eq, has_prefix, has_suffix}
use normgate.Text.Split.{split, join}
use normgate.Text.Utf8.{Bytes, byte_length}
use normgate.Policy.{Try, ok, err, panic, failure}

-- Bundle.Files, the map as a list of entries with different names.
abbrev pub Files : Type 0
Files = List (Text × Bytes)

abbrev pub names : Files → List Text
names = map (λ (file : Text × Bytes). file.0)

unfoldable pub find_file : Text → Files → Option Bytes
find_file name [] = none
find_file name ((n, raw) ∷ files) = if text_eq n name then some raw else find_file name files

abbrev pub or_empty : Option Bytes → Bytes
or_empty none = []
or_empty (some raw) = raw

-- bundle.Files[name], which is nil for a name that is not there
unfoldable pub file_of : Text → Files → Bytes
unfolding find_file
file_of name files = or_empty (find_file name files)

-- b.Files[name] = raw
unfoldable pub put_file : Text → Bytes → Files → Files
put_file name raw [] = (name, raw) ∷ []
put_file name raw ((n, r) ∷ files) =
    if text_eq n name then (n, raw) ∷ files else (n, r) ∷ put_file name raw files

abbrev pub max_bytes : ℕ
max_bytes = 1048576

abbrev pub max_bundle_bytes : ℕ
max_bundle_bytes = 4194304

abbrev pub max_files : ℕ
max_files = 256

abbrev pub max_modules : ℕ
max_modules = 64

abbrev pub dot : Text
dot = codes "."

abbrev pub dot_dot : Text
dot_dot = codes ".."

-- A path element that fs.ValidPath accepts.
unfoldable pub is_element : Text → Bool
is_element s = not (text_eq s []) && not (text_eq s dot) && not (text_eq s dot_dot)

-- fs.ValidPath(name)
unfoldable pub valid_path : Text → Bool
valid_path name = text_eq name dot || all is_element (split b'/' name)

-- What path.Clean does with "..": the last element that it has kept goes, if there is one.
unfoldable pub leave_element : Bool → List Text → List Text
leave_element true [] = []
leave_element false [] = dot_dot ∷ []
leave_element rooted (t ∷ ts) = if text_eq t dot_dot then dot_dot ∷ t ∷ ts else ts

-- The elements that path.Clean has kept, the last first, and one more.
unfoldable pub clean_step : Bool → List Text → Text → List Text
clean_step rooted kept s =
    if text_eq s [] || text_eq s dot
    then kept
    else if text_eq s dot_dot
    then leave_element rooted kept
    else s ∷ kept

unfoldable pub clean_elements : Bool → List Text → List Text → List Text
unfolding clean_step leave_element
clean_elements rooted kept [] = kept
clean_elements rooted kept (s ∷ ss) = clean_elements rooted (clean_step rooted kept s) ss

abbrev pub reversed : List Text → List Text → List Text
reversed [] out = out
reversed (x ∷ xs) out = reversed xs (x ∷ out)

abbrev pub or_dot : Text → Text
or_dot [] = dot
or_dot (c ∷ s) = c ∷ s

-- path.Clean(name)
unfoldable pub clean : Text → Text
unfolding clean_elements
clean name =
    let rooted = has_prefix name (codes "/") in
    let kept = reversed (clean_elements rooted [] (split b'/' name)) [] in
    or_dot ((if rooted then codes "/" else []) ++ join b'/' kept)

abbrev is_forbidden : ℕ → Bool
is_forbidden c = c == 92 || c == 58 || c == 0

-- safePath
unfoldable pub safe_path : Text → Bool
unfolding valid_path
safe_path name =
    not (text_eq name [])
    && leb (byte_length name) 256
    && valid_path name
    && not (any is_forbidden name)
    && text_eq (clean name) name
    && not (text_eq name dot)

-- The loop of checkFiles: the size and the number of modules.
unfoldable pub check_each : Files → (size modules : ℕ) → Try (ℕ × ℕ)
check_each [] size modules = ok (size, modules)
check_each ((name, raw) ∷ files) size modules =
    let rest =
      check_each files (size + length raw)
        (if has_suffix name (codes ".rego") then modules + 1 else modules) in
    if not (safe_path name)
    then err (failure "invalid_path")
    else if ltb max_bytes (length raw)
    then err (failure "bundle_limit")
    else rest

abbrev pub check_totals : Try (ℕ × ℕ) → Try (Unit {0})
check_totals (ok (size, modules)) =
    if ltb max_bundle_bytes size || ltb max_modules modules || modules == 0
    then err (failure "bundle_limit")
    else ok tt
check_totals (err e) = err e
check_totals panic = panic

-- checkFiles
unfoldable pub check_files : Files → Try (Unit {0})
check_files files =
    if length files == 0 || ltb max_files (length files)
    then err (failure "bundle_limit")
    else check_totals (check_each files 0 0)
