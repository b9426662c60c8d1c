-- ===== src/Policy/Bundle/Archive.antt =====
-- readBounded, ReadArchive and Build of internal/policy/bundle.go. Packages compress/gzip and
-- archive/tar are parameters.
pub mod Revision
pub mod Reads
use normgate.Prelude.{
  ℕ, ◌+◌, ◌*◌, ℤ, pos, negsuc, Bool, true, false, ◌&&◌, ◌||◌, not, Option, none, some, List, [],
  ◌∷◌, ◌++◌, map, if◌then◌else◌, leb, ltb, ◌==◌, length,
}
use normgate.Text.{Text, codes, text_eq}
use normgate.Text.Utf8.{Bytes}
use normgate.Contracts.{PolicyManifest}
use normgate.Policy.{Try, ok, err, panic, failure, ◌>>=◌, ◌>>◌, require}
use normgate.Policy.Bundle.Files.{
  Files, names, find_file, file_of, safe_path, max_bytes, max_bundle_bytes, max_files,
}
use normgate.Policy.Bundle.Inspect.{Decoders, Report, parse_manifest}
use normgate.Policy.Bundle.Seal.{seal}

-- A header of a tar archive, and what can be read of its content.
pub record Entry : Type 0 where
  pub name : Text
  pub is_regular : Bool
  pub size : ℤ
  pub content : Option Bytes

-- What the calls of tar.Reader.Next give: entries, and then the end or an error.
pub data Entries : Type 0 where
  done : Entries
  broken : Entries
  entry : Entry → Entries → Entries

-- gzip.NewReader fails, or the first stream is read (or not) and some bytes are left.
pub data Unzipped : Type 0 where
  not_gzip : Unzipped
  stream : (expanded : Option Bytes) (rest : Bytes) → Unzipped

pub record Packages : Type 0 where
  pub unzip : Bytes → Unzipped
  pub untar : Bytes → Entries
  pub zip : Bytes → Option Bytes
  pub tar : List (Text × Bytes) → Option Bytes

-- readBounded, where reading fails or gives these bytes
unfoldable pub read_bounded : Option Bytes → ℕ → Try Bytes
read_bounded none limit = err (failure "bundle_limit")
read_bounded (some raw) limit =
    if ltb limit (length raw) then err (failure "bundle_limit") else ok raw

abbrev pub max_compressed : ℕ
max_compressed = max_bundle_bytes + 65536

abbrev pub max_expanded : ℕ
max_expanded = max_bundle_bytes + 256 * 1024 + 1024

abbrev pub is_known_file : Option Bytes → Bool
is_known_file none = false
is_known_file (some raw) = true

abbrev pub fits : ℕ → ℤ → Bool
fits limit (pos n) = leb n limit
fits limit (negsuc n) = false

abbrev pub size_of : ℤ → ℕ
size_of (pos n) = n
size_of (negsuc n) = 0

-- The tests on a header, and the content.
unfoldable pub read_entry : Entry → Files → ℕ → Try Bytes
read_entry e files size = do
  require (safe_path e.name && e.is_regular && fits max_bytes e.size) (failure "invalid_path")
  require (not (is_known_file (find_file e.name files))) (failure "duplicate_file")
  require (ltb (length files) max_files && leb (size + size_of e.size) max_bundle_bytes)
      (failure "bundle_limit")
  read_bounded e.content max_bytes

-- The loop over the entries.
unfoldable pub read_entries : Entries → Files → ℕ → Try Files
read_entries done files size = ok files
read_entries broken files size = err (failure "invalid_archive")
read_entries (entry e es) files size = do
  raw ← read_entry e files size
  read_entries es (files ++ (e.name, raw) ∷ []) (size + length raw)

abbrev pub same_digests : Try PolicyManifest → PolicyManifest → Bool
same_digests (ok m) n =
    text_eq m.source_digest n.source_digest && text_eq m.build_digest n.build_digest
same_digests _ n = text_eq [] n.source_digest && text_eq [] n.build_digest

abbrev pub packed : Option Bytes → Try Bytes
packed none = err (failure "archive_write")
packed (some raw) = ok raw

-- The files in the order of the report.
unfoldable pub listed : List Text → Files → List (Text × Bytes)
listed ns files = map (λ n. (n, file_of n files)) ns

-- The first stream of the archive, which must be all of it.
unfoldable pub expand : Unzipped → Try Bytes
expand not_gzip = err (failure "invalid_archive")
expand (stream expanded rest) = do
  raw ← read_bounded expanded max_expanded
  require (length rest == 0) (failure "invalid_archive")
  ok raw

module _ (packages : Packages) where
  unfoldable pub unpack : Bytes → Try Files
  unfolding expand
  unpack archive = do
    compressed ← read_bounded (some archive) max_compressed
    raw ← expand (packages.unzip compressed)
    read_entries (packages.untar raw) [] 0

  module _ (digest : Bytes → Text) (decoders : Decoders)
      (order : List PolicyManifest → List PolicyManifest) where
    -- The digests in the manifest must be those of the files.
    unfoldable pub verify : Files → Try Files
    verify files = do
      sealed ← seal digest decoders order files
      require
          (same_digests (parse_manifest decoders (file_of (codes "manifest.json") files))
            (sealed.1).manifest)
          (failure "checksum_mismatch")
      ok files

    -- ReadArchive
    unfoldable pub read_archive : Bytes → Try Files
    read_archive archive = do files ← unpack archive; verify files

    -- Build
    unfoldable pub build : Files → Try Bytes
    build files = do
      sealed ← seal digest decoders order files
      raw ← packed (packages.tar (listed (sealed.1).files sealed.0))
      packed (packages.zip raw)
