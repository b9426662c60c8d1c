-- ===== src/Policy/Bundle/Seal.antt =====
-- seal, fileDigest and Prepare of internal/policy/bundle.go. SHA-256, as normalization.Digest writes
-- it, is a parameter.
pub mod Again
use normgate.Prelude.{◌≡◌, List, [], ◌∷◌, ◌++◌}
use normgate.Text.{Text, codes, text_leb}
use normgate.Text.Utf8.{Bytes, utf8}
use normgate.Sort.{sort}
use normgate.Json.{marshal}
use normgate.Contracts.{PolicyManifest, manifest_value}
use normgate.Policy.{Try, ok, err, panic, ◌>>=◌}
use normgate.Policy.Composition.{zero_digest}
use normgate.Policy.Bundle.Files.{Files, names, file_of, put_file}
use normgate.Policy.Bundle.Inspect.{Decoders, Report, inspect}

-- The bytes of a manifest.
unfoldable pub manifest_bytes : PolicyManifest → Bytes
manifest_bytes m = utf8 (marshal (manifest_value m))

abbrev pub with_manifest : PolicyManifest → Files → Files
with_manifest m files = put_file (codes "manifest.json") (manifest_bytes m) files

module _ (digest : Bytes → Text) where
  -- The lines "name NUL digest" of some names.
  unfoldable pub digest_lines : Files → List Text → Text
  digest_lines files [] = []
  digest_lines files (n ∷ ns) =
      n ++ (0 ∷ (digest (file_of n files) ++ (10 ∷ digest_lines files ns)))

  -- fileDigest
  unfoldable pub file_digest : Files → Text
  unfolding digest_lines
  file_digest files = digest (utf8 (digest_lines files (sort text_leb (names files))))

  -- The manifest with the two digests of the files.
  unfoldable pub sealed_manifest : PolicyManifest → Files → PolicyManifest
  sealed_manifest m files =
      let m0 = record m { source_digest = zero_digest; build_digest = zero_digest } in
      let m1 = record m0 { source_digest = file_digest (with_manifest m0 files) } in
      record m1 { build_digest = file_digest (with_manifest m1 (with_manifest m0 files)) }

  unfoldable pub sealed_files : PolicyManifest → Files → Files
  sealed_files m files =
      let m0 = record m { source_digest = zero_digest; build_digest = zero_digest } in
      let m1 = record m0 { source_digest = file_digest (with_manifest m0 files) } in
      with_manifest (sealed_manifest m files) (with_manifest m1 (with_manifest m0 files))

  module _ (decoders : Decoders) (order : List PolicyManifest → List PolicyManifest) where
    -- seal, which Prepare calls.
    unfoldable pub seal : Files → Try (Files × Report)
    seal files = do
      report ← inspect decoders order files
      ok (
        sealed_files report.manifest files,
        record report {
          manifest = sealed_manifest report.manifest files;
          revision = (sealed_manifest report.manifest files).build_digest;
        },
      )
