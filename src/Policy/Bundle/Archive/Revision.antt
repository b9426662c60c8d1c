-- ===== src/Policy/Bundle/Archive/Revision.antt =====
-- Proofs on ReadArchive: the revision of a bundle that it accepts.
use normgate.Prelude.{◌≡◌, refl, ap, ◌∙◌, subst, true, List, arith, inl, inr}
use normgate.Text.{Text, codes, text_eq→eq}
use normgate.Text.Utf8.{Bytes}
use normgate.Contracts.{PolicyManifest}
use normgate.Policy.{ok, Try-cases}
use normgate.Policy.Bundle.Files.{Files, file_of}
use normgate.Policy.Bundle.Inspect.{Decoders, Report, parse_manifest, inspect}
use normgate.Policy.Bundle.Seal.{seal}
use normgate.Policy.Bundle.Archive.{Packages, unpack, verify, read_archive, same_digests}

module _ (decoders : Decoders) (order : List PolicyManifest → List PolicyManifest) where
  -- What Inspect reports as manifest is that of the files, and the revision its build digest.
  pub inspect_manifest :
      (files : Files) (r : Report)
      → inspect decoders order files ≡ ok r
      → (parse_manifest decoders (file_of (codes "manifest.json") files) ≡ ok r.manifest)
        × (r.revision ≡ r.manifest.build_digest)
  unfolding inspect
  inspect_manifest files r h = ground arith

module _ (packages : Packages) (digest : Bytes → Text) (decoders : Decoders)
    (order : List PolicyManifest → List PolicyManifest) where
  verify-eq-ok :
      (given files : Files)
      → verify packages digest decoders order given ≡ ok files
      → (given ≡ files)
        × ((sealed : Files × Report) × (seal digest decoders order files ≡ ok sealed)
            × (same_digests
                  (parse_manifest decoders (file_of (codes "manifest.json") files))
                  (sealed.1).manifest
                ≡ true))
  unfolding verify
  verify-eq-ok given files h = elim (Try-cases (seal digest decoders order given)) [
    | inr e ↦ absurd (ground arith)
    | inl (sealed, e) ↦
        let same : given ≡ files = ground arith in
        subst
          (λ fs.
            (given ≡ fs)
            × ((sealed : Files × Report) × (seal digest decoders order fs ≡ ok sealed)
                × (same_digests (parse_manifest decoders (file_of (codes "manifest.json") fs))
                      (sealed.1).manifest
                    ≡ true)))
          same (refl, (sealed, e, ground arith))
  ]

  pub read_archive-verify :
      (archive : Bytes) (files : Files)
      → read_archive packages digest decoders order archive ≡ ok files
      → (unpack packages archive ≡ ok files)
        × ((sealed : Files × Report) × (seal digest decoders order files ≡ ok sealed)
            × (same_digests
                  (parse_manifest decoders (file_of (codes "manifest.json") files))
                  (sealed.1).manifest
                ≡ true))
  unfolding read_archive
  read_archive-verify archive files h = elim (Try-cases (unpack packages archive)) [
    | inr e ↦ absurd (ground arith)
    | inl (given, e) ↦
        let (same, s) = verify-eq-ok given files (ground arith) in (e ∙ ap ok same, s)
  ]

  -- The revision that Inspect reads in a bundle of ReadArchive is the one that Prepare computes
  -- from its files.
  pub read_archive-revision :
      (archive : Bytes) (files : Files) (sealed : Files × Report)
      → read_archive packages digest decoders order archive ≡ ok files
      → seal digest decoders order files ≡ ok sealed
      → (r : Report) × (inspect decoders order files ≡ ok r) × (r.revision ≡ (sealed.1).revision)
  unfolding seal
  read_archive-revision archive files sealed h k =
      let (u, (again, s, d)) = read_archive-verify archive files h in
      elim (Try-cases (inspect decoders order files)) [
        | inr e ↦ absurd (ground arith)
        | inl (r, e) ↦
            let (m, b) = inspect_manifest decoders order files r e in
            (
              r,
              e,
              ground (
                arith,
                m,
                b,
                d,
                text_eq→eq r.manifest.build_digest ((again.1).manifest.build_digest),
              ),
            )
      ]
