-- ===== src/Policy/Bundle/Seal/Again.antt =====
-- Proofs on seal: a sealed bundle, sealed again.
use normgate.Prelude.{◌≡◌, refl, sym, ap, ◌∙◌, some, List, [], ◌∷◌, arith, inl, inr}
use normgate.Text.{Text, codes, text_eq_refl}
use normgate.Text.Utf8.{Bytes}
use normgate.Contracts.{PolicyManifest}
use normgate.Policy.{ok, Try-cases}
use normgate.Policy.Bundle.Files.{Files, file_of, put_file}
use normgate.Policy.Bundle.Inspect.{Decoders, Report, parse_manifest, inspect}
use normgate.Policy.Bundle.Seal.{manifest_bytes, with_manifest, sealed_manifest, sealed_files, seal}

put_file-put_file :
    (n : Text) (a b : Bytes) (files : Files)
    → put_file n a (put_file n b files) ≡ put_file n a files
unfolding put_file
put_file-put_file n a b [] = ground (arith, text_eq_refl n)
put_file-put_file n a b ((m, r) ∷ files) =
    ground (arith, text_eq_refl n, put_file-put_file n a b files)

pub file_of-put_file : (n : Text) (a : Bytes) (files : Files) → file_of n (put_file n a files) ≡ a
unfolding file_of put_file
file_of-put_file n a [] = ground (arith, text_eq_refl n)
file_of-put_file n a ((m, r) ∷ files) = ground (arith, text_eq_refl n, file_of-put_file n a files)

module _ (digest : Bytes → Text) where
  -- Sealing does not read the digests that it replaces.
  sealed_manifest-sealed_files :
      (m : PolicyManifest) (files : Files)
      → sealed_manifest digest (sealed_manifest digest m files) (sealed_files digest m files)
        ≡ sealed_manifest digest m files
  unfolding sealed_manifest sealed_files
  sealed_manifest-sealed_files m files = simp put_file-put_file

  sealed_files-sealed_files :
      (m : PolicyManifest) (files : Files)
      → sealed_files digest (sealed_manifest digest m files) (sealed_files digest m files)
        ≡ sealed_files digest m files
  unfolding sealed_manifest sealed_files
  sealed_files-sealed_files m files = simp put_file-put_file

  module _ (decoders : Decoders) (order : List PolicyManifest → List PolicyManifest) where
    seal_lem :
        (files out : Files) (report : Report)
        → seal digest decoders order files ≡ ok (out, report)
        → (r : Report) × (inspect decoders order files ≡ ok r)
          × (out ≡ sealed_files digest r.manifest files)
          × (report.manifest ≡ sealed_manifest digest r.manifest files)
          × (report.revision ≡ report.manifest.build_digest)
    unfolding seal
    seal_lem files out report h = elim (Try-cases (inspect decoders order files)) [
      | inr e ↦ absurd (ground arith)
      | inl (r, e) ↦ (r, e, ground arith, ground arith, ground arith)
    ]

    -- The manifest that Inspect reads in a sealed bundle.
    sealed-manifest :
        (m : PolicyManifest) (files : Files) (r : Report)
        → decoders.manifest (manifest_bytes m) ≡ some m
        → inspect decoders order (with_manifest m files) ≡ ok r
        → r.manifest ≡ m
    unfolding inspect parse_manifest
    sealed-manifest m files r d h =
        ground (arith, d, file_of-put_file (codes "manifest.json") (manifest_bytes m) files)

    -- What seal makes of files that pass Inspect.
    abbrev resealed : Report → Files → Report
    resealed r files = record r {
      manifest = sealed_manifest digest r.manifest files;
      revision = (sealed_manifest digest r.manifest files).build_digest;
    }

    seal_of_report :
        (files : Files) (r : Report)
        → inspect decoders order files ≡ ok r
        → seal digest decoders order files
          ≡ ok (sealed_files digest r.manifest files, resealed r files)
    unfolding seal
    seal_of_report files r h = rw h refl

    -- A sealed bundle that passes Inspect seals to itself, with the same manifest and the same
    -- revision, where the decoder reads the manifest that was written into it.
    pub seal_again :
        (files out : Files) (report again : Report)
        → seal digest decoders order files ≡ ok (out, report)
        → decoders.manifest (manifest_bytes report.manifest) ≡ some report.manifest
        → inspect decoders order out ≡ ok again
        → (sealed : Report) × (seal digest decoders order out ≡ ok (out, sealed))
          × (sealed.manifest ≡ report.manifest)
          × (sealed.revision ≡ report.revision)
    unfolding sealed_files
    seal_again files out report again h d k =
        let (r, e, o, q, v) = seal_lem files out report h in
        let d' : decoders.manifest (manifest_bytes (sealed_manifest digest r.manifest files))
            ≡ some (sealed_manifest digest r.manifest files) =
          rw (sym q) d in
        let m : again.manifest ≡ report.manifest =
          sealed-manifest _ _ again d' (sym (ap (inspect decoders order) o) ∙ k) ∙ sym q in
        let files' : sealed_files digest again.manifest out ≡ out =
          rw m (rw q (rw o (sealed_files-sealed_files r.manifest files))) in
        let manifest' : sealed_manifest digest again.manifest out ≡ report.manifest =
          rw m (rw q (rw o (sealed_manifest-sealed_files r.manifest files))) in
        (
          resealed again out,
          seal_of_report out again k ∙ ap (λ (fs : Files). ok (fs, resealed again out)) files',
          manifest',
          ap (λ (m : PolicyManifest). m.build_digest) manifest' ∙ sym v,
        )
