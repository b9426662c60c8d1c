-- ===== src/Policy/Bundle/Archive/Reads.antt =====
-- Proofs on ReadArchive: the files that it accepts.
use normgate.Prelude.{
  ℕ, ◌+◌, ◌≡◌, refl, subst, true, false, none, some, List, [], ◌∷◌, ◌++◌, arith, inl, inr, length,
}
use normgate.Text.{Text, codes, text_eq, text_eq_swap}
use normgate.Text.Utf8.{Bytes}
use normgate.Contracts.{PolicyManifest}
use normgate.Policy.{ok, Try-cases}
use normgate.Policy.Bundle.Files.{Files, file_of, find_file}
use normgate.Policy.Bundle.Files.Limits.{IsWithinLimits, check_files_iff}
use normgate.Policy.Bundle.Inspect.{Decoders, Report, parse_manifest, inspect}
use normgate.Policy.Bundle.Seal.{seal}
use normgate.Policy.Bundle.Archive.{
  Packages, Entries, done, broken, entry, read_entry, read_entries, expand, unpack, read_archive,
  same_digests, read_bounded, max_compressed,
}
use normgate.Policy.Bundle.Archive.Revision.{read_archive-verify}

-- No name stands twice.
abbrev pub AreDistinct : Files → Type 0
AreDistinct [] = Unit
AreDistinct ((n, raw) ∷ files) = (find_file n files ≡ none) × AreDistinct files

find_file-append :
    (m n : Text) (raw : Bytes) (files : Files)
    → find_file m files ≡ none
    → text_eq n m ≡ false
    → find_file m (files ++ (n, raw) ∷ []) ≡ none
unfolding find_file
find_file-append m n raw [] h k = ground arith
find_file-append m n raw ((l, r) ∷ files) h k = ground (arith, find_file-append m n raw files)

append-AreDistinct :
    (n : Text) (raw : Bytes) (files : Files)
    → find_file n files ≡ none
    → AreDistinct files
    → AreDistinct (files ++ (n, raw) ∷ [])
unfolding find_file
append-AreDistinct n raw [] h d = (refl, tt)
append-AreDistinct n raw ((l, r) ∷ files) h (e, d) =
    let apart : text_eq l n ≡ false = ground arith in
    (
      find_file-append l n raw files e (text_eq_swap l n apart),
      append-AreDistinct n raw files (ground (arith, apart)) d,
    )

read_entries-AreDistinct :
    (es : Entries) (files : Files) (size : ℕ) (out : Files)
    → read_entries es files size ≡ ok out
    → AreDistinct files
    → AreDistinct out
unfolding read_entries
read_entries-AreDistinct done files size out h d = subst AreDistinct (ground arith) d
read_entries-AreDistinct broken files size out h d = absurd (ground arith)
read_entries-AreDistinct (entry e es) files size out h d =
    elim (Try-cases (read_entry e files size)) [
      | inr f ↦ absurd (ground arith)
      | inl (raw, f) ↦
          let fresh : find_file e.name files ≡ none = unfold read_entry in ground arith in
          read_entries-AreDistinct es (files ++ (e.name, raw) ∷ []) (size + length raw) out
            (ground arith) (append-AreDistinct e.name raw files fresh d)
    ]

unpack-AreDistinct :
    (packages : Packages) (archive : Bytes) (files : Files)
    → unpack packages archive ≡ ok files
    → AreDistinct files
unfolding unpack
unpack-AreDistinct packages archive files h =
    elim (Try-cases (read_bounded (some archive) max_compressed)) [
      | inr e ↦ absurd (ground arith)
      | inl (c, e) ↦ elim (Try-cases (expand (packages.unzip c))) [
        | inr f ↦ absurd (ground arith)
        | inl (raw, f) ↦ read_entries-AreDistinct (packages.untar raw) [] 0 files (ground arith) tt
      ]
    ]

-- What ReadArchive asks of the files of an archive.
pub record IsVerified (digest : Bytes → Text) (decoders : Decoders)
    (order : List PolicyManifest → List PolicyManifest) (files : Files) : Type 0 where
  pub limits : IsWithinLimits files
  pub names : AreDistinct files
  pub sealed : Files × Report
  pub seals : seal digest decoders order files ≡ ok sealed
  pub digests :
      same_digests
        (parse_manifest decoders (file_of (codes "manifest.json") files))
        (sealed.1).manifest
      ≡ true

-- A bundle that ReadArchive accepts is within the limits, has no name twice, passes Inspect, and its
-- manifest holds the two digests that are computed from its files.
pub read_archive-IsVerified :
    (packages : Packages) (digest : Bytes → Text) (decoders : Decoders)
    (order : List PolicyManifest → List PolicyManifest) (archive : Bytes) (files : Files)
    → read_archive packages digest decoders order archive ≡ ok files
    → IsVerified digest decoders order files
read_archive-IsVerified packages digest decoders order archive files h =
    let (u, (s, e, d)) = read_archive-verify packages digest decoders order archive files h in
    record {
      limits = (check_files_iff files).0 (unfold seal inspect in ground arith);
      names = unpack-AreDistinct packages archive files u;
      sealed = s;
      seals = e;
      digests = d;
    }
