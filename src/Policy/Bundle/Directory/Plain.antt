-- ===== src/Policy/Bundle/Directory/Plain.antt =====
-- Proofs on LoadDir: the directories that it accepts.
use normgate.Prelude.{
  ◌≢◌, true, subst, ◌≡◌, ◌⊎◌, inl, inr, refl, false, List, [], ◌∷◌, ℕ, All, arith, Bool-cases,
}
use normgate.Policy.{ok, Try-cases}
use normgate.Policy.Bundle.Files.{Files, check_files}
use normgate.Policy.Bundle.Files.Limits.{IsWithinLimits, check_files_iff}
use normgate.Policy.Bundle.Directory.{
  EntryKind, directory, symlink, regular, irregular, Visit, visit_kind, visit_entry, walk, load_dir,
}

-- The walk met no error at the entry, which is a directory or a regular file.
abbrev pub IsPlain : Visit → Type 0
IsPlain v = (v.failed ≡ false) × ((v.kind ≡ directory) ⊎ (v.kind ≡ regular))

kind-plain :
    (k : EntryKind) (v : Visit) (files : Files) (total : ℕ) (p : Files × ℕ)
    → visit_kind k v files total ≡ ok p
    → (k ≡ directory) ⊎ (k ≡ regular)
unfolding visit_kind
kind-plain directory v files total p h = inl refl
kind-plain symlink v files total p h = absurd (ground arith)
kind-plain regular v files total p h = inr refl
kind-plain irregular v files total p h = absurd (ground arith)

failed-walk :
    (v : Visit) (vs : List Visit) (files out : Files) (total : ℕ)
    → v.failed ≡ true
    → walk (v ∷ vs) files total ≢ ok out
unfolding walk visit_entry
failed-walk v vs files out total f h = ground arith

entry-kind :
    (v : Visit) (files : Files) (total : ℕ) (p : Files × ℕ)
    → v.failed ≡ false
    → visit_entry v files total ≡ ok p
    → visit_kind v.kind v files total ≡ ok p
unfolding visit_entry
entry-kind v files total p f h = ground arith

walk-IsPlain :
    (vs : List Visit) (files out : Files) (total : ℕ)
    → walk vs files total ≡ ok out
    → All IsPlain vs
unfolding walk
walk-IsPlain [] files out total h = tt
walk-IsPlain (v ∷ vs) files out total h = elim (Bool-cases v.failed) [
  | inl f ↦ absurd (failed-walk v vs files out total f h)
  | inr f ↦ elim (Try-cases (visit_entry v files total)) [
    | inr e ↦ absurd (ground arith)
    | inl (p, e) ↦ (
      (f, kind-plain v.kind v files total p (entry-kind v files total p f e)),
      walk-IsPlain vs p.0 out p.1 (rw e at h),
    )
  ]
]

-- A directory that LoadDir accepts has only directories and regular files in it, and what is read of
-- it is within the limits of a bundle.
pub load_dir-IsPlain :
    (vs : List Visit) (files : Files)
    → load_dir vs ≡ ok files
    → All IsPlain vs × IsWithinLimits files
unfolding load_dir
load_dir-IsPlain vs files h = elim (Try-cases (walk vs [] 0)) [
  | inr e ↦ absurd (ground arith)
  | inl (out, e) ↦ elim (Try-cases (check_files out)) [
    | inr f ↦ absurd (ground arith)
    | inl (u, f) ↦
        let same : out ≡ files = ground arith in
        (walk-IsPlain vs [] out 0 e, subst IsWithinLimits same ((check_files_iff out).0 f))
  ]
]
