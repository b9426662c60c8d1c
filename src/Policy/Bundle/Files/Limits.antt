-- ===== src/Policy/Bundle/Files/Limits.antt =====
-- Proofs on checkFiles: the limits of a bundle.
use normgate.Prelude.{
  ℕ, ◌+◌, ◌≤◌, ◌≡◌, ◌↔◌, true, [], ◌∷◌, arith, All, if◌then◌else◌, length, inl, inr,
}
use normgate.Text.{Text, codes, has_suffix}
use normgate.Text.Utf8.{Bytes}
use normgate.Policy.{ok, Try-cases}
use normgate.Policy.Bundle.Files.{
  Files, max_bytes, max_bundle_bytes, max_files, max_modules, safe_path, check_each, check_files,
}

-- The bytes of all files together.
unfoldable pub total_size : Files → ℕ
total_size [] = 0
total_size ((name, raw) ∷ files) = length raw + total_size files

-- The number of files with the suffix of a module.
unfoldable pub module_count : Files → ℕ
module_count [] = 0
module_count ((name, raw) ∷ files) =
    (if has_suffix name (codes ".rego") then 1 else 0) + module_count files

abbrev pub FileIsSafe : Text × Bytes → Type 0
FileIsSafe (name, raw) = (safe_path name ≡ true) × (length raw ≤ max_bytes)

-- What checkFiles asks for.
pub record IsWithinLimits (files : Files) : Type 0 where
  pub some_file : 1 ≤ length files
  pub few_files : length files ≤ max_files
  pub safe : All FileIsSafe files
  pub small : total_size files ≤ max_bundle_bytes
  pub some_module : 1 ≤ module_count files
  pub few_modules : module_count files ≤ max_modules

check_each-ok :
    (files : Files) (size modules : ℕ) (s k : ℕ)
    → check_each files size modules ≡ ok (s, k)
    → All FileIsSafe files × (s ≡ size + total_size files) × (k ≡ modules + module_count files)
unfolding check_each total_size module_count
check_each-ok [] size modules s k h = ground arith
check_each-ok ((name, raw) ∷ files) size modules s k h = ground (
  arith,
  check_each-ok files (size + length raw)
      (if has_suffix name (codes ".rego") then modules + 1 else modules) s k,
)

ok-check_each :
    (files : Files) (size modules : ℕ)
    → All FileIsSafe files
    → check_each files size modules ≡ ok (size + total_size files, modules + module_count files)
unfolding check_each total_size module_count
ok-check_each [] size modules h = ground arith
ok-check_each ((name, raw) ∷ files) size modules h = ground (
  arith,
  ok-check_each files (size + length raw)
      (if has_suffix name (codes ".rego") then modules + 1 else modules),
)

check_files-IsWithinLimits : (files : Files) → check_files files ≡ ok tt → IsWithinLimits files
unfolding check_files
check_files-IsWithinLimits files h = elim (Try-cases (check_each files 0 0)) [
  | inr e ↦ absurd (ground arith)
  | inl ((s, k), e) ↦
      let (a, b, c) = check_each-ok files 0 0 s k e in
      record {
        some_file = ground arith;
        few_files = ground arith;
        safe = a;
        small = ground (arith, b);
        some_module = ground (arith, c);
        few_modules = ground (arith, c);
      }
]

IsWithinLimits-check_files : (files : Files) → IsWithinLimits files → check_files files ≡ ok tt
unfolding check_files
IsWithinLimits-check_files files w = ground (
  arith,
  ok-check_each files 0 0 w.safe,
  w.some_file,
  w.few_files,
  w.small,
  w.some_module,
  w.few_modules,
)

-- checkFiles accepts exactly the bundles within the limits: 1 to 256 files with safe names and at
-- most 1 MiB each, 4 MiB together, and 1 to 64 of them modules.
pub check_files_iff : (files : Files) → (check_files files ≡ ok tt) ↔ IsWithinLimits files
check_files_iff files = (check_files-IsWithinLimits files, IsWithinLimits-check_files files)
