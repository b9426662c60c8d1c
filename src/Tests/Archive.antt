-- ===== src/Tests/Archive.antt =====
-- Runs of internal/policy/bundle.go on an archive of six files.
use normgate.Prelude.{Elem, ◌≢◌, ◌≡◌, refl, ◌↔◌, true, false, none, some, List, [], ◌∷◌, pos}
use normgate.Text.{Text, codes, text_eq, text_leb, has_prefix, has_suffix, contains}
use normgate.Text.Split.{split, join}
use normgate.Text.Utf8.{Bytes, byte_length, utf8_rune, utf8}
use normgate.Sort.{sort, insert}
use normgate.Json.{marshal}
use normgate.Json.Struct.{struct}
use normgate.Json.Decimal.{format_int}
use normgate.Contracts.{PolicyManifest, manifest_value}
use normgate.Policy.{ok}
use normgate.Policy.Composition.{zero_digest}
use normgate.Json.Decimal.Parse.{atoi, unsigned, digits}
use normgate.Policy.Bundle.Version.{version, components, component, at_most, compatible}
use normgate.Policy.Bundle.Dependencies.{
  mark, nested, own, find_manifest, register, dependencies_of, visit_dependencies, leave, visit,
  visit_all, validate_dependencies,
}
use normgate.Policy.Bundle.Files.{
  Files, names, find_file, file_of, put_file, is_element, valid_path, clean, clean_elements,
  clean_step, reversed, safe_path, check_each, check_files,
}
use normgate.Policy.Bundle.Files.Limits.{IsWithinLimits, check_files_iff}
use normgate.Policy.Bundle.Files.SafePath.{safe_path-below}
use normgate.Policy.Bundle.Inspect.{
  Layer, Reason, Decoders, Report, inspect, parse_manifest, read_dependencies, read_layers,
  read_reasons, check_data, check_layer, check_layers, rises, is_identity, is_reason,
  is_reason_parts, is_identifier, is_namespace, trim_left, trim_right, trim_space, index_of,
  layer_leb,
}
use normgate.Policy.Bundle.Inspect.Reports.{IsReport, inspect-IsReport}
use normgate.Policy.Bundle.Seal.{manifest_bytes, sealed_manifest, sealed_files, file_digest, seal}
use normgate.Policy.Bundle.Diff.{Change, change, diff}
use normgate.Policy.Bundle.Diff.Differing.{diff_iff}
use normgate.Policy.Bundle.Archive.{
  Entries, done, entry, stream, Packages, read_bounded, read_entry, read_entries, expand, unpack,
  verify, read_archive,
}
use normgate.Policy.Bundle.Archive.Reads.{IsVerified, read_archive-IsVerified}

abbrev pub manifest : PolicyManifest
manifest = record {
  schema_version = codes "1.0";
  id = codes "base";
  version = codes "1.2.0";
  minimum_core_version = codes "0.1.7";
  namespaces = codes "org.base" ∷ [];
  dependencies = [];
  external_fact_sources = [];
  source_digest = zero_digest;
  build_digest = zero_digest;
  signing_identity = codes "unsigned";
  created_at = codes "2026-01-01T00:00:00Z";
  extensions = none;
}

abbrev baseline : Layer
baseline = record { name = codes "baseline"; namespace = codes "org.base"; priority = pos 0 }

abbrev reasons : List (Text × Reason)
reasons =
    (codes "ng.policy.blocked", record { description = codes "d"; remediation = codes "r" }) ∷ []

-- Every file decodes to the same value.
abbrev pub decoders : Decoders
decoders = record {
  manifest = λ raw. some manifest;
  raws = λ raw. none;
  layers = λ raw. some (baseline ∷ []);
  reasons = λ raw. some reasons;
  keys = λ raw. some (some (codes "config" ∷ []));
}

abbrev pub files : Files
files =
    (codes "data.json", [])
    ∷ (codes "layers.json", [])
    ∷ (codes "manifest.json", [])
    ∷ (codes "org/base.rego", codes "package")
    ∷ (codes "reasons.json", [])
    ∷ (codes "tests/deny.json", codes "deny")
    ∷ []

abbrev pub no_digest : Bytes → Text
no_digest raw = zero_digest

abbrev pub same_order : List PolicyManifest → List PolicyManifest
same_order ms = ms

abbrev entries : Files → Entries
entries [] = done
entries ((n, raw) ∷ fs) =
    entry (record { name = n; is_regular = true; size = pos 7; content = some raw }) (entries fs)

abbrev pub packages : Packages
packages = record {
  unzip = λ raw. stream (some raw) [];
  untar = λ raw. entries files;
  zip = λ raw. some raw;
  tar = λ fs. some [];
}

abbrev pub report : Report
report = record {
  manifest = manifest;
  revision = zero_digest;
  files = names files;
  layers = baseline ∷ [];
  reasons = reasons;
  signature_verified = false;
}

files_checked : check_files files ≡ ok tt
unfolding check_files check_each safe_path byte_length utf8_rune valid_path is_element split clean
    clean_elements clean_step join text_eq has_prefix has_suffix contains utf8
files_checked = refl

abbrev module_name : Text
module_name = codes "org/base.rego"

pub inspected : inspect decoders same_order files ≡ ok report
unfolding inspect check_files check_each safe_path byte_length utf8_rune valid_path is_element split
    clean clean_elements clean_step join text_eq has_prefix has_suffix contains utf8 dependencies_of
    parse_manifest read_dependencies find_file file_of validate_dependencies register compatible
    version components component atoi unsigned digits at_most format_int own nested find_manifest
    visit_all visit visit_dependencies leave mark is_identity trim_left trim_right trim_space
    read_layers check_layer check_layers is_namespace is_identifier rises index_of layer_leb
    read_reasons is_reason is_reason_parts check_data text_leb sort insert
inspected = refl

abbrev pub out : Files
out = sealed_files no_digest manifest files

pub seal_run : seal no_digest decoders same_order files ≡ ok (out, report)
unfolding seal sealed_manifest file_digest
seal_run = rw inspected refl

out_inspected : inspect decoders same_order out ≡ ok report
unfolding inspect check_files check_each safe_path byte_length utf8_rune valid_path is_element split
    clean clean_elements clean_step join text_eq has_prefix has_suffix contains utf8 dependencies_of
    parse_manifest read_dependencies find_file file_of validate_dependencies register compatible
    version components component atoi unsigned digits at_most format_int own nested find_manifest
    visit_all visit visit_dependencies leave mark is_identity trim_left trim_right trim_space
    read_layers check_layer check_layers is_namespace is_identifier rises index_of layer_leb
    read_reasons is_reason is_reason_parts check_data text_leb sort insert sealed_files put_file
    manifest_bytes sealed_manifest file_digest marshal manifest_value struct
out_inspected = refl

module_safe : safe_path module_name ≡ true
unfolding safe_path byte_length utf8_rune valid_path is_element split clean clean_elements
    clean_step join text_eq has_prefix has_suffix contains utf8
module_safe = refl

verified : verify packages no_digest decoders same_order files ≡ ok files
unfolding verify parse_manifest text_eq
verified = rw seal_run refl

pub read_run : read_archive packages no_digest decoders same_order [] ≡ ok files
unfolding read_archive unpack expand read_bounded read_entries read_entry safe_path byte_length
    utf8_rune valid_path is_element split clean clean_elements clean_step join text_eq has_prefix
    has_suffix contains utf8 find_file
read_run = verified

pub read_byte_run : read_archive packages no_digest decoders same_order (0 ∷ []) ≡ ok files
unfolding read_archive unpack expand read_bounded read_entries read_entry safe_path byte_length
    utf8_rune valid_path is_element split clean clean_elements clean_step join text_eq has_prefix
    has_suffix contains utf8 find_file
read_byte_run = verified

check_files_iff_example : (check_files files ≡ ok tt) ↔ IsWithinLimits files
check_files_iff_example = check_files_iff files

safe_path-below_example :
    clean_elements true (codes "srv" ∷ []) (split b'/' module_name)
    ≡ reversed (split b'/' module_name) (codes "srv" ∷ [])
safe_path-below_example = safe_path-below module_name module_safe true (codes "srv" ∷ [])

inspect-IsReport_example : IsReport decoders same_order files report
inspect-IsReport_example = inspect-IsReport decoders same_order files report inspected

read_archive-IsVerified_example : IsVerified no_digest decoders same_order files
read_archive-IsVerified_example =
    read_archive-IsVerified packages no_digest decoders same_order [] files read_run

-- What sealing changes.
abbrev sealing : Change
sealing = change no_digest files out (codes "manifest.json")

diff_iff_example : Elem sealing (diff no_digest files out) ↔ (
    (n : Text) × (find_file n files ≢ find_file n out) × (sealing ≡ change no_digest files out n))
diff_iff_example = diff_iff no_digest files out sealing
