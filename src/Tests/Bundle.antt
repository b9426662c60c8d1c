-- ===== src/Tests/Bundle.antt =====
-- Runs of the versions and dependencies of internal/policy/bundle.go: a bundle that uses another.
use normgate.Prelude.{◌≡◌, refl, inl, ◌<◌, none, some, List, [], ◌∷◌, Elem}
use normgate.Text.{Text, codes, text_eq, has_prefix}
use normgate.Text.Split.{split}
use normgate.Json.Decimal.{format_int}
use normgate.Contracts.{PolicyManifest}
use normgate.Policy.{Try, ok, err, failure}
use normgate.Json.Decimal.Parse.{atoi, unsigned, digits}
use normgate.Policy.Bundle.Version.{version, components, component, at_most, compatible}
use normgate.Policy.Bundle.Dependencies.{
  Marks, mark, nested, own, find_manifest, register, dependencies_of, resolve, resolve_parts,
  visit_dependencies, leave, visit, visit_all, validate_dependencies,
}
use normgate.Policy.Bundle.Dependencies.Acyclic.{rank, validate_dependencies-rank}
use normgate.Policy.Bundle.Dependencies.Enough.{validate_dependencies_total}

abbrev manifest : Text → List Text → List Text → PolicyManifest
manifest id namespaces dependencies = record {
  schema_version = codes "1.0";
  id = id;
  version = codes "1.2.0";
  minimum_core_version = codes "0.1.7";
  namespaces = namespaces;
  dependencies = dependencies;
  external_fact_sources = [];
  source_digest = [];
  build_digest = [];
  signing_identity = [];
  created_at = codes "2026-01-01T00:00:00Z";
  extensions = none;
}

abbrev base : PolicyManifest
base = manifest (codes "base") (codes "org.base" ∷ []) []

abbrev app : PolicyManifest
app = manifest (codes "app") (codes "org.app" ∷ []) (codes "base@1.2.0" ∷ [])

abbrev both : List PolicyManifest
both = app ∷ base ∷ []

abbrev looped : List PolicyManifest
looped = app ∷ record base { dependencies = codes "app@1.2.0" ∷ [] } ∷ []

abbrev same_order : List PolicyManifest → List PolicyManifest
same_order ms = ms

abbrev left : Marks
left = (codes "app", 2) ∷ (codes "app", 1) ∷ (codes "base", 2) ∷ (codes "base", 1) ∷ []

both_run : validate_dependencies same_order both ≡ some (ok left)
unfolding validate_dependencies register compatible version components component atoi unsigned
    digits at_most split format_int text_eq has_prefix own nested find_manifest visit_all visit
    visit_dependencies leave mark dependencies_of resolve resolve_parts
both_run = refl

looped_run : validate_dependencies same_order looped ≡ some (err (failure "dependency_cycle"))
unfolding validate_dependencies register compatible version components component atoi unsigned
    digits at_most split format_int text_eq has_prefix own nested find_manifest visit_all visit
    visit_dependencies leave mark dependencies_of resolve resolve_parts
looped_run = refl

validate_dependencies-rank_example :
    (q : PolicyManifest) × Elem q both
    × (split b'@' (codes "base@1.2.0") ≡ q.id ∷ q.version ∷ [])
    × (rank left q.id < rank left (codes "app"))
validate_dependencies-rank_example =
    validate_dependencies-rank same_order (λ xs p i. i) both left both_run app (inl refl)
      (codes "base@1.2.0") (inl refl)

validate_dependencies_total_example :
    (r : Try Marks) × (validate_dependencies same_order looped ≡ some r)
validate_dependencies_total_example = validate_dependencies_total same_order looped
