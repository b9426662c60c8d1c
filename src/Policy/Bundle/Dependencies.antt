-- ===== src/Policy/Bundle/Dependencies.antt =====
-- ValidateDependencies of internal/policy/bundle.go. The maps are lists of entries, the latest
-- first; `order` is the order in which a range over the map byID meets its entries.
pub mod Marks
pub mod Register
pub mod Acyclic
pub mod Apart
pub mod Enough
use normgate.Prelude.{
  ℕ, zero, suc, Bool, true, false, ◌||◌, not, Option, none, some, List, [], ◌∷◌, ◌++◌, ◌==◌,
  if◌then◌else◌, any, length,
}
use normgate.Text.{Text, codes, text_eq, has_prefix}
use normgate.Text.Split.{split}
use normgate.Contracts.{PolicyManifest}
use normgate.Policy.{failure, Try, ok, err, panic}
use normgate.Policy.Bundle.Version.{compatible}

-- The maps byID and owners; of the latter only the keys matter.
pub record Registry : Type 0 where
  pub by_id : List PolicyManifest
  pub owners : List Text

abbrev pub no_manifests : Registry
no_manifests = record { by_id = []; owners = [] }

unfoldable pub nested : Text → Text → Bool
nested n previous =
    text_eq n previous
    || has_prefix n (previous ++ codes ".")
    || has_prefix previous (n ++ codes ".")

unfoldable pub own : List Text → List Text → Try (List Text)
own [] owners = ok owners
own (n ∷ ns) owners =
    if any (nested n) owners then err (failure "namespace_collision") else own ns (n ∷ owners)

-- byID[id]
unfoldable pub find_manifest : Text → List PolicyManifest → Option PolicyManifest
find_manifest id [] = none
find_manifest id (m ∷ ms) = if text_eq m.id id then some m else find_manifest id ms

abbrev pub is_known : Option PolicyManifest → Bool
is_known none = false
is_known (some m) = true

-- The first loop, which fills byID and owners.
unfoldable pub register : List PolicyManifest → Registry → Try Registry
register [] r = ok r
register (m ∷ ms) r =
    if not (compatible m.minimum_core_version)
    then err (failure "incompatible_version")
    else if is_known (find_manifest m.id r.by_id)
    then err (failure "dependency_conflict")
    else elim (own m.namespaces r.owners) [
      | ok owners ↦ register ms (record { by_id = m ∷ r.by_id; owners = owners })
      | err e ↦ err e
      | panic ↦ panic
    ]

-- The map `state`: 1 for an id whose visit has begun, 2 for one whose visit has ended.
abbrev pub Marks : Type 0
Marks = List (Text × ℕ)

unfoldable pub mark : Marks → Text → ℕ
mark [] id = 0
mark ((x, k) ∷ marks) id = if text_eq x id then k else mark marks id

module _ (by_id : List PolicyManifest) where
  unfoldable pub dependencies_of : Text → List Text
  dependencies_of id = elim (find_manifest id by_id) [ none ↦ [] | some m ↦ m.dependencies ]

  unfoldable pub resolve_parts : List Text → Option PolicyManifest
  resolve_parts (id ∷ version ∷ []) = elim (find_manifest id by_id) [
    | none ↦ none
    | some m ↦ if text_eq m.version version then some m else none
  ]
  resolve_parts _ = none

  -- The manifest that a dependency id@version names.
  unfoldable pub resolve : Text → Option PolicyManifest
  resolve dep = resolve_parts (split b'@' dep)

  -- A visit; `none` where the fuel is used up.
  abbrev pub Visit : Type 0
  Visit = Text → Marks → Option (Try Marks)

  -- The loop of a visit over the dependencies.
  unfoldable pub visit_dependencies : Visit → List Text → Marks → Option (Try Marks)
  visit_dependencies go [] marks = some (ok marks)
  visit_dependencies go (d ∷ ds) marks = elim (resolve d) [
    | none ↦ some (err (failure "dependency_constraint"))
    | some m ↦ elim (go m.id marks) [
      | none ↦ none
      | some (ok marks') ↦ visit_dependencies go ds marks'
      | some (err e) ↦ some (err e)
      | some panic ↦ some panic
    ]
  ]

  unfoldable pub leave : Text → Option (Try Marks) → Option (Try Marks)
  leave id none = none
  leave id (some (ok marks)) = some (ok ((id, 2) ∷ marks))
  leave id (some (err e)) = some (err e)
  leave id (some panic) = some panic

  unfoldable pub visit : ℕ → Visit
  unfolding leave
  visit zero id marks = none
  visit (suc fuel) id marks = elim (mark marks id == 1) [
    | true ↦ some (err (failure "dependency_cycle"))
    | false ↦ elim (mark marks id == 2) [
      | true ↦ some (ok marks)
      | false ↦ leave id (visit_dependencies (visit fuel) (dependencies_of id) ((id, 1) ∷ marks))
    ]
  ]

  -- The last loop, over the keys of byID.
  unfoldable pub visit_all : ℕ → List PolicyManifest → Marks → Option (Try Marks)
  visit_all fuel [] marks = some (ok marks)
  visit_all fuel (m ∷ ms) marks = elim (visit fuel m.id marks) [
    | none ↦ none
    | some (ok marks') ↦ visit_all fuel ms marks'
    | some (err e) ↦ some (err e)
    | some panic ↦ some panic
  ]

module _ (order : List PolicyManifest → List PolicyManifest) where
  abbrev pub visit_registered : Try Registry → Option (Try Marks)
  visit_registered (ok r) = visit_all r.by_id (suc (length r.by_id)) (order r.by_id) []
  visit_registered (err e) = some (err e)
  visit_registered panic = some panic

  -- ValidateDependencies: the marks of the visits, where the code returns nil.
  unfoldable pub validate_dependencies : List PolicyManifest → Option (Try Marks)
  validate_dependencies manifests = visit_registered (register manifests no_manifests)
