-- ===== src/Policy/Bundle/Inspect/Reports.antt =====
-- Proofs on Inspect: what it reports.
use normgate.Prelude.{
  ◌≡◌, refl, sym, ap, ◌∙◌, subst, true, Option, none, some, List, [], ◌∷◌, arith, All, inl, inr,
  Option-cases,
}
use normgate.Text.{codes, text_leb}
use normgate.Sort.{sort}
use normgate.Contracts.{PolicyManifest}
use normgate.Policy.{Try, ok, err, panic, Try-cases}
use normgate.Policy.Composition.Conflicts.{Pairs}
use normgate.Policy.Bundle.Files.{Files, names, file_of, find_file}
use normgate.Policy.Bundle.Files.Limits.{IsWithinLimits, check_files_iff}
use normgate.Policy.Bundle.Inspect.{
  Layer, Decoders, Report, layer_leb, rises, owned_by, parse_manifest, read_dependencies,
  read_layers, inspect, verdict,
}
use normgate.Policy.Bundle.Dependencies.{Marks, validate_dependencies}
use normgate.Policy.Bundle.Inspect.Layers.{
  IsOwned, AreCompatible, check_layers-AreCompatible, sort-baseline,
}

-- The layers of a report, against those of layers.json and the namespaces of the manifests.
pub record AreLayers (manifests : List PolicyManifest) (given layers : List Layer) : Type 0 where
  pub sorted : layers ≡ sort layer_leb given
  pub owned : All (IsOwned (owned_by manifests)) given
  pub compatible : Pairs AreCompatible given
  pub rising : rises layers ≡ true
  pub first : Layer
  pub others : List Layer
  pub starts : layers ≡ first ∷ others
  pub baseline : first.name ≡ codes "baseline"

read_layers-AreLayers :
    (decoders : Decoders) (manifests : List PolicyManifest) (files : Files) (out : List Layer)
    → read_layers decoders manifests files ≡ ok out
    → (given : List Layer) × (decoders.layers (file_of (codes "layers.json") files) ≡ some given)
      × AreLayers manifests given out
unfolding read_layers
read_layers-AreLayers decoders manifests files out h =
    elim (Option-cases (decoders.layers (file_of (codes "layers.json") files))) [
      | inl e ↦ absurd (ground arith)
      | inr (given, e) ↦
          let same : out ≡ sort layer_leb given = ground arith in
          let (owned, pairs, u) =
            check_layers-AreCompatible (owned_by manifests) [] given (ground arith) in
          let (first, others, starts, base) = sort-baseline given (ground arith) in
          (
            given,
            e,
            record {
              sorted = same;
              owned = owned;
              compatible = pairs;
              rising = ground arith;
              first = first;
              others = others;
              starts = same ∙ starts;
              baseline = base;
            },
          )
    ]

-- What Inspect promises of its report.
pub record IsReport (decoders : Decoders) (order : List PolicyManifest → List PolicyManifest)
    (files : Files) (r : Report) : Type 0 where
  pub limits : IsWithinLimits files
  pub manifest : parse_manifest decoders (file_of (codes "manifest.json") files) ≡ ok r.manifest
  pub revision : r.revision ≡ r.manifest.build_digest
  pub listed : r.files ≡ sort text_leb (names files)
  pub dependencies : List PolicyManifest
  pub marks : Marks
  pub accepted : validate_dependencies order (r.manifest ∷ dependencies) ≡ some (ok marks)
  pub given : List Layer
  pub decoded : decoders.layers (file_of (codes "layers.json") files) ≡ some given
  pub layers : AreLayers (r.manifest ∷ dependencies) given r.layers

verdict-eq-ok : (v : Option (Try Marks)) → verdict v ≡ ok tt → (m : Marks) × (v ≡ some (ok m))
verdict-eq-ok (some (ok m)) h = (m, refl)
verdict-eq-ok (some (err e)) h = cc
verdict-eq-ok (some panic) h = cc
verdict-eq-ok none h = cc

-- A report is given only for a bundle within the limits, with manifests that pass the check of
-- dependencies; its revision is the build digest of the manifest; its layers are those of
-- layers.json, the baseline first, each in a namespace of the manifests, no two of them with the
-- same name or priority or in nested namespaces, and with priorities that rise in their order.
pub inspect-IsReport :
    (decoders : Decoders) (order : List PolicyManifest → List PolicyManifest) (files : Files)
    (r : Report)
    → inspect decoders order files ≡ ok r
    → IsReport decoders order files r
unfolding inspect
inspect-IsReport decoders order files r h =
    elim (Try-cases (parse_manifest decoders (file_of (codes "manifest.json") files))) [
      | inr e ↦ absurd (ground arith)
      | inl (m, e) ↦
          elim (Try-cases
            (read_dependencies decoders (find_file (codes "dependencies.json") files))) [
              | inr f ↦ absurd (ground arith)
              | inl (deps, f) ↦ elim (Try-cases (read_layers decoders (m ∷ deps) files)) [
                | inr g ↦ absurd (ground arith)
                | inl (layers, g) ↦
                    let own : r.manifest ≡ m = ground arith in
                    let out : r.layers ≡ layers = ground arith in
                    let (marks, v) =
                      verdict-eq-ok (validate_dependencies order (m ∷ deps)) (ground arith) in
                    let (given, d, l) = read_layers-AreLayers decoders (m ∷ deps) files layers g in
                    record {
                      limits = (check_files_iff files).0 (ground arith);
                      manifest = e ∙ ap ok (sym own);
                      revision = ground arith;
                      listed = ground arith;
                      dependencies = deps;
                      marks = marks;
                      accepted =
                          subst (λ x. validate_dependencies order (x ∷ deps) ≡ some (ok marks))
                            (sym own) v;
                      given = given;
                      decoded = d;
                      layers =
                          subst (λ x. AreLayers (x ∷ deps) given r.layers) (sym own)
                            (subst (AreLayers (m ∷ deps) given) (sym out) l);
                    }
              ]
            ]
    ]
