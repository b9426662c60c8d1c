-- ===== src/Policy/Scenarios/Parse/Safe.antt =====
-- Proofs on safeYAML: the documents that it accepts.
use normgate.Prelude.{
  not, ◌&&◌, ℕ, suc, ◌+◌, ◌≤◌, ◌≡◌, ◌≢◌, ◌↔◌, true, false, List, [], ◌∷◌, arith, refl, All,
  Bool-cases, inl, inr, if◌then◌else◌, ltb,
}
use normgate.Text.{text_eq→eq, Text, codes, contains, text_eq_iff}
use normgate.Yaml.{Node, Nodes, node, nil, cons, is_alias, is_scalar, is_mapping, is_plain_tag}
use normgate.Policy.Scenarios.Parse.{has_safe_keys, skip_value, safe_yaml, are_safe}

abbrev larger : ℕ → ℕ → ℕ
larger a b = if ltb a b then b else a

-- How many nodes stand under one another below a node.
abbrev mutual
  pub height : Node → ℕ
  height (node kind tag anchor value children) = heights children

  pub heights : Nodes → ℕ
  heights nil = 0
  heights (cons n ns) = larger (suc (height n)) (heights ns)

-- The tags and values of the nodes at even places.
abbrev mutual
  pub keys : Nodes → List (Text × Text)
  keys nil = []
  keys (cons (node kind tag anchor value children) ns) = (tag, value) ∷ keys_after ns

  pub keys_after : Nodes → List (Text × Text)
  keys_after nil = []
  keys_after (cons n ns) = keys ns

-- The keys are strings and differ.
abbrev pub AreStringKeys : List (Text × Text) → Type 0
AreStringKeys [] = Unit
AreStringKeys ((tag, value) ∷ ks) =
    (tag ≡ codes "!!str") × All (λ (k : Text × Text). k.1 ≢ value) ks × AreStringKeys ks

-- No aliases and anchors, plain scalars, and mappings with different strings as keys, all the way
-- down.
abbrev mutual
  pub IsPlain : Node → Type 0
  IsPlain (node kind tag anchor value children) =
      (is_alias kind ≡ false)
      × (anchor ≡ [])
      × (is_scalar kind ≡ true → is_plain_tag tag ≡ true)
      × (is_mapping kind ≡ true → AreStringKeys (keys children))
      × ArePlain children

  pub ArePlain : Nodes → Type 0
  ArePlain nil = Unit
  ArePlain (cons n ns) = IsPlain n × ArePlain ns

-- No key is in the list.
abbrev AreUnseen : List Text → List (Text × Text) → Type 0
AreUnseen seen ks = All (λ (k : Text × Text). contains seen k.1 ≡ false) ks

AreUnseen-cons :
    (v : Text) (seen : List Text) (ks : List (Text × Text))
    → AreUnseen (v ∷ seen) ks ↔ (All (λ (k : Text × Text). k.1 ≢ v) ks × AreUnseen seen ks)
unfolding contains
AreUnseen-cons v seen [] = (λ h. (tt, tt), λ h. tt)
AreUnseen-cons v seen (k ∷ ks) =
    let rest = AreUnseen-cons v seen ks in
    (
      λ (h, i).
          let (a, b) = rest.0 i in ((λ e. ground (arith, text_eq_iff k.1 v), a), (ground arith, b)),
      λ (a, b). (ground (arith, text_eq_iff k.1 v, a.0), rest.1 (a.1, b.1)),
    )

mutual
  unfolding has_safe_keys

  has_safe_keys_iff :
      (seen : List Text) (ns : Nodes)
      → (has_safe_keys seen ns ≡ true) ↔ (AreStringKeys (keys ns) × AreUnseen seen (keys ns))
  has_safe_keys_iff seen nil = (λ h. (tt, tt), λ h. refl)
  has_safe_keys_iff seen (cons (node kind tag anchor value children) ns) =
      let rest = skip_value_iff (value ∷ seen) ns in
      let split = AreUnseen-cons value seen (keys_after ns) in
      (
        λ h.
            let (strings, unseen) = rest.0 (ground arith) in
            let (others, old) = split.0 unseen in
            (
              (ground (arith, text_eq_iff tag (codes "!!str")), others, strings),
              (ground arith, old),
            ),
        λ ((string, others, strings), (new, old)).
            let deep = rest.1 (strings, split.1 (others, old)) in
            ground (arith, text_eq_iff tag (codes "!!str"), deep),
      )

  skip_value_iff :
      (seen : List Text) (ns : Nodes)
      → (skip_value seen ns ≡ true)
        ↔ (AreStringKeys (keys_after ns) × AreUnseen seen (keys_after ns))
  skip_value_iff seen nil = (λ h. (tt, tt), λ h. refl)
  skip_value_iff seen (cons n ns) = has_safe_keys_iff seen ns

AreUnseen-nil : (ks : List (Text × Text)) → AreUnseen [] ks
unfolding contains
AreUnseen-nil [] = tt
AreUnseen-nil (k ∷ ks) = (refl, AreUnseen-nil ks)

mutual
  unfolding safe_yaml

  node_iff : (d : ℕ) (n : Node) → (safe_yaml d n ≡ true) ↔ ((d + height n ≤ 64) × IsPlain n)
  node_iff d (node kind tag anchor value children) =
      let keyed = has_safe_keys_iff [] children in
      (
        λ h.
            let (low, plain) = (nodes_iff d children (ground arith)).0 (ground arith) in
            (
              low,
              (
                ground arith,
                text_eq→eq anchor [] (ground arith),
                (λ s. ground arith),
                (λ m. (keyed.0 (ground arith)).0),
                plain,
              ),
            ),
        λ (low, (named, bare, tagged, mapped, plain)).
            let deep = (nodes_iff d children (omega arith)).1 (low, plain) in
            let no_anchor = (text_eq_iff anchor []).1 bare in
            let scalar_safe : is_scalar kind && not (is_plain_tag tag) ≡ false =
              elim (Bool-cases (is_scalar kind)) [
                | inl s ↦ ground (arith, tagged s)
                | inr s ↦ ground arith
              ] in
            let mapping_safe : is_mapping kind && not (has_safe_keys [] children) ≡ false =
              elim (Bool-cases (is_mapping kind)) [
                | inl m ↦ ground (arith, keyed.1 (mapped m, AreUnseen-nil (keys children)))
                | inr m ↦ ground arith
              ] in
            ground (arith, deep, no_anchor, scalar_safe, mapping_safe),
      )

  nodes_iff :
      (d : ℕ) (ns : Nodes)
      → d ≤ 64
      → (are_safe (suc d) ns ≡ true) ↔ ((d + heights ns ≤ 64) × ArePlain ns)
  nodes_iff d nil l = (λ h. (omega arith, tt), λ h. refl)
  nodes_iff d (cons n ns) l =
      let first = node_iff (suc d) n in
      let rest = nodes_iff d ns l in
      (
        λ h.
            let (a, p) = first.0 (ground arith) in
            let (b, q) = rest.0 (ground arith) in (ground arith, (p, q)),
        λ (a, (p, q)). ground (arith, first.1 (ground arith, p), rest.1 (ground arith, q)),
      )
