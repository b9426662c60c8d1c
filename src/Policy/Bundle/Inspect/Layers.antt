-- ===== src/Policy/Bundle/Inspect/Layers.antt =====
-- Proofs on Inspect: the layers.
use normgate.Prelude.{
  ◌≤◌, ◌≡◌, refl, sym, ap, Bool, true, false, List, [], ◌∷◌, arith, All, Elem, ◌⊎◌, inl, inr, any,
  Bool-cases, map, All-imp,
}
use normgate.Text.{Text, codes, text_eq, text_eq→eq, contains}
use normgate.Sort.{sort, IsSorted, Elem-sort_of, sort-IsSorted}
use normgate.Policy.{ok, Try-cases}
use normgate.Policy.Composition.{layer_names}
use normgate.Policy.Composition.Conflicts.{Pairs}
use normgate.Policy.Bundle.Inspect.{
  Layer, clashes, nests, check_layer, check_layers, layer_leb, index_of, is_namespace,
}

-- The tests on one layer alone.
pub record IsOwned (owned : List Text) (l : Layer) : Type 0 where
  pub known : contains layer_names l.name ≡ true
  pub formed : is_namespace l.namespace ≡ true
  pub owns : contains owned l.namespace ≡ true

-- Two layers that may stand together.
pub record AreCompatible (k l : Layer) : Type 0 where
  pub differ : clashes l k ≡ false
  pub apart : nests l k ≡ false

any-none : {A : Type 0} (p : A → Bool) (xs : List A) → any p xs ≡ false → All (λ x. p x ≡ false) xs
any-none p [] h = tt
any-none p (x ∷ xs) h = (ground arith, any-none p xs (ground arith))

check_layer-IsOwned :
    (owned : List Text) (seen : List Layer) (l : Layer)
    → check_layer owned seen l ≡ ok tt
    → IsOwned owned l × (any (clashes l) seen ≡ false) × (any (nests l) seen ≡ false)
unfolding check_layer
check_layer-IsOwned owned seen l h = (
  record { known = ground arith; formed = ground arith; owns = ground arith },
  ground arith,
  ground arith,
)

pub check_layers-AreCompatible :
    (owned : List Text) (seen ls : List Layer)
    → check_layers owned seen ls ≡ ok tt
    → All (IsOwned owned) ls
      × Pairs AreCompatible ls
      × All (λ l. All (λ k. AreCompatible k l) seen) ls
unfolding check_layers
check_layers-AreCompatible owned seen [] h = (tt, tt, tt)
check_layers-AreCompatible owned seen (l ∷ ls) h = elim (Try-cases (check_layer owned seen l)) [
  | inr e ↦ absurd (ground arith)
  | inl (u, e) ↦
      let (a, b, c) = check_layer-IsOwned owned seen l e in
      let (p, q, r) = check_layers-AreCompatible owned (l ∷ seen) ls (ground arith) in
      (
        (a, p),
        (All-imp _ _ (λ k s. s.0) ls r, q),
        (
          both seen (any-none (clashes l) seen b) (any-none (nests l) seen c),
          All-imp _ _ (λ k s. s.1) ls r,
        ),
      )
]
  where
    both :
        (ks : List Layer)
        → All (λ k. clashes l k ≡ false) ks
        → All (λ k. nests l k ≡ false) ks
        → All (λ k. AreCompatible k l) ks
    both [] p q = tt
    both (k ∷ ks) p q = (record { differ = p.0; apart = q.0 }, both ks p.1 q.1)

layer_leb_total : (a b : Layer) → (layer_leb a b ≡ true) ⊎ (layer_leb b a ≡ true)
unfolding layer_leb
layer_leb_total a b = ground arith

-- The first of sorted layers has the lowest place.
first_lowest :
    (l : Layer) (ls : List Layer)
    → IsSorted layer_leb (l ∷ ls)
    → (k : Layer) → Elem k (l ∷ ls)
    → index_of layer_names l.name ≤ index_of layer_names k.name
unfolding layer_leb
first_lowest l ls h k (inl e) = ground (arith, ap (λ (x : Layer). index_of layer_names x.name) e)
first_lowest l [] h k (inr i) = absurd i
first_lowest l (m ∷ ls) h k (inr i) = ground (arith, first_lowest m ls h.1 k i)

index_of-baseline : (s : Text) → index_of layer_names s ≤ 0 → s ≡ codes "baseline"
unfolding index_of
index_of-baseline s h = elim (Bool-cases (text_eq (codes "baseline") s)) [
  | inl e ↦ sym (text_eq→eq (codes "baseline") s e)
  | inr e ↦ absurd (ground arith)
]

baseline_index : index_of layer_names (codes "baseline") ≡ 0
unfolding index_of text_eq
baseline_index = refl

named :
    (ls : List Layer) (s : Text)
    → contains (map (λ (l : Layer). l.name) ls) s ≡ true
    → (l : Layer) × Elem l ls × (l.name ≡ s)
unfolding contains
named [] s h = cc
named (l ∷ ls) s h = elim (Bool-cases (text_eq s l.name)) [
  | inl e ↦ (l, inl refl, sym (text_eq→eq s l.name e))
  | inr e ↦ let (k, i, q) = named ls s (ground arith) in (k, inr i, q)
]

-- Where the baseline is among the layers, it comes first once they are sorted.
pub sort-baseline :
    (ls : List Layer)
    → contains (map (λ (l : Layer). l.name) ls) (codes "baseline") ≡ true
    → (l : Layer) × (rest : List Layer) × (sort layer_leb ls ≡ l ∷ rest)
      × (l.name ≡ codes "baseline")
sort-baseline ls h =
    let (k, i, q) = named ls (codes "baseline") h in
    go (sort layer_leb ls) refl (sort-IsSorted layer_leb layer_leb_total ls) k
      (Elem-sort_of layer_leb k ls i) q
  where
    go :
        (out : List Layer)
        → sort layer_leb ls ≡ out
        → IsSorted layer_leb out
        → (k : Layer) → Elem k out
        → k.name ≡ codes "baseline"
        → (l : Layer) × (rest : List Layer) × (sort layer_leb ls ≡ l ∷ rest)
          × (l.name ≡ codes "baseline")
    go [] e s k i q = absurd i
    go (l ∷ rest) e s k i q = (
      l,
      rest,
      e,
      index_of-baseline l.name
          (omega (arith, first_lowest l rest s k i, ap (index_of layer_names) q, baseline_index)),
    )
