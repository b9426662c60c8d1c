-- ===== src/Policy/Bundle/Diff/Differing.antt =====
-- Proofs on Diff: what it lists.
use normgate.Prelude.{
  ◌≡◌, ◌≢◌, refl, sym, ap, ◌∙◌, subst, Bool, true, not, Option, none, some, List, [], ◌∷◌, map,
  keep_if, Elem, inl, inr, ◌⊎◌, arith, Bool-cases, if-cases, Elem-append, Elem-of_append,
  Elem-of_any, ◌↔◌,
}
use normgate.Text.{Text, text_eq, text_eq→eq, text_eq_refl, contains}
use normgate.Text.Utf8.{Bytes}
use normgate.Sort.{Elem-sort, Elem-sort_of}
use normgate.Policy.Bundle.Files.{Files, names, find_file}
use normgate.Policy.Bundle.Diff.{
  Change, same_content, all_names, is_changed, change_leb, change, diff,
}

module _ {A : Type 0} (p : A → Bool) where
  Elem-keep_if : (a : A) (xs : List A) → Elem a (keep_if p xs) → Elem a xs × (p a ≡ true)
  Elem-keep_if a [] = λ m. absurd m
  Elem-keep_if a (x ∷ xs) =
      if-cases (λ ys. Elem a ys → Elem a (x ∷ xs) × (p a ≡ true)) (p x)
        (λ h m. elim m [
          | inl e ↦ (inl e, ap p e ∙ h)
          | inr n ↦ let (i, k) = Elem-keep_if a xs n in (inr i, k)
        ])
        (λ h m. let (i, k) = Elem-keep_if a xs m in (inr i, k))

  Elem-keep_if_of : (a : A) (xs : List A) → Elem a xs → p a ≡ true → Elem a (keep_if p xs)
  Elem-keep_if_of a [] m h = absurd m
  Elem-keep_if_of a (x ∷ xs) m h =
      if-cases (Elem a) (p x)
        (λ k. elim m [ inl e ↦ inl e | inr n ↦ inr (Elem-keep_if_of a xs n h) ])
        (λ k. elim m [ inl e ↦ absurd (cc (h, k, ap p e)) | inr n ↦ Elem-keep_if_of a xs n h ])

Elem-map :
    {A B : Type 0} (f : A → B) (b : B) (xs : List A)
    → Elem b (map f xs)
    → (a : A) × Elem a xs × (b ≡ f a)
Elem-map f b [] m = absurd m
Elem-map f b (x ∷ xs) (inl e) = (x, inl refl, e)
Elem-map f b (x ∷ xs) (inr m) = let (a, i, e) = Elem-map f b xs m in (a, inr i, e)

Elem-map_of : {A B : Type 0} (f : A → B) (a : A) (xs : List A) → Elem a xs → Elem (f a) (map f xs)
Elem-map_of f a [] m = absurd m
Elem-map_of f a (x ∷ xs) (inl e) = inl (ap f e)
Elem-map_of f a (x ∷ xs) (inr m) = inr (Elem-map_of f a xs m)

-- A name without a file is not among the names.
find_file-names : (n : Text) (fs : Files) → Elem n (names fs) ⊎ (find_file n fs ≡ none)
unfolding find_file
find_file-names n [] = inr refl
find_file-names n ((m, raw) ∷ fs) = elim (Bool-cases (text_eq m n)) [
  | inl e ↦ inl (inl (sym (text_eq→eq m n e)))
  | inr e ↦ elim (find_file-names n fs) [ inl i ↦ inl (inr i) | inr k ↦ inr (ground (arith, e, k)) ]
]

names-find_file :
    (n : Text) (fs : Files) → Elem n (names fs) → (raw : Bytes) × (find_file n fs ≡ some raw)
unfolding find_file
names-find_file n [] m = absurd m
names-find_file n ((l, raw) ∷ fs) m = elim (Bool-cases (text_eq l n)) [
  | inl e ↦ (raw, rw e refl)
  | inr e ↦ elim m [
    | inl q ↦ absurd (cc (e, text_eq_refl n, ap (λ x. text_eq x n) q))
    | inr i ↦ let (r, k) = names-find_file n fs i in (r, rw e k)
  ]
]

same_content-eq : (x y : Option Bytes) → same_content x y ≡ true → x ≡ y
unfolding same_content
same_content-eq none none h = refl
same_content-eq none (some b) h = absurd (ground arith)
same_content-eq (some a) none h = absurd (ground arith)
same_content-eq (some a) (some b) h = ap some (text_eq→eq a b h)

eq-same_content : (x y : Option Bytes) (a : Bytes) → x ≡ some a → x ≡ y → same_content x y ≡ true
unfolding same_content
eq-same_content x y a e f =
    ap (λ z. same_content z y) e ∙ ap (same_content (some a)) (sym f ∙ e) ∙ text_eq_refl a

module _ (digest : Bytes → Text) (a b : Files) where
  all_names-file :
      (n : Text)
      → Elem n (all_names a b)
      → ((raw : Bytes) × (find_file n a ≡ some raw)) ⊎ ((raw : Bytes) × (find_file n b ≡ some raw))
  unfolding all_names
  all_names-file n m =
      elim (Elem-of_append n (names a) (keep_if (λ n. not (contains (names a) n)) (names b)) m) [
        | inl i ↦ inl (names-find_file n a i)
        | inr i ↦
            inr
              (names-find_file n b (Elem-keep_if (λ n. not (contains (names a) n)) n (names b) i).0)
      ]

  changed_apart :
      (n : Text) → Elem n (all_names a b) → is_changed a b n ≡ true → find_file n a ≢ find_file n b
  unfolding is_changed
  changed_apart n m h f = elim (all_names-file n m) [
    | inl (raw, g) ↦ cc (h, ap not (eq-same_content (find_file n a) (find_file n b) raw g f))
    | inr (raw, g) ↦ cc (h, ap not (eq-same_content (find_file n a) (find_file n b) raw (f ∙ g) f))
  ]

  apart_changed : (n : Text) → find_file n a ≢ find_file n b → is_changed a b n ≡ true
  unfolding is_changed
  apart_changed n h = elim (Bool-cases (same_content (find_file n a) (find_file n b))) [
    | inl e ↦ absurd (h (same_content-eq (find_file n a) (find_file n b) e))
    | inr e ↦ rw e refl
  ]

  is_new : (n : Text) → find_file n a ≡ none → not (contains (names a) n) ≡ true
  unfolding contains
  is_new n h = elim (Bool-cases (contains (names a) n)) [
    | inr e ↦ ap not e
    | inl e ↦
        let (x, i, t) = Elem-of_any (text_eq n) (names a) e in
        let (raw, g) =
          names-find_file n a (subst (λ y. Elem y (names a)) (sym (text_eq→eq n x t)) i) in
        absurd (cc (h, g))
  ]

  apart-named : (n : Text) → find_file n a ≢ find_file n b → Elem n (all_names a b)
  unfolding all_names
  apart-named n h = elim (find_file-names n a) [
    | inl i ↦ Elem-append n (names a) (keep_if (λ n. not (contains (names a) n)) (names b)) (inl i)
    | inr k ↦ elim (find_file-names n b) [
      | inr l ↦ absurd (h (k ∙ sym l))
      | inl j ↦
          Elem-append n (names a) (keep_if (λ n. not (contains (names a) n)) (names b))
            (inr (Elem-keep_if_of (λ n. not (contains (names a) n)) n (names b) j (is_new n k)))
    ]
  ]

  diff-changed :
      (c : Change)
      → Elem c (diff digest a b)
      → (n : Text) × (find_file n a ≢ find_file n b) × (c ≡ change digest a b n)
  unfolding diff
  diff-changed c m =
      let ns = keep_if (is_changed a b) (all_names a b) in
      let (n, i, e) =
        Elem-map (change digest a b) c ns (Elem-sort change_leb c (map (change digest a b) ns) m) in
      let (j, k) = Elem-keep_if (is_changed a b) n (all_names a b) i in (n, changed_apart n j k, e)

  changed-diff :
      (n : Text) → find_file n a ≢ find_file n b → Elem (change digest a b n) (diff digest a b)
  unfolding diff
  changed-diff n h =
      let ns = keep_if (is_changed a b) (all_names a b) in
      Elem-sort_of change_leb (change digest a b n) (map (change digest a b) ns) (
        Elem-map_of (change digest a b) n ns (
          Elem-keep_if_of (is_changed a b) n (all_names a b) (apart-named n h) (apart_changed n h)))

-- A change stands in the list of Diff exactly if it is that of a name under which the two bundles
-- have different contents, or only one of them has a file.
pub diff_iff :
    (digest : Bytes → Text) (a b : Files) (c : Change)
    → Elem c (diff digest a b)
      ↔ ((n : Text) × (find_file n a ≢ find_file n b) × (c ≡ change digest a b n))
diff_iff digest a b c = (
  diff-changed digest a b c,
  λ p. subst (λ x. Elem x (diff digest a b)) (sym p.2) (changed-diff digest a b p.0 p.1),
)
