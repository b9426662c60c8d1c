-- ===== src/Normalization/Normalize/Profiled.antt =====
-- Proofs on normalize: timestamps and sets that are normalized again.
use normgate.Prelude.{
  ◌≡◌, refl, ap, ◌∙◌, subst, true, ◌&&◌, some, List, [], ◌∷◌, arith, All, All-Elem, All-of_Elem,
  inl, inr, Bool-cases, Option-cases,
}
use normgate.Text.{Text, text_leb}
use normgate.Text.Order.{text_leb_total}
use normgate.Sort.{sort, insert, IsSorted, sort-IsSorted, Elem-sort}
use normgate.Json.{Value, null, bool, number, str, arr, obj}
use normgate.Policy.{ok, Try-cases, ok-injective}
use normgate.Normalization.Normalize.{
  Packages, Profile, strings_of, string_items, has_no_twins, in_range, is_timestamp, format_instant,
  timestamp, nfc_all, set_of,
}

-- What is asked of the packages: NFC is idempotent, and the text of an instant in UTC is read back
-- as an instant with the same year and text.
pub record IsStable (L : Packages) : Type 0 where
  pub nfc_twice : (s : Text) → L.nfc (L.nfc s) ≡ L.nfc s
  pub reads_back :
      (t : L.Instant)
      → in_range (L.utc_year t) ≡ true
      → (is_timestamp (L.format_utc t) ≡ true)
        × ((u : L.Instant) × (L.parse_time (L.format_utc t) ≡ some u)
            × (L.year u ≡ L.utc_year t)
            × (L.utc_year u ≡ L.utc_year t)
            × (L.format_utc u ≡ L.format_utc t))

sort_sorted : (xs : List Text) → IsSorted text_leb xs → sort text_leb xs ≡ xs
unfolding sort insert
sort_sorted [] h = refl
sort_sorted (x ∷ []) h = refl
sort_sorted (x ∷ y ∷ xs) (h, k) = ap (insert text_leb x) (sort_sorted (y ∷ xs) k) ∙ rw h refl

strings_of-string_items : (ss : List Text) → strings_of (string_items ss) ≡ ok ss
unfolding strings_of string_items
strings_of-string_items [] = refl
strings_of-string_items (s ∷ ss) = rw (strings_of-string_items ss) refl

module _ (L : Packages) (stable : IsStable L) (profile : Profile) where
  nfc_all_fixed : (ss : List Text) → All (λ s. L.nfc s ≡ s) ss → nfc_all L profile ss ≡ ss
  unfolding nfc_all
  nfc_all_fixed [] h = refl
  nfc_all_fixed (s ∷ ss) (h, k) = rw (h, nfc_all_fixed ss k) refl

  nfc_all-All : (ss : List Text) → All (λ s. L.nfc s ≡ s) (nfc_all L profile ss)
  unfolding nfc_all
  nfc_all-All [] = tt
  nfc_all-All (s ∷ ss) = (stable.nfc_twice s, nfc_all-All ss)

  format_again :
      (t : L.Instant)
      → in_range (L.utc_year t) ≡ true
      → timestamp L profile (str (L.format_utc t)) ≡ ok (str (L.format_utc t))
  unfolding timestamp format_instant
  format_again t h = let (i, (u, p, y, z, q)) = stable.reads_back t h in rw (i, p, y, z, q, h) refl

  pub timestamp_again : (v w : Value) → timestamp L profile v ≡ ok w → timestamp L profile w ≡ ok w
  unfolding timestamp format_instant
  timestamp_again (str s) w h = elim (Bool-cases (is_timestamp s)) [
    | inr e ↦ absurd (ground arith)
    | inl e ↦ elim (Option-cases (L.parse_time s)) [
      | inl f ↦ absurd (ground arith)
      | inr (t, f) ↦ elim (Bool-cases (in_range (L.year t) && in_range (L.utc_year t))) [
        | inr g ↦ absurd (ground arith)
        | inl g ↦
            let same : str (L.format_utc t) ≡ w =
              ok-injective (str (L.format_utc t)) w (ground arith) in
            subst (λ x. timestamp L profile x ≡ ok x) same (format_again t (ground arith))
      ]
    ]
  ]
  timestamp_again null w h = absurd (ground arith)
  timestamp_again (bool b) w h = absurd (ground arith)
  timestamp_again (number n) w h = absurd (ground arith)
  timestamp_again (arr xs) w h = absurd (ground arith)
  timestamp_again (obj fs) w h = absurd (ground arith)

  sorted-All : (ss : List Text) → All (λ s. L.nfc s ≡ s) (sort text_leb (nfc_all L profile ss))
  sorted-All ss =
      All-of_Elem (λ s. L.nfc s ≡ s) (sort text_leb (nfc_all L profile ss))
        (λ s m.
          All-Elem (λ s. L.nfc s ≡ s) (nfc_all L profile ss) (nfc_all-All ss) s
            (Elem-sort text_leb s (nfc_all L profile ss) m))

  sorted_again :
      (ss : List Text)
      → has_no_twins (sort text_leb (nfc_all L profile ss)) ≡ true
      → set_of L profile (arr (string_items (sort text_leb (nfc_all L profile ss))))
        ≡ ok (arr (string_items (sort text_leb (nfc_all L profile ss))))
  unfolding set_of
  sorted_again ss h =
      let out = sort text_leb (nfc_all L profile ss) in
      rw
        (
          strings_of-string_items out,
          nfc_all_fixed out (sorted-All ss),
          sort_sorted out (sort-IsSorted text_leb text_leb_total (nfc_all L profile ss)),
          h,
        )
        refl

  pub set_again : (v w : Value) → set_of L profile v ≡ ok w → set_of L profile w ≡ ok w
  unfolding set_of
  set_again (arr xs) w h = elim (Try-cases (strings_of xs)) [
    | inr e ↦ absurd (ground arith)
    | inl (ss, e) ↦ elim (Bool-cases (has_no_twins (sort text_leb (nfc_all L profile ss)))) [
      | inr f ↦ absurd (ground arith)
      | inl f ↦
          let out = sort text_leb (nfc_all L profile ss) in
          let same : arr (string_items out) ≡ w =
            ok-injective (arr (string_items out)) w (ground arith) in
          subst (λ x. set_of L profile x ≡ ok x) same (sorted_again ss f)
    ]
  ]
  set_again null w h = absurd (ground arith)
  set_again (bool b) w h = absurd (ground arith)
  set_again (number n) w h = absurd (ground arith)
  set_again (str s) w h = absurd (ground arith)
  set_again (obj fs) w h = absurd (ground arith)
