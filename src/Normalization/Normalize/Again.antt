-- ===== src/Normalization/Normalize/Again.antt =====
-- Proofs on normalize: a value that is normalized again.
use normgate.Prelude.{
  ℕ, suc, ◌≡◌, refl, ap, ◌∙◌, subst, true, false, ◌∷◌, ◌++◌, arith, inl, inr, Bool-cases, pos,
}
use normgate.Text.{Text, contains}
use normgate.Json.{Value, null, bool, number, str, arr, obj, Items, nil, cons, Fields, end, field}
use normgate.Json.Decimal.{format_int}
use normgate.Policy.{Try, ok, Try-cases, ok-injective}
use normgate.Normalization.Normalize.{
  Packages, Profile, next_path, has_key, put_first, timestamp, set_of, by_profile, array_of,
  object_of, normalize, normalize_items, normalize_fields,
}
use normgate.Normalization.Normalize.Profiled.{IsStable, timestamp_again, set_again}

module _ (L : Packages) (stable : IsStable L) (profile : Profile) where
  at_timestamp :
      (path : Text) (w : Value)
      → contains profile.timestamps path ≡ true
      → normalize L profile path w ≡ timestamp L profile w
  unfolding normalize by_profile
  at_timestamp path null h = rw h refl
  at_timestamp path (bool b) h = rw h refl
  at_timestamp path (number n) h = rw h refl
  at_timestamp path (str s) h = rw h refl
  at_timestamp path (arr xs) h = rw h refl
  at_timestamp path (obj fs) h = rw h refl

  at_set :
      (path : Text) (w : Value)
      → contains profile.timestamps path ≡ false
      → contains profile.sets path ≡ true
      → normalize L profile path w ≡ set_of L profile w
  unfolding normalize by_profile
  at_set path null h k = rw (h, k) refl
  at_set path (bool b) h k = rw (h, k) refl
  at_set path (number n) h k = rw (h, k) refl
  at_set path (str s) h k = rw (h, k) refl
  at_set path (arr xs) h k = rw (h, k) refl
  at_set path (obj fs) h k = rw (h, k) refl

  -- Nothing is asked of the path.
  IsPlain : Text → Type 0
  IsPlain path = (contains profile.timestamps path ≡ false) × (contains profile.sets path ≡ false)

  by_profile_plain :
      (path : Text) (v : Value) (deeper : Try Value)
      → IsPlain path
      → by_profile L profile path v deeper ≡ deeper
  unfolding by_profile IsPlain
  by_profile_plain path v deeper (h, k) = rw (h, k) refl

  by_profile_again :
      (path : Text) (v w : Value) (deeper : Try Value)
      → by_profile L profile path v deeper ≡ ok w
      → (IsPlain path → deeper ≡ ok w → normalize L profile path w ≡ ok w)
      → normalize L profile path w ≡ ok w
  unfolding by_profile IsPlain
  by_profile_again path v w deeper h f = elim (Bool-cases (contains profile.timestamps path)) [
    | inl e ↦ at_timestamp path w e ∙ timestamp_again L stable profile v w (ground arith)
    | inr e ↦ elim (Bool-cases (contains profile.sets path)) [
      | inl k ↦ at_set path w e k ∙ set_again L stable profile v w (ground arith)
      | inr k ↦ f (e, k) (ground arith)
    ]
  ]

  plain_value :
      (path : Text) (v w : Value)
      → IsPlain path
      → normalize L profile path v ≡ by_profile L profile path v (ok v)
      → ◌≡◌ {A = Try Value} (ok v) (ok w)
      → normalize L profile path w ≡ ok w
  plain_value path v w p e h =
      subst (λ x. normalize L profile path x ≡ ok x) (ok-injective v w h)
        (e ∙ by_profile_plain path v (ok v) p)

  put_first_again :
      (path k : Text) (w : Value) (gs : Fields)
      → contains profile.omit (next_path path (L.nfc k)) ≡ false
      → normalize L profile (next_path path (L.nfc k)) w ≡ ok w
      → normalize_fields L profile path gs ≡ ok gs
      → normalize_fields L profile path (put_first (L.nfc k) w gs) ≡ ok (put_first (L.nfc k) w gs)
  unfolding normalize put_first
  put_first_again path k w gs o h i = elim (Bool-cases (has_key (L.nfc k) gs)) [
    | inl e ↦ rw e i
    | inr e ↦ rw (e, stable.nfc_twice k, o, h, i, e) refl
  ]

  mutual
    unfolding normalize

    normalize_again :
        (path : Text) (v w : Value)
        → normalize L profile path v ≡ ok w
        → normalize L profile path w ≡ ok w
    normalize_again path null w h =
        by_profile_again path null w (ok null) h (λ p. plain_value path null w p refl)
    normalize_again path (bool b) w h =
        by_profile_again path (bool b) w (ok (bool b)) h (λ p. plain_value path (bool b) w p refl)
    normalize_again path (number n) w h =
        by_profile_again path (number n) w (ok (number n)) h
          (λ p. plain_value path (number n) w p refl)
    normalize_again path (str s) w h =
        by_profile_again path (str s) w (ok (str (L.nfc s))) h (λ p e.
          subst (λ x. normalize L profile path x ≡ ok x) (ok-injective (str (L.nfc s)) w e)
            (by_profile_plain path (str (L.nfc s)) (ok (str (L.nfc (L.nfc s)))) p
              ∙ ap (λ t. ok (str t)) (stable.nfc_twice s)))
    normalize_again path (arr xs) w h =
        by_profile_again path (arr xs) w (array_of (normalize_items L profile path 0 xs)) h (λ p e.
          elim (Try-cases (normalize_items L profile path 0 xs)) [
            | inr f ↦ absurd (ground arith)
            | inl (ys, f) ↦
                subst (λ x. normalize L profile path x ≡ ok x)
                  (ok-injective (arr ys) w (ground arith))
                  (by_profile_plain path (arr ys) (array_of (normalize_items L profile path 0 ys)) p
                    ∙ ap array_of (items_again path 0 xs ys f))
          ])
    normalize_again path (obj fs) w h =
        by_profile_again path (obj fs) w (object_of (normalize_fields L profile path fs)) h (λ p e.
          elim (Try-cases (normalize_fields L profile path fs)) [
            | inr f ↦ absurd (ground arith)
            | inl (gs, f) ↦
                subst (λ x. normalize L profile path x ≡ ok x)
                  (ok-injective (obj gs) w (ground arith))
                  (by_profile_plain path (obj gs) (object_of (normalize_fields L profile path gs)) p
                    ∙ ap object_of (fields_again path fs gs f))
          ])

    items_again :
        (path : Text) (i : ℕ) (xs ys : Items)
        → normalize_items L profile path i xs ≡ ok ys
        → normalize_items L profile path i ys ≡ ok ys
    items_again path i nil ys h =
        subst (λ zs. normalize_items L profile path i zs ≡ ok zs) (ok-injective nil ys h) refl
    items_again path i (cons x xs) ys h =
        let here = path ++ (b'/' ∷ format_int (pos i)) in
        elim (Try-cases (normalize L profile here x)) [
          | inr e ↦ absurd (ground arith)
          | inl (y, e) ↦ elim (Try-cases (normalize_items L profile path (suc i) xs)) [
            | inr f ↦ absurd (ground arith)
            | inl (zs, f) ↦
                subst (λ ws. normalize_items L profile path i ws ≡ ok ws)
                  (ok-injective (cons y zs) ys (ground arith))
                  (rw (normalize_again here x y e, items_again path (suc i) xs zs f) refl)
          ]
        ]

    fields_again :
        (path : Text) (fs gs : Fields)
        → normalize_fields L profile path fs ≡ ok gs
        → normalize_fields L profile path gs ≡ ok gs
    fields_again path end gs h =
        subst (λ hs. normalize_fields L profile path hs ≡ ok hs) (ok-injective end gs h) refl
    fields_again path (field k v fs) gs h =
        elim (Bool-cases (contains profile.omit (next_path path (L.nfc k)))) [
          | inl o ↦ fields_again path fs gs (ground arith)
          | inr o ↦ elim (Try-cases (normalize L profile (next_path path (L.nfc k)) v)) [
            | inr e ↦ absurd (ground arith)
            | inl (w, e) ↦ elim (Try-cases (normalize_fields L profile path fs)) [
              | inr f ↦ absurd (ground arith)
              | inl (hs, f) ↦
                  subst (λ x. normalize_fields L profile path x ≡ ok x)
                    (ok-injective (put_first (L.nfc k) w hs) gs (ground arith))
                    (put_first_again path k w hs o
                      (normalize_again (next_path path (L.nfc k)) v w e)
                      (fields_again path fs hs f))
            ]
          ]
        ]

-- What normalize returns, at any path and for any profile, it returns again unchanged, where NFC is
-- idempotent and the text of an instant is read back as one with the same year and text.
pub normalize_idempotent :
    (L : Packages) (profile : Profile) (path : Text) (v w : Value)
    → IsStable L
    → normalize L profile path v ≡ ok w
    → normalize L profile path w ≡ ok w
normalize_idempotent L profile path v w stable h = normalize_again L stable profile path v w h
