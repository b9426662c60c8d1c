-- ===== src/Normalization/Canonicalize/Numerals.antt =====
-- Proofs on Canonicalize: the numbers of the values that it encodes.
use normgate.Prelude.{
  ◌&&◌, pos, ◌++◌, if-cases, ◌≡◌, subst, sym, List, [], ◌∷◌, ℕ, suc, none, some, Option,
}
use normgate.Sort.{sort}
use normgate.Text.{text_leb, contains, Text}
use normgate.Json.{Value, null, bool, number, str, arr, obj, Items, nil, cons, Fields, end, field}
use normgate.Json.Decimal.{format_int, format_int-IsNumeral}
use normgate.Json.Unique.{IsNumeral, IsWellFormed, AreWellFormed, HasWellFormed}
use normgate.Policy.{Yields, >>=-Yields, Yields-Unit, require, Try, ok, err, ◌>>=◌}
use normgate.Normalization.Decode
use normgate.Normalization.Decode.Safe.{IsSafe, AreSafe, HasSafe}
use normgate.Normalization.Normalize
use normgate.Normalization.Normalize.{
  has_no_twins, nfc_all, next_path, invalid, is_timestamp, in_range, has_key, Profile, normalize,
  normalize_items, normalize_fields, by_profile, timestamp, format_instant, set_of, strings_of,
  string_items, put_first, add_item, add_field, array_of, object_of,
}

mutual
  IsSafe-IsWellFormed : (D : Decode.Packages) (d : ℕ) (v : Value) → IsSafe D d v → IsWellFormed v
  IsSafe-IsWellFormed D d null h = tt
  IsSafe-IsWellFormed D d (bool b) h = tt
  IsSafe-IsWellFormed D d (number t) (l, n, e, x) = subst IsNumeral (sym e) (format_int-IsNumeral n)
  IsSafe-IsWellFormed D d (str s) h = tt
  IsSafe-IsWellFormed D d (arr xs) (l, h) = AreSafe-AreWellFormed D (suc d) xs h
  IsSafe-IsWellFormed D d (obj fs) (l, h) = HasSafe-HasWellFormed D (suc d) fs h

  AreSafe-AreWellFormed :
      (D : Decode.Packages) (d : ℕ) (xs : Items) → AreSafe D d xs → AreWellFormed xs
  AreSafe-AreWellFormed D d nil h = tt
  AreSafe-AreWellFormed D d (cons x xs) (h, i) =
      (IsSafe-IsWellFormed D d x h, AreSafe-AreWellFormed D d xs i)

  HasSafe-HasWellFormed :
      (D : Decode.Packages) (d : ℕ) (fs : Fields) → HasSafe D d fs → HasWellFormed fs
  HasSafe-HasWellFormed D d end h = tt
  HasSafe-HasWellFormed D d (field k v fs) (r, n, h, i) =
      (IsSafe-IsWellFormed D d v h, HasSafe-HasWellFormed D d fs i)

pub Safe-IsWellFormed : (D : Decode.Packages) (d : ℕ) (v : Value) → IsSafe D d v → IsWellFormed v
Safe-IsWellFormed D d v h = IsSafe-IsWellFormed D d v h

string_items-AreWellFormed : (ss : List Text) → AreWellFormed (string_items ss)
unfolding string_items
string_items-AreWellFormed [] = tt
string_items-AreWellFormed (s ∷ ss) = (tt, string_items-AreWellFormed ss)

put_first-HasWellFormed :
    (k : Text) (v : Value) (fs : Fields)
    → IsWellFormed v
    → HasWellFormed fs
    → HasWellFormed (put_first k v fs)
unfolding put_first
put_first-HasWellFormed k v fs h i = if-cases HasWellFormed (has_key k fs) (λ e. i) (λ e. (h, i))

module _ (N : Normalize.Packages) (profile : Profile) where
  format_instant-IsWellFormed :
      (o : Option N.Instant) → Yields IsWellFormed (format_instant N profile o)
  unfolding format_instant
  format_instant-IsWellFormed none = tt
  format_instant-IsWellFormed (some t) =
      if-cases (λ (r : Try Value). Yields IsWellFormed r)
        (in_range (N.year t) && in_range (N.utc_year t)) {x = ok (str (N.format_utc t))}
        {y = err (invalid "invalid_timestamp")} (λ e. tt) (λ e. tt)

  timestamp-IsWellFormed : (v : Value) → Yields IsWellFormed (timestamp N profile v)
  unfolding timestamp
  timestamp-IsWellFormed (str s) =
      if-cases (λ (r : Try Value). Yields IsWellFormed r) (is_timestamp s)
        {x = format_instant N profile (N.parse_time s)} {y = err (invalid "invalid_timestamp")}
        (λ e. format_instant-IsWellFormed (N.parse_time s)) (λ e. tt)
  timestamp-IsWellFormed v = tt

  set_of-IsWellFormed : (v : Value) → Yields IsWellFormed (set_of N profile v)
  unfolding set_of
  set_of-IsWellFormed (arr xs) =
      >>=-Yields (λ ss. Unit) IsWellFormed (strings_of xs) _ (Yields-Unit (strings_of xs))
        (λ ss u.
          let sorted = sort text_leb (nfc_all N profile ss) in
          >>=-Yields (λ u. Unit) IsWellFormed
            (require (has_no_twins sorted) (invalid "duplicate_set_value"))
            (λ w. ok (arr (string_items sorted)))
            (Yields-Unit (require (has_no_twins sorted) (invalid "duplicate_set_value")))
            (λ w x. string_items-AreWellFormed sorted))
  set_of-IsWellFormed v = tt

  by_profile-IsWellFormed :
      (path : Text) (v : Value) (deeper : Try Value)
      → Yields IsWellFormed deeper
      → Yields IsWellFormed (by_profile N profile path v deeper)
  unfolding by_profile
  by_profile-IsWellFormed path v deeper h =
      let P = λ (r : Try Value). Yields IsWellFormed r in
      if-cases P (contains profile.timestamps path) (λ e. timestamp-IsWellFormed v)
        (λ e. if-cases P (contains profile.sets path) (λ e. set_of-IsWellFormed v) (λ e. h))

  mutual
    unfolding normalize

    normalize-IsWellFormed :
        (path : Text) (v : Value)
        → IsWellFormed v
        → Yields IsWellFormed (normalize N profile path v)
    normalize-IsWellFormed path null h = by_profile-IsWellFormed path null (ok null) tt
    normalize-IsWellFormed path (bool b) h = by_profile-IsWellFormed path (bool b) (ok (bool b)) tt
    normalize-IsWellFormed path (number n) h =
        by_profile-IsWellFormed path (number n) (ok (number n)) h
    normalize-IsWellFormed path (str s) h =
        by_profile-IsWellFormed path (str s) (ok (str (N.nfc s))) tt
    normalize-IsWellFormed path (arr xs) h =
        by_profile-IsWellFormed path (arr xs) (array_of (normalize_items N profile path 0 xs)) (
          >>=-Yields AreWellFormed IsWellFormed (normalize_items N profile path 0 xs)
            (λ ys. ok (arr ys)) (items-AreWellFormed path 0 xs h) (λ ys k. k))
    normalize-IsWellFormed path (obj fs) h =
        by_profile-IsWellFormed path (obj fs) (object_of (normalize_fields N profile path fs)) (
          >>=-Yields HasWellFormed IsWellFormed (normalize_fields N profile path fs)
            (λ gs. ok (obj gs)) (fields-HasWellFormed path fs h) (λ gs k. k))

    items-AreWellFormed :
        (path : Text) (i : ℕ) (xs : Items)
        → AreWellFormed xs
        → Yields AreWellFormed (normalize_items N profile path i xs)
    items-AreWellFormed path i nil h = tt
    items-AreWellFormed path i (cons x xs) (h, k) =
        >>=-Yields IsWellFormed AreWellFormed
          (normalize N profile (path ++ (b'/' ∷ format_int (pos i))) x)
          (λ y. normalize_items N profile path (suc i) xs >>= λ ys. ok (cons y ys))
          (normalize-IsWellFormed (path ++ (b'/' ∷ format_int (pos i))) x h)
          (λ y good.
            >>=-Yields AreWellFormed AreWellFormed (normalize_items N profile path (suc i) xs)
              (λ ys. ok (cons y ys)) (items-AreWellFormed path (suc i) xs k)
              (λ ys rest. (good, rest)))

    fields-HasWellFormed :
        (path : Text) (fs : Fields)
        → HasWellFormed fs
        → Yields HasWellFormed (normalize_fields N profile path fs)
    fields-HasWellFormed path end h = tt
    fields-HasWellFormed path (field k v fs) (h, i) =
        if-cases (λ (r : Try Fields). Yields HasWellFormed r)
          (contains profile.omit (next_path path (N.nfc k))) (λ e. fields-HasWellFormed path fs i)
          (λ e.
            >>=-Yields IsWellFormed HasWellFormed (normalize N profile (next_path path (N.nfc k)) v)
              (λ w. normalize_fields N profile path fs >>= λ gs. ok (put_first (N.nfc k) w gs))
              (normalize-IsWellFormed (next_path path (N.nfc k)) v h)
              (λ w good.
                >>=-Yields HasWellFormed HasWellFormed (normalize_fields N profile path fs)
                  (λ gs. ok (put_first (N.nfc k) w gs)) (fields-HasWellFormed path fs i)
                  (λ gs rest. put_first-HasWellFormed (N.nfc k) w gs good rest)))

-- What normalize returns for a value whose numbers are numerals has numerals for its numbers.
pub normalized-IsWellFormed :
    (N : Normalize.Packages) (profile : Profile) (path : Text) (v w : Value)
    → IsWellFormed v
    → normalize N profile path v ≡ ok w
    → IsWellFormed w
normalized-IsWellFormed N profile path v w h e =
    subst (Yields IsWellFormed) e (normalize-IsWellFormed N profile path v h)
