-- ===== src/Normalization/Decode/Complete.antt =====
-- Proofs on Decode: the tokens of a safe value are read as the value.
use normgate.Prelude.{
  sym, subst, ◌↔◌, ℕ, zero, suc, ◌+◌, ◌*◌, ◌≤◌, ◌<◌, ◌≡◌, ℤ, pos, negsuc, true, false, List, [],
  ◌∷◌, arith, refl, Bool-cases, inl, inr,
}
use normgate.Text.{text_eq_iff, Text, contains}
use normgate.Json.{Value, null, bool, number, str, arr, obj, Items, nil, cons, Fields, end, field}
use normgate.Json.Decimal.{format_int}
use normgate.Json.Decimal.Parse.{IsInt64, atoi, atoi-format_int}
use normgate.Policy.{ok}
use normgate.Normalization.Decode.{
  close_object, close_array, text, Tokens, ended, next, Packages, integer, has_more, close_fields,
  close_items, check_runs, check_string, read_key, read_token, read_value, read_fields, read_items,
  token_count, decode_tokens,
}
use normgate.Normalization.Decode.Safe.{
  IsExact, leading_marks, HasShortRuns, IsNewKey, IsSafe, AreSafe, HasSafe,
}
use normgate.Normalization.Decode.Spelled.{value_tokens, items_tokens, fields_tokens}
use normgate.Normalization.Decode.Sound.{decode_tokens-IsSafe}

mutual
  unfolding value_tokens items_tokens fields_tokens token_count

  value_tokens-count : (v : Value) (s : Tokens) → token_count s < token_count (value_tokens v s)
  value_tokens-count null s = omega arith
  value_tokens-count (bool b) s = omega arith
  value_tokens-count (number n) s = omega arith
  value_tokens-count (str t) s = omega arith
  value_tokens-count (arr xs) s = omega (arith, items_tokens-count xs (next close_array s))
  value_tokens-count (obj fs) s = omega (arith, fields_tokens-count fs (next close_object s))

  items_tokens-count : (xs : Items) (s : Tokens) → token_count s ≤ token_count (items_tokens xs s)
  items_tokens-count nil s = omega arith
  items_tokens-count (cons x xs) s =
      omega (arith, value_tokens-count x (items_tokens xs s), items_tokens-count xs s)

  fields_tokens-count :
      (fs : Fields) (s : Tokens) → token_count s ≤ token_count (fields_tokens fs s)
  fields_tokens-count end s = omega arith
  fields_tokens-count (field k v fs) s =
      omega (arith, value_tokens-count v (fields_tokens fs s), fields_tokens-count fs s)

has_more-value_tokens : (v : Value) (s : Tokens) → has_more (value_tokens v s) ≡ true
unfolding has_more value_tokens
has_more-value_tokens null s = refl
has_more-value_tokens (bool b) s = refl
has_more-value_tokens (number n) s = refl
has_more-value_tokens (str t) s = refl
has_more-value_tokens (arr xs) s = refl
has_more-value_tokens (obj fs) s = refl

IsExact-IsInt64 : (n : ℤ) → IsExact n → IsInt64 n
IsExact-IsInt64 (pos n) h = omega arith
IsExact-IsInt64 (negsuc n) h = omega arith

integer-exact : (n : ℤ) → IsExact n → integer (atoi (format_int n)) ≡ ok (number (format_int n))
unfolding integer
integer-exact (pos n) h = rw (atoi-format_int (pos n) (omega arith)) (ground arith)
integer-exact (negsuc n) h = rw (atoi-format_int (negsuc n) (omega arith)) (ground arith)

module _ (L : Packages) where
  open L use {nfc, nfd, is_mark}

  leading_marks-le : (s : Text) → HasShortRuns L s → leading_marks L s ≤ 30
  leading_marks-le [] h = omega arith
  leading_marks-le (c ∷ s) h = h.0

  check_runs_complete :
      (run : ℕ) (s : Text)
      → run + leading_marks L s ≤ 30
      → HasShortRuns L s
      → check_runs L run s ≡ true
  unfolding check_runs
  check_runs_complete run [] h k = refl
  check_runs_complete run (c ∷ s) h (i, k) = elim (Bool-cases (is_mark c)) [
    | inl m ↦ rw m (ground (arith, check_runs_complete (suc run) s))
    | inr m ↦ rw m (check_runs_complete 0 s (omega (arith, leading_marks-le s k)) k)
  ]

  check_string_complete : (s : Text) → HasShortRuns L (nfd s) → check_string L s ≡ ok tt
  unfolding check_string
  check_string_complete s h =
      rw (check_runs_complete 0 (nfd s) (omega (arith, leading_marks-le (nfd s) h)) h) refl

  abbrev AreUnseen : List Text → Fields → Type 0
  AreUnseen seen end = Unit
  AreUnseen seen (field k v fs) = (contains seen (nfc k) ≡ false) × AreUnseen seen fs

  AreUnseen-cons :
      (n : Text) (seen : List Text) (fs : Fields)
      → IsNewKey L n fs
      → AreUnseen seen fs
      → AreUnseen (n ∷ seen) fs
  unfolding contains
  AreUnseen-cons n seen end h k = tt
  AreUnseen-cons n seen (field k v fs) (h, i) (j, l) =
      (ground (arith, text_eq_iff (nfc k) n), AreUnseen-cons n seen fs i l)

  AreUnseen-nil : (fs : Fields) → AreUnseen [] fs
  unfolding contains
  AreUnseen-nil end = tt
  AreUnseen-nil (field k v fs) = (refl, AreUnseen-nil fs)

  read_key_complete :
      (seen : List Text) (k : Text) (s : Tokens)
      → HasShortRuns L (nfd k)
      → contains seen (nfc k) ≡ false
      → read_key L seen (next (text k) s) ≡ ok (k, s)
  unfolding read_key
  read_key_complete seen k s h i = rw (check_string_complete k h) (rw i refl)

  mutual
    unfolding read_value read_fields read_items read_token value_tokens items_tokens fields_tokens
        token_count has_more close_fields close_items

    value_complete :
        (f d : ℕ) (v : Value) (s : Tokens)
        → IsSafe L d v
        → 2 * token_count (value_tokens v s) < f
        → read_value L f d (value_tokens v s) ≡ ok (v, s)
    value_complete zero d v s h l = absurd (omega arith)
    value_complete (suc f) d null s h l = ground arith
    value_complete (suc f) d (bool b) s h l = ground arith
    value_complete (suc f) d (number t) s (h, n, e, x) l =
        rw (subst (λ y. integer (atoi y) ≡ ok (number y)) (sym e) (integer-exact n x))
          (ground arith)
    value_complete (suc f) d (str t) s (h, short) l =
        rw (check_string_complete t short) (ground arith)
    value_complete (suc f) d (arr xs) s (h, safe) l =
        rw (items_complete f (suc d) xs s safe (omega arith)) (ground arith)
    value_complete (suc f) d (obj fs) s (h, safe) l =
        rw (fields_complete f (suc d) [] fs s safe (AreUnseen-nil fs) (omega arith)) (ground arith)

    items_complete :
        (f d : ℕ) (xs : Items) (s : Tokens)
        → AreSafe L d xs
        → suc (2 * token_count (items_tokens xs (next close_array s))) < f
        → read_items L f d (items_tokens xs (next close_array s)) ≡ ok (xs, s)
    items_complete zero d xs s h l = absurd (omega arith)
    items_complete (suc f) d nil s h l = refl
    items_complete (suc f) d (cons x xs) s (h, i) l =
        let r = items_tokens xs (next close_array s) in
        rw
          (
            has_more-value_tokens x r,
            value_complete f d x r h (omega arith),
            items_complete f d xs s i (omega (arith, value_tokens-count x r)),
          )
          refl

    fields_complete :
        (f d : ℕ) (seen : List Text) (fs : Fields) (s : Tokens)
        → HasSafe L d fs
        → AreUnseen seen fs
        → suc (2 * token_count (fields_tokens fs (next close_object s))) < f
        → read_fields L f d seen (fields_tokens fs (next close_object s)) ≡ ok (fs, s)
    fields_complete zero d seen fs s h u l = absurd (omega arith)
    fields_complete (suc f) d seen end s h u l = refl
    fields_complete (suc f) d seen (field k v fs) s (short, other, h, i) (j, u) l =
        let r = fields_tokens fs (next close_object s) in
        rw
          (
            read_key_complete seen k (value_tokens v r) short j,
            value_complete f d v r h (omega arith),
            fields_complete f d (nfc k ∷ seen) fs s i (AreUnseen-cons (nfc k) seen fs other u)
                (omega (arith, value_tokens-count v r)),
          )
          refl

  -- Decode returns a value on the tokens of that value exactly if the value is safe.
  pub decode_tokens_iff :
      (v : Value) → (decode_tokens L (value_tokens v ended) ≡ ok v) ↔ IsSafe L 0 v
  unfolding decode_tokens
  decode_tokens_iff v = (
    λ e. (decode_tokens-IsSafe L (value_tokens v ended) v e).0,
    λ h.
        rw (value_complete (suc (2 * token_count (value_tokens v ended))) 0 v ended h (omega arith))
          refl,
  )
