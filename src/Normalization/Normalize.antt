-- ===== src/Normalization/Normalize.antt =====
-- normalize of internal/normalization/normalization.go. Package norm and package time are the
-- parameter `Packages`.
pub mod Profiled
pub mod Again
use normgate.Prelude.{
  ℕ, suc, ℤ, pos, int_ltb, Bool, true, false, ◌&&◌, ◌||◌, not, Option, none, some, List, [], ◌∷◌,
  ◌++◌, leb, ltb, ◌==◌, if◌then◌else◌, all, String,
}
use normgate.Text.{Text, codes, text_eq, text_leb, contains}
use normgate.Sort.{sort}
use normgate.Json.{Value, null, bool, number, str, arr, obj, Items, nil, cons, Fields, end, field}
use normgate.Json.Decimal.{format_int}
use normgate.Policy.{Error, foreign_error, Try, ok, err, panic, ◌>>=◌, ◌>>◌, require}

-- norm.NFC.String, time.Parse with RFC3339Nano, and of an instant its year as it is written and in
-- UTC, and its text in UTC.
pub record Packages : Type 1 where
  pub Instant : Type 0
  pub nfc : Text → Text
  pub parse_time : Text → Option Instant
  pub year : Instant → ℤ
  pub utc_year : Instant → ℤ
  pub format_utc : Instant → Text

pub record Profile : Type 0 where
  pub sets : List Text
  pub timestamps : List Text
  pub omit : List Text

-- invalid(code), with the text of its Error method
abbrev pub invalid : String → Error
invalid code = foreign_error (codes "canonical JSON: " ++ codes code)

abbrev is_digit : ℕ → Bool
is_digit c = leb 48 c && leb c 57

abbrev is_between : ℕ → ℕ → ℕ → Bool
is_between a b c = leb a c && leb c b

-- Z, or an offset of hours and minutes.
unfoldable pub is_zone : Text → Bool
is_zone (c ∷ []) = c == b'Z'
is_zone (c ∷ g ∷ h ∷ x ∷ m ∷ n ∷ []) =
    (c == b'+' || c == b'-')
    && ((is_between 48 49 g && is_digit h) || (g == b'2' && is_between 48 51 h))
    && x == b':'
    && is_between 48 53 m
    && is_digit n
is_zone _ = false

-- The rest of a fraction with n digits, and the zone.
unfoldable pub is_fraction : ℕ → Text → Bool
is_fraction n [] = false
is_fraction n (c ∷ s) =
    let rest = is_fraction (suc n) s in
    if is_digit c then ltb n 9 && rest else ltb 0 n && is_zone (c ∷ s)

unfoldable pub is_tail : Text → Bool
unfolding is_fraction is_zone
is_tail [] = false
is_tail (c ∷ s) = if c == b'.' then is_fraction 0 s else is_zone (c ∷ s)

-- timestampPattern, read by a pattern in which 0 stands for a digit.
unfoldable pub matches : Text → Text → Bool
unfolding is_tail
matches [] s = is_tail s
matches (p ∷ ps) [] = false
matches (p ∷ ps) (c ∷ s) = (if p == b'0' then is_digit c else c == p) && matches ps s

unfoldable pub is_timestamp : Text → Bool
unfolding matches
is_timestamp s = matches (codes "0000-00-00T00:00:00") s

-- One round of strings.ReplaceAll for "~", and for "/".
unfoldable pub pointer_rune : ℕ → Text
pointer_rune c =
    if c == b'~' then b'~' ∷ b'0' ∷ [] else if c == b'/' then b'~' ∷ b'1' ∷ [] else c ∷ []

unfoldable pub pointer : Text → Text
pointer [] = []
pointer (c ∷ s) = pointer_rune c ++ pointer s

-- path + "/" + the escaped key
unfoldable pub next_path : Text → Text → Text
next_path path key = path ++ (b'/' ∷ pointer key)

unfoldable pub has_key : Text → Fields → Bool
has_key k end = false
has_key k (field l v fs) = text_eq l k || has_key k fs

-- An entry of a map to which later ones are added: one with the same key replaces it.
unfoldable pub put_first : Text → Value → Fields → Fields
put_first k v fs = if has_key k fs then fs else field k v fs

abbrev pub string_of : Value → Option Text
string_of (str s) = some s
string_of v = none

unfoldable pub strings_of : Items → Try (List Text)
strings_of nil = ok []
strings_of (cons (str s) xs) = do ss ← strings_of xs; ok (s ∷ ss)
strings_of (cons x xs) = err (invalid "invalid_set")

unfoldable pub string_items : List Text → Items
string_items [] = nil
string_items (s ∷ ss) = cons (str s) (string_items ss)

-- No two neighbours are equal.
unfoldable pub has_no_twins : List Text → Bool
has_no_twins [] = true
has_no_twins (s ∷ []) = true
has_no_twins (s ∷ t ∷ ss) = not (text_eq t s) && has_no_twins (t ∷ ss)

unfoldable pub in_range : ℤ → Bool
in_range y = not (int_ltb y (pos 1)) && not (int_ltb (pos 9999) y)

abbrev pub array_of : Try Items → Try Value
array_of r = do ys ← r; ok (arr ys)

abbrev pub object_of : Try Fields → Try Value
object_of r = do gs ← r; ok (obj gs)

abbrev pub add_item : Try Value → Try Items → Try Items
add_item r rs = do y ← r; ys ← rs; ok (cons y ys)

abbrev pub add_field : Text → Try Value → Try Fields → Try Fields
add_field k r rs = do w ← r; gs ← rs; ok (put_first k w gs)

module _ (L : Packages) (profile : Profile) where
  open L use {nfc}

  unfoldable pub format_instant : Option L.Instant → Try Value
  format_instant none = err (invalid "invalid_timestamp")
  format_instant (some t) =
      if in_range (L.year t) && in_range (L.utc_year t)
      then ok (str (L.format_utc t))
      else err (invalid "invalid_timestamp")

  unfoldable pub timestamp : Value → Try Value
  timestamp (str s) =
      if is_timestamp s then format_instant (L.parse_time s) else err (invalid "invalid_timestamp")
  timestamp v = err (invalid "invalid_timestamp")

  unfoldable pub nfc_all : List Text → List Text
  nfc_all [] = []
  nfc_all (s ∷ ss) = nfc s ∷ nfc_all ss

  unfoldable pub set_of : Value → Try Value
  set_of (arr xs) = do
    ss ← strings_of xs
    require (has_no_twins (sort text_leb (nfc_all ss))) (invalid "duplicate_set_value")
    ok (arr (string_items (sort text_leb (nfc_all ss))))
  set_of v = err (invalid "invalid_set")

  -- A timestamp or a set at the path, or the value as it is normalized elsewhere.
  unfoldable pub by_profile : Text → Value → Try Value → Try Value
  by_profile path v deeper =
      if contains profile.timestamps path
      then timestamp v
      else if contains profile.sets path
      then set_of v
      else deeper

  -- normalize
  unfoldable mutual
    pub normalize : Text → Value → Try Value
    normalize path null = by_profile path null (ok null)
    normalize path (bool b) = by_profile path (bool b) (ok (bool b))
    normalize path (number n) = by_profile path (number n) (ok (number n))
    normalize path (str s) = by_profile path (str s) (ok (str (nfc s)))
    normalize path (arr xs) = by_profile path (arr xs) (array_of (normalize_items path 0 xs))
    normalize path (obj fs) = by_profile path (obj fs) (object_of (normalize_fields path fs))

    pub normalize_items : Text → ℕ → Items → Try Items
    normalize_items path i nil = ok nil
    normalize_items path i (cons x xs) =
        add_item (normalize (path ++ (b'/' ∷ format_int (pos i))) x)
          (normalize_items path (suc i) xs)

    pub normalize_fields : Text → Fields → Try Fields
    normalize_fields path end = ok end
    normalize_fields path (field k v fs) =
        let rest = normalize_fields path fs in
        let added = add_field (nfc k) (normalize (next_path path (nfc k)) v) rest in
        if contains profile.omit (next_path path (nfc k)) then rest else added
