-- ===== src/Normalization/Decode/Safe.antt =====
-- The values that are safe to sign: bounded depth, exact integers in canonical spelling, bounded runs
-- of marks, and keys that differ after normalization.
use normgate.Prelude.{ℕ, suc, ◌≤◌, ◌≡◌, ◌≢◌, ℤ, pos, negsuc, [], ◌∷◌, if◌then◌else◌}
use normgate.Text.{Text}
use normgate.Json.{Value, null, bool, number, str, arr, obj, Items, nil, cons, Fields, end, field}
use normgate.Json.Decimal.{format_int}
use normgate.Normalization.Decode.{Packages, max_depth, max_integer}

-- At most 2^53 - 1 on both sides of 0.
abbrev pub IsExact : ℤ → Type 0
IsExact (pos n) = n ≤ max_integer
IsExact (negsuc n) = suc n ≤ max_integer

module _ (L : Packages) where
  open L use {nfc, nfd, is_mark}

  -- How many marks a text begins with.
  abbrev pub leading_marks : Text → ℕ
  leading_marks [] = 0
  leading_marks (c ∷ s) = let more = suc (leading_marks s) in if is_mark c then more else 0

  -- From no place on, more than 30 marks follow one another.
  abbrev pub HasShortRuns : Text → Type 0
  HasShortRuns [] = Unit
  HasShortRuns (c ∷ s) = (leading_marks (c ∷ s) ≤ 30) × HasShortRuns s

  -- No key of the object has this normalization.
  abbrev pub IsNewKey : Text → Fields → Type 0
  IsNewKey n end = Unit
  IsNewKey n (field k v fs) = (nfc k ≢ n) × IsNewKey n fs

  abbrev mutual
    pub IsSafe : ℕ → Value → Type 0
    IsSafe d null = d ≤ max_depth
    IsSafe d (bool b) = d ≤ max_depth
    IsSafe d (number t) = (d ≤ max_depth) × (n : ℤ) × (t ≡ format_int n) × IsExact n
    IsSafe d (str s) = (d ≤ max_depth) × HasShortRuns (nfd s)
    IsSafe d (arr xs) = (d ≤ max_depth) × AreSafe (suc d) xs
    IsSafe d (obj fs) = (d ≤ max_depth) × HasSafe (suc d) fs

    pub AreSafe : ℕ → Items → Type 0
    AreSafe d nil = Unit
    AreSafe d (cons x xs) = IsSafe d x × AreSafe d xs

    pub HasSafe : ℕ → Fields → Type 0
    HasSafe d end = Unit
    HasSafe d (field k v fs) =
        HasShortRuns (nfd k) × IsNewKey (nfc k) fs × IsSafe d v × HasSafe d fs
