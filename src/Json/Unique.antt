-- ===== src/Json/Unique.antt =====
-- Reading back the text of a JSON value.
use mathlib.Core.List.{append_assoc}
use mathlib.Core.List
use normgate.Prelude.{
  ℕ, ◌≡◌, refl, sym, ap, ◌∙◌, ◌≢◌, Bool, true, false, ◌||◌, ◌&&◌, some, [], ◌∷◌, ◌++◌, arith, leb,
  ◌==◌, if◌then◌else◌,
}
use normgate.Text.{Text}
use normgate.Json.Escape.{IsEscape, marshal_rune-IsEscape}
use normgate.Json.{
  Value, null, bool, number, str, arr, obj, Items, nil, cons, Fields, end, field, marshal_rune,
  write_runes, write_string, write, write_items, write_more, write_fields, write_rest, marshal,
}

abbrev pub is_numeral_rune : ℕ → Bool
is_numeral_rune c = (leb 48 c && leb c 57) || c == 45 || c == 43 || c == 46 || c == 101 || c == 69

abbrev pub IsNumeral : Text → Type 0
IsNumeral [] = ⊥
IsNumeral (c ∷ []) = is_numeral_rune c ≡ true
IsNumeral (c ∷ d ∷ s) = (is_numeral_rune c ≡ true) × IsNumeral (d ∷ s)

-- The text does not go on with a number.
abbrev pub Stops : Text → Type 0
Stops [] = Unit
Stops (c ∷ s) = is_numeral_rune c ≡ false

-- Every number in the value is a numeral.
abbrev mutual
  pub IsWellFormed : Value → Type 0
  IsWellFormed null = Unit
  IsWellFormed (bool b) = Unit
  IsWellFormed (number n) = IsNumeral n
  IsWellFormed (str s) = Unit
  IsWellFormed (arr xs) = AreWellFormed xs
  IsWellFormed (obj fs) = HasWellFormed fs

  pub AreWellFormed : Items → Type 0
  AreWellFormed nil = Unit
  AreWellFormed (cons x xs) = IsWellFormed x × AreWellFormed xs

  pub HasWellFormed : Fields → Type 0
  HasWellFormed end = Unit
  HasWellFormed (field k v fs) = IsWellFormed v × HasWellFormed fs

number_unique :
    (m n s t : Text)
    → IsNumeral m
    → IsNumeral n
    → Stops s
    → Stops t
    → m ++ s ≡ n ++ t
    → (m ≡ n) × (s ≡ t)
number_unique [] n s t p q h k e = absurd p
number_unique (c ∷ m) [] s t p q h k e = absurd q
number_unique (c ∷ []) (d ∷ []) s t p q h k e = ground arith
number_unique (c ∷ []) (d ∷ x ∷ n) [] t p q h k e = ground arith
number_unique (c ∷ []) (d ∷ x ∷ []) (y ∷ s) t p q h k e = ground arith
number_unique (c ∷ []) (d ∷ x ∷ z ∷ n) (y ∷ s) t p q h k e = ground arith
number_unique (c ∷ y ∷ m) (d ∷ []) s [] p q h k e = ground arith
number_unique (c ∷ y ∷ []) (d ∷ []) s (x ∷ t) p q h k e = ground arith
number_unique (c ∷ y ∷ z ∷ m) (d ∷ []) s (x ∷ t) p q h k e = ground arith
number_unique (c ∷ x ∷ m) (d ∷ y ∷ n) s t p q h k e =
    ground (arith, number_unique (x ∷ m) (y ∷ n) s t p.1 q.1 h k)

module _ (escape : ℕ → Text) (ok : IsEscape escape) where
  next-runes :
      (c : ℕ) (a s : Text)
      → ok.next (write_runes escape (c ∷ a) ++ s) ≡ some (c, write_runes escape a ++ s)
  unfolding write_runes
  next-runes c a s = ap ok.next (append_assoc (escape c) _ s) ∙ ok.next-escape c _

  runes_unique :
      (a b s t : Text)
      → write_runes escape a ++ (34 ∷ s) ≡ write_runes escape b ++ (34 ∷ t)
      → (a ≡ b) × (s ≡ t)
  unfolding write_runes
  runes_unique [] [] s t e = ground arith
  runes_unique [] (d ∷ b) s t e = cc (ok.next_quote s, next-runes d b (34 ∷ t))
  runes_unique (c ∷ a) [] s t e = cc (ap ok.next e, ok.next_quote t, next-runes c a (34 ∷ s))
  runes_unique (c ∷ a) (d ∷ b) s t e =
      ground (
        arith,
        ap ok.next e,
        next-runes c a (34 ∷ s),
        next-runes d b (34 ∷ t),
        runes_unique a b s t,
      )

  string_unique :
      (a b s t : Text) → write_string escape a ++ s ≡ write_string escape b ++ t → (a ≡ b) × (s ≡ t)
  unfolding write_string
  string_unique a b s t e = runes_unique a b s t (
      sym (append_assoc (write_runes escape a) (34 ∷ []) s)
      ∙ ap List.tail e
      ∙ append_assoc (write_runes escape b) (34 ∷ []) t)

-- What a value begins with.
abbrev first : Text → ℕ
first [] = 0
first (c ∷ s) = c

write_not_close : (e : ℕ → Text) (v : Value) (s t : Text) → IsWellFormed v → write e v ++ s ≢ 93 ∷ t
unfolding write
write_not_close e null s t h p = ground arith
write_not_close e (bool true) s t h p = ground arith
write_not_close e (bool false) s t h p = ground arith
write_not_close e (number []) s t h p = absurd h
write_not_close e (number (c ∷ [])) s t h p = ground arith
write_not_close e (number (c ∷ d ∷ n)) s t h p = ground arith
write_not_close e (str a) s t h p = ground arith
write_not_close e (arr xs) s t h p = ground arith
write_not_close e (obj fs) s t h p = ground arith

-- The kind of a value, read from its first character.
abbrev kind_of : ℕ → ℕ
kind_of c =
    if c == 110
    then 0
    else if c == 116 || c == 102
    then 1
    else if c == 34
    then 4
    else if c == 91
    then 5
    else if c == 123
    then 6
    else 3

abbrev kind : Value → ℕ
kind null = 0
kind (bool b) = 1
kind (number n) = 3
kind (str s) = 4
kind (arr xs) = 5
kind (obj fs) = 6

kind-first :
    (e : ℕ → Text) (v : Value) (s : Text)
    → IsWellFormed v
    → kind_of (first (write e v ++ s)) ≡ kind v
unfolding write
kind-first e null s h = refl
kind-first e (bool true) s h = refl
kind-first e (bool false) s h = refl
kind-first e (number []) s h = absurd h
kind-first e (number (c ∷ [])) s h = ground arith
kind-first e (number (c ∷ d ∷ n)) s h = ground arith
kind-first e (str a) s h = refl
kind-first e (arr xs) s h = refl
kind-first e (obj fs) s h = refl

same_kind :
    (e : ℕ → Text) (v w : Value) (s t : Text)
    → IsWellFormed v
    → IsWellFormed w
    → write e v ++ s ≡ write e w ++ t
    → kind v ≡ kind w
same_kind e v w s t h k p =
    sym (kind-first e v s h) ∙ ap (λ x. kind_of (first x)) p ∙ kind-first e w t k

Stops-more : (e : ℕ → Text) (xs : Items) (s : Text) → Stops (write_more e xs ++ s)
unfolding write
Stops-more e nil s = refl
Stops-more e (cons x xs) s = refl

Stops-rest : (e : ℕ → Text) (fs : Fields) (s : Text) → Stops (write_rest e fs ++ s)
unfolding write
Stops-rest e end s = refl
Stops-rest e (field k v fs) s = refl

bool_unique :
    (e : ℕ → Text) (a b : Bool) (s t : Text)
    → write e (bool a) ++ s ≡ write e (bool b) ++ t
    → (a ≡ b) × (s ≡ t)
unfolding write
bool_unique e true true s t h = ground arith
bool_unique e true false s t h = ground arith
bool_unique e false true s t h = ground arith
bool_unique e false false s t h = ground arith

move_bracket : (a b c d s t : Text) → (a ++ b) ++ s ≡ (c ++ d) ++ t → a ++ (b ++ s) ≡ c ++ (d ++ t)
move_bracket a b c d s t e = sym (append_assoc a b s) ∙ e ∙ append_assoc c d t

move_entry :
    (a b c d s t : Text)
    → (a ++ (58 ∷ b)) ++ s ≡ (c ++ (58 ∷ d)) ++ t
    → a ++ (58 ∷ (b ++ s)) ≡ c ++ (58 ∷ (d ++ t))
move_entry a b c d s t e = move_bracket a (58 ∷ b) c (58 ∷ d) s t e

module _ (esc : ℕ → Text) (ok : IsEscape esc) where
  mutual
    unfolding write write_string

    value_unique :
        (v w : Value) (s t : Text)
        → IsWellFormed v
        → IsWellFormed w
        → Stops s
        → Stops t
        → write esc v ++ s ≡ write esc w ++ t
        → (v ≡ w) × (s ≡ t)
    value_unique null null s t h k p q e = ground arith
    value_unique (bool a) (bool b) s t h k p q e = ground (arith, bool_unique esc a b s t e)
    value_unique (number m) (number n) s t h k p q e =
        ground (arith, number_unique m n s t h k p q e)
    value_unique (str a) (str b) s t h k p q e = ground (arith, string_unique esc ok a b s t e)
    value_unique (arr xs) (arr ys) s t h k p q e =
        ground (arith, items_unique xs ys s t h k (ap List.tail e))
    value_unique (obj f) (obj g) s t h k p q e =
        ground (arith, fields_unique f g s t h k (ap List.tail e))
    value_unique v w s t h k p q e = absurd (omega (arith, same_kind esc v w s t h k e))

    items_unique :
        (xs ys : Items) (s t : Text)
        → AreWellFormed xs
        → AreWellFormed ys
        → write_items esc xs ++ s ≡ write_items esc ys ++ t
        → (xs ≡ ys) × (s ≡ t)
    items_unique nil nil s t h k e = ground arith
    items_unique nil (cons y ys) s t h k e = absurd (
        write_not_close esc y (write_more esc ys ++ t) s k.0
          (sym (e ∙ append_assoc (write esc y) _ t)))
    items_unique (cons x xs) nil s t h k e = absurd (
        write_not_close esc x (write_more esc xs ++ s) t h.0
          (sym (append_assoc (write esc x) _ s) ∙ e))
    items_unique (cons x xs) (cons y ys) s t h k e =
        let r =
          value_unique x y (write_more esc xs ++ s) (write_more esc ys ++ t) h.0 k.0
            (Stops-more esc xs s) (Stops-more esc ys t)
            (move_bracket (write esc x) _ (write esc y) _ s t e) in
        let q = more_unique xs ys s t h.1 k.1 r.1 in (cc (r.0, q.0), q.1)

    more_unique :
        (xs ys : Items) (s t : Text)
        → AreWellFormed xs
        → AreWellFormed ys
        → write_more esc xs ++ s ≡ write_more esc ys ++ t
        → (xs ≡ ys) × (s ≡ t)
    more_unique nil nil s t h k e = ground arith
    more_unique nil (cons y ys) s t h k e = ground arith
    more_unique (cons x xs) nil s t h k e = ground arith
    more_unique (cons x xs) (cons y ys) s t h k e =
        let r =
          value_unique x y (write_more esc xs ++ s) (write_more esc ys ++ t) h.0 k.0
            (Stops-more esc xs s) (Stops-more esc ys t)
            (move_bracket (write esc x) _ (write esc y) _ s t (ap List.tail e)) in
        let q = more_unique xs ys s t h.1 k.1 r.1 in (cc (r.0, q.0), q.1)

    fields_unique :
        (f g : Fields) (s t : Text)
        → HasWellFormed f
        → HasWellFormed g
        → write_fields esc f ++ s ≡ write_fields esc g ++ t
        → (f ≡ g) × (s ≡ t)
    fields_unique end end s t h k e = ground arith
    fields_unique end (field b w g) s t h k e = ground arith
    fields_unique (field a v f) end s t h k e = ground arith
    fields_unique (field a v f) (field b w g) s t h k e =
        let c =
          string_unique esc ok a b (58 ∷ ((write esc v ++ write_rest esc f) ++ s))
            (58 ∷ ((write esc w ++ write_rest esc g) ++ t))
            (move_entry (write_string esc a) _ (write_string esc b) _ s t e) in
        let r =
          value_unique v w (write_rest esc f ++ s) (write_rest esc g ++ t) h.0 k.0
            (Stops-rest esc f s) (Stops-rest esc g t)
            (move_bracket (write esc v) _ (write esc w) _ s t (ap List.tail c.1)) in
        let q = rest_unique f g s t h.1 k.1 r.1 in (cc (c.0, r.0, q.0), q.1)

    rest_unique :
        (f g : Fields) (s t : Text)
        → HasWellFormed f
        → HasWellFormed g
        → write_rest esc f ++ s ≡ write_rest esc g ++ t
        → (f ≡ g) × (s ≡ t)
    rest_unique end end s t h k e = ground arith
    rest_unique end (field b w g) s t h k e = ground arith
    rest_unique (field a v f) end s t h k e = ground arith
    rest_unique (field a v f) (field b w g) s t h k e =
        let c =
          string_unique esc ok a b (58 ∷ ((write esc v ++ write_rest esc f) ++ s))
            (58 ∷ ((write esc w ++ write_rest esc g) ++ t))
            (move_entry (write_string esc a) _ (write_string esc b) _ s t (ap List.tail e)) in
        let r =
          value_unique v w (write_rest esc f ++ s) (write_rest esc g ++ t) h.0 k.0
            (Stops-rest esc f s) (Stops-rest esc g t)
            (move_bracket (write esc v) _ (write esc w) _ s t (ap List.tail c.1)) in
        let q = rest_unique f g s t h.1 k.1 r.1 in (cc (c.0, r.0, q.0), q.1)

-- A writer whose escapes can be read back gives different texts for different values.
pub write-injective :
    (escape : ℕ → Text)
    → IsEscape escape
    → (v w : Value) → IsWellFormed v
    → IsWellFormed w
    → write escape v ≡ write escape w
    → v ≡ w
write-injective escape ok v w h k e =
    (value_unique escape ok v w [] [] h k tt tt (ap (λ x. x ++ []) e)).0

-- json.Marshal gives different texts for different values.
pub marshal-injective :
    (v w : Value) → IsWellFormed v → IsWellFormed w → marshal v ≡ marshal w → v ≡ w
unfolding marshal
marshal-injective = write-injective marshal_rune marshal_rune-IsEscape
