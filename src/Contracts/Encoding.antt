-- ===== src/Contracts/Encoding.antt =====
-- The JSON of an obligation.
use normgate.Prelude.{◌≡◌, refl, Option, none, some, List, [], ◌∷◌, arith, ℤ}
use mathlib.Core.Option
use normgate.Text.{Text, text_eq}
use normgate.Json.{Value, str, obj, Fields}
use normgate.Json.Struct.{
  struct, items_of, struct_unique, items_of-injective, option_value-injective, str-injective,
}
use normgate.Json.Unique.{IsWellFormed, AreWellFormed, HasWellFormed}
use normgate.Json.Decimal.{format_int-injective, format_int-IsNumeral}
use normgate.Contracts.{
  Obligation, obligation_keys, obligation_fields, obligation_value, texts_value, int_value,
}

texts_value-injective : (xs ys : List Text) → texts_value xs ≡ texts_value ys → xs ≡ ys
texts_value-injective xs ys e = items_of-injective str str-injective xs ys (cc)

int_value-injective : (m n : ℤ) → int_value m ≡ int_value n → m ≡ n
int_value-injective m n e = format_int-injective m n (cc)

obj-injective : (f g : Fields) → obj f ≡ obj g → f ≡ g
obj-injective f g e = cc

obligation_fields-injective : (a b : Obligation) → obligation_fields a ≡ obligation_fields b → a ≡ b
obligation_fields-injective a b e = ground (
  arith,
  option_value-injective texts_value texts_value-injective a.paths b.paths,
  option_value-injective int_value int_value-injective a.limit b.limit,
  option_value-injective str str-injective a.destination_id b.destination_id,
  option_value-injective str str-injective a.reviewer_group b.reviewer_group,
  option_value-injective str str-injective a.check_ref b.check_ref,
  option_value-injective obj obj-injective a.extensions b.extensions,
)

pub obligation_value-injective :
    (a b : Obligation) → obligation_value a ≡ obligation_value b → a ≡ b
unfolding obligation_value text_eq
obligation_value-injective a b e =
    obligation_fields-injective a b (
      struct_unique obligation_keys (obligation_fields a) (obligation_fields b) refl refl refl (cc))

-- The numbers of an extensions map are numerals, as json.Unmarshal leaves them.
abbrev pub IsEncodable : Obligation → Type 0
IsEncodable o = elim o.extensions [ none ↦ Unit | some fs ↦ HasWellFormed fs ]

abbrev FieldIsWellFormed : Option Value → Type 0
FieldIsWellFormed none = Unit
FieldIsWellFormed (some v) = IsWellFormed v

abbrev FieldsAreWellFormed : List (Option Value) → Type 0
FieldsAreWellFormed [] = Unit
FieldsAreWellFormed (o ∷ os) = FieldIsWellFormed o × FieldsAreWellFormed os

pub struct-HasWellFormed :
    (ks : List Text) (vs : List (Option Value))
    → FieldsAreWellFormed vs
    → HasWellFormed (struct ks vs)
unfolding struct
struct-HasWellFormed [] vs h = tt
struct-HasWellFormed (k ∷ ks) [] h = tt
struct-HasWellFormed (k ∷ ks) (none ∷ vs) h = struct-HasWellFormed ks vs h.1
struct-HasWellFormed (k ∷ ks) (some v ∷ vs) h = (h.0, struct-HasWellFormed ks vs h.1)

pub texts-AreWellFormed : (xs : List Text) → AreWellFormed (items_of str xs)
texts-AreWellFormed [] = tt
texts-AreWellFormed (x ∷ xs) = (tt, texts-AreWellFormed xs)

paths-FieldIsWellFormed : (o : Option (List Text)) → FieldIsWellFormed (Option.map texts_value o)
paths-FieldIsWellFormed none = tt
paths-FieldIsWellFormed (some xs) = texts-AreWellFormed xs

limit-FieldIsWellFormed : (o : Option ℤ) → FieldIsWellFormed (Option.map int_value o)
limit-FieldIsWellFormed none = tt
limit-FieldIsWellFormed (some n) = format_int-IsNumeral n

text-FieldIsWellFormed : (o : Option Text) → FieldIsWellFormed (Option.map str o)
text-FieldIsWellFormed none = tt
text-FieldIsWellFormed (some s) = tt

extensions-FieldIsWellFormed :
    (o : Option Fields)
    → elim o as (λ _. Type 0) [ none ↦ Unit {0} | some fs ↦ HasWellFormed fs ]
    → FieldIsWellFormed (Option.map obj o)
extensions-FieldIsWellFormed none h = tt
extensions-FieldIsWellFormed (some fs) h = h

pub obligation_value-IsWellFormed :
    (o : Obligation) → IsEncodable o → IsWellFormed (obligation_value o)
unfolding obligation_value
obligation_value-IsWellFormed o h = struct-HasWellFormed obligation_keys (obligation_fields o) (
  tt,
  (
    tt,
    (
      tt,
      (
        paths-FieldIsWellFormed o.paths,
        (
          limit-FieldIsWellFormed o.limit,
          (
            text-FieldIsWellFormed o.destination_id,
            (
              text-FieldIsWellFormed o.reviewer_group,
              (
                text-FieldIsWellFormed o.check_ref,
                (extensions-FieldIsWellFormed o.extensions h, tt),
              ),
            ),
          ),
        ),
      ),
    ),
  ),
)
