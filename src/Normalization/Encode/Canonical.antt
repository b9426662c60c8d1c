-- ===== src/Normalization/Encode/Canonical.antt =====
-- Proofs on encode: which values have the same canonical text.
use normgate.Prelude.{◌≡◌, ◌≢◌, ◌↔◌, refl, sym, ap, ◌∙◌, subst, false, if-cases, arith, inl, inr}
use normgate.Text.{Text, text_leb}
use normgate.Text.Order.{text_leb_total, text_leb_antisymm, text_leb_trans}
use normgate.Json.{
  Value, null, bool, number, str, arr, obj, Items, nil, cons, Fields, end, field, write,
}
use normgate.Json.Escape.{IsEscape, escape_rune-IsEscape}
use normgate.Json.Unique.{IsWellFormed, AreWellFormed, HasWellFormed, write-injective}
use normgate.Normalization.Encode.{
  insert_field, in_order, items_in_order, fields_in_order, is_control, quote_rune, encode,
}
use normgate.Normalization.Encode.Same.{
  Same, SameItems, SameFields, same, back, onward, array, object, no_items, items, no_fields, entry,
  swapped, chain,
}

not_itself : (k l : Text) → text_leb k l ≡ false → k ≢ l
not_itself k l h e = elim (text_leb_total k l) [ inl t ↦ cc (h, t) | inr t ↦ cc (h, t, e) ]

SameFields-refl : (fs : Fields) → SameFields fs fs
SameFields-refl end = no_fields
SameFields-refl (field k v fs) = entry k v v fs fs (same v) (SameFields-refl fs)

insert_field-SameFields :
    (k : Text) (v : Value) (fs : Fields) → SameFields (field k v fs) (insert_field k v fs)
unfolding insert_field
insert_field-SameFields k v end = entry k v v end end (same v) no_fields
insert_field-SameFields k v (field l w fs) =
    if-cases (SameFields (field k v (field l w fs))) (text_leb k l)
      (λ h. SameFields-refl (field k v (field l w fs)))
      (λ h.
        chain (field k v (field l w fs)) (field l w (field k v fs))
          (field l w (insert_field k v fs)) (swapped k l v w fs (not_itself k l h))
          (entry l w w (field k v fs) (insert_field k v fs) (same w)
            (insert_field-SameFields k v fs)))

insert_field_comm :
    (k l : Text) (v w : Value) (fs : Fields)
    → k ≢ l
    → insert_field k v (insert_field l w fs) ≡ insert_field l w (insert_field k v fs)
unfolding insert_field
insert_field_comm k l v w end n = ground (arith, text_leb_total k l, text_leb_antisymm k l)
insert_field_comm k l v w (field x y fs) n = ground (
  arith,
  insert_field_comm k l v w fs,
  text_leb_total k l,
  text_leb_antisymm k l,
  text_leb_trans k l x,
  text_leb_trans l k x,
  text_leb_total k x,
  text_leb_total l x,
)

mutual
  unfolding in_order

  in_order-Same : (v : Value) → Same v (in_order v)
  in_order-Same null = same null
  in_order-Same (bool b) = same (bool b)
  in_order-Same (number n) = same (number n)
  in_order-Same (str s) = same (str s)
  in_order-Same (arr xs) = array xs (items_in_order xs) (items_in_order-Same xs)
  in_order-Same (obj fs) = object fs (fields_in_order fs) (fields_in_order-Same fs)

  items_in_order-Same : (xs : Items) → SameItems xs (items_in_order xs)
  items_in_order-Same nil = no_items
  items_in_order-Same (cons x xs) =
      items x (in_order x) xs (items_in_order xs) (in_order-Same x) (items_in_order-Same xs)

  fields_in_order-Same : (fs : Fields) → SameFields fs (fields_in_order fs)
  fields_in_order-Same end = no_fields
  fields_in_order-Same (field k v fs) =
      chain (field k v fs) (field k (in_order v) (fields_in_order fs))
        (insert_field k (in_order v) (fields_in_order fs))
        (entry k v (in_order v) fs (fields_in_order fs) (in_order-Same v) (fields_in_order-Same fs))
        (insert_field-SameFields k (in_order v) (fields_in_order fs))

mutual
  unfolding in_order

  Same-in_order : (v w : Value) → Same v w → in_order v ≡ in_order w
  Same-in_order v w (same _) = refl
  Same-in_order v w (back _ _ h) = sym (Same-in_order w v h)
  Same-in_order u w (onward _ v _ h k) = Same-in_order u v h ∙ Same-in_order v w k
  Same-in_order v w (array xs ys h) = ap arr (SameItems-in_order xs ys h)
  Same-in_order v w (object fs gs h) = ap obj (SameFields-in_order fs gs h)

  SameItems-in_order : (xs ys : Items) → SameItems xs ys → items_in_order xs ≡ items_in_order ys
  SameItems-in_order xs ys no_items = refl
  SameItems-in_order xs ys (items x y vs ws h k) =
      cc (Same-in_order x y h, SameItems-in_order vs ws k)

  SameFields-in_order :
      (fs gs : Fields) → SameFields fs gs → fields_in_order fs ≡ fields_in_order gs
  SameFields-in_order fs gs no_fields = refl
  SameFields-in_order fs gs (entry k v w f g h i) =
      cc (Same-in_order v w h, SameFields-in_order f g i)
  SameFields-in_order fs gs (swapped k l v w f n) =
      insert_field_comm k l (in_order v) (in_order w) (fields_in_order f) n
  SameFields-in_order fs hs (chain _ gs _ h k) =
      SameFields-in_order fs gs h ∙ SameFields-in_order gs hs k

insert-HasWellFormed :
    (k : Text) (v : Value) (fs : Fields)
    → IsWellFormed v
    → HasWellFormed fs
    → HasWellFormed (insert_field k v fs)
unfolding insert_field
insert-HasWellFormed k v end h i = (h, tt)
insert-HasWellFormed k v (field l w fs) h (i, j) =
    if-cases HasWellFormed (text_leb k l) (λ e. (h, (i, j)))
      (λ e. (i, insert-HasWellFormed k v fs h j))

mutual
  unfolding in_order

  in_order-IsWellFormed : (v : Value) → IsWellFormed v → IsWellFormed (in_order v)
  in_order-IsWellFormed null h = tt
  in_order-IsWellFormed (bool b) h = tt
  in_order-IsWellFormed (number n) h = h
  in_order-IsWellFormed (str s) h = tt
  in_order-IsWellFormed (arr xs) h = items-AreWellFormed xs h
  in_order-IsWellFormed (obj fs) h = fields-HasWellFormed fs h

  items-AreWellFormed : (xs : Items) → AreWellFormed xs → AreWellFormed (items_in_order xs)
  items-AreWellFormed nil h = tt
  items-AreWellFormed (cons x xs) (h, i) = (in_order-IsWellFormed x h, items-AreWellFormed xs i)

  fields-HasWellFormed : (fs : Fields) → HasWellFormed fs → HasWellFormed (fields_in_order fs)
  fields-HasWellFormed end h = tt
  fields-HasWellFormed (field k v fs) (h, i) =
      insert-HasWellFormed k (in_order v) (fields_in_order fs) (in_order-IsWellFormed v h)
        (fields-HasWellFormed fs i)

quote_rune-IsEscape : IsEscape quote_rune
unfolding quote_rune
quote_rune-IsEscape = escape_rune-IsEscape is_control (λ c h. ground arith)

-- Two values whose numbers are numerals have the same canonical text exactly if they are the same
-- but for the order of the entries of their objects.
pub encode_iff : (v w : Value) → IsWellFormed v → IsWellFormed w → (encode v ≡ encode w) ↔ Same v w
unfolding encode
encode_iff v w h k = (
  λ e.
      let o =
        write-injective quote_rune quote_rune-IsEscape (in_order v) (in_order w)
          (in_order-IsWellFormed v h) (in_order-IsWellFormed w k) e in
      onward v (in_order v) w (in_order-Same v)
        (subst (λ x. Same x w) (sym o) (back w (in_order w) (in_order-Same w))),
  λ s. ap (write quote_rune) (Same-in_order v w s),
)
