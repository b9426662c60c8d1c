-- ===== src/Normalization/Decode/Enough.antt =====
-- Proofs on Decode: the fuel is enough.
use normgate.Prelude.{
  none, some, subst, ℤ, not, ltb, Option, ℕ, zero, suc, ◌*◌, ◌<◌, ◌≤◌, ◌≢◌, Bool, true, false, List,
  [], ◌∷◌, arith, if-cases, inl, inr,
}
use normgate.Text.{Text}
use normgate.Json.{cons, field, str, end, nil, Value, Fields, Items}
use normgate.Policy.{◌>>◌, Try-cases, Error, Try, ok, err, panic, ◌>>=◌}
use normgate.Normalization.Decode.{
  whole, some, contains, max_depth, require, atoi, check_runs, open_object, close_object,
  open_array, close_array, numeral, text, literal, nothing, Tokens, ended, broken, next, Packages,
  integer, has_more, close_fields, close_items, check_string, read_key, read_token, read_value,
  read_fields, read_items, token_count, decode_tokens,
}

-- The fuel was enough, and what is left are fewer than n tokens.
abbrev pub Finishes : {A : Type 0} → Try (A × Tokens) → ℕ → Type 0
Finishes (ok p) n = token_count p.1 < n
Finishes (err e) n = Unit
Finishes panic n = ⊥

>>=-Finishes :
    {A B : Type 0} (r : Try (A × Tokens)) (k : A × Tokens → Try (B × Tokens)) (n m : ℕ)
    → Finishes r n
    → ((p : A × Tokens) → token_count p.1 < n → Finishes (k p) m)
    → Finishes (r >>= k) m
>>=-Finishes (ok p) k n m h g = g p h
>>=-Finishes (err e) k n m h g = tt
>>=-Finishes panic k n m h g = absurd h

Finishes-le : {A : Type 0} (r : Try (A × Tokens)) (n m : ℕ) → Finishes r n → n ≤ m → Finishes r m
Finishes-le (ok p) n m h l = omega arith
Finishes-le (err e) n m h l = tt
Finishes-le panic n m h l = h

require-Finishes :
    {A : Type 0} (b : Bool) (e : Error) (r : Try (A × Tokens)) (n : ℕ)
    → Finishes r n
    → Finishes (require b e >> r) n
require-Finishes true e r n h = h
require-Finishes false e r n h = tt

integer-ne-panic : (o : Option ℤ) → integer o ≢ panic
unfolding integer
integer-ne-panic none e = ground arith
integer-ne-panic (some n) e = ground arith

close_fields-Finishes :
    (s : Tokens) → Finishes (close_fields s >>= λ (t : Tokens). ok (end, t)) (token_count s)
unfolding close_fields token_count
close_fields-Finishes ended = tt
close_fields-Finishes (broken more) = tt
close_fields-Finishes (next close_object s) = omega arith
close_fields-Finishes (next t s) = tt

close_items-Finishes :
    (s : Tokens) → Finishes (close_items s >>= λ (t : Tokens). ok (nil, t)) (token_count s)
unfolding close_items token_count
close_items-Finishes ended = tt
close_items-Finishes (broken more) = tt
close_items-Finishes (next close_array s) = omega arith
close_items-Finishes (next t s) = tt

module _ (L : Packages) where
  read_key-Finishes : (seen : List Text) (s : Tokens) → Finishes (read_key L seen s) (token_count s)
  unfolding read_key token_count check_string
  read_key-Finishes seen ended = tt
  read_key-Finishes seen (broken more) = tt
  read_key-Finishes seen (next (text k) s) =
      require-Finishes (check_runs L 0 (L.nfd k)) _ _ _
        (require-Finishes (not (contains seen (L.nfc k))) _ (ok (k, s)) _ (omega arith))
  read_key-Finishes seen (next t s) = tt

  module _ (fields : Tokens → Try (Fields × Tokens)) (items : Tokens → Try (Items × Tokens)) where
    read_token-Finishes :
        (s : Tokens)
        → ((t : Tokens) → token_count t < token_count s → Finishes (fields t) (token_count t))
        → ((t : Tokens) → token_count t < token_count s → Finishes (items t) (token_count t))
        → Finishes (read_token L fields items s) (token_count s)
    unfolding read_token token_count check_string integer
    read_token-Finishes ended g h = tt
    read_token-Finishes (broken more) g h = tt
    read_token-Finishes (next open_object s) g h =
        >>=-Finishes (fields s) _ (token_count s) _ (g s (omega arith)) (λ p l. omega arith)
    read_token-Finishes (next open_array s) g h =
        >>=-Finishes (items s) _ (token_count s) _ (h s (omega arith)) (λ p l. omega arith)
    read_token-Finishes (next close_object s) g h = tt
    read_token-Finishes (next close_array s) g h = tt
    read_token-Finishes (next (numeral n) s) g h = elim (Try-cases (integer (atoi n))) [
      | inl (v, e) ↦ rw e (omega arith)
      | inr (inl (x, e)) ↦ rw e tt
      | inr (inr e) ↦ absurd (integer-ne-panic (atoi n) e)
    ]
    read_token-Finishes (next (text t) s) g h =
        require-Finishes (check_runs L 0 (L.nfd t)) _ (ok (str t, s)) _ (omega arith)
    read_token-Finishes (next (literal b) s) g h = omega arith
    read_token-Finishes (next nothing s) g h = omega arith

  mutual
    unfolding read_value read_fields read_items has_more close_fields close_items token_count

    value-Finishes :
        (f depth : ℕ) (s : Tokens)
        → 2 * token_count s < f
        → Finishes (read_value L f depth s) (token_count s)
    value-Finishes zero depth s h = absurd (omega arith)
    value-Finishes (suc f) depth s h =
        if-cases (λ (r : Try (Value × Tokens)). Finishes r (token_count s)) (ltb max_depth depth)
          (λ e. tt)
          (λ e.
            read_token-Finishes (read_fields L f (suc depth) []) (read_items L f (suc depth)) s
              (λ t l. fields-Finishes f (suc depth) [] t (omega arith))
              (λ t l. items-Finishes f (suc depth) t (omega arith)))

    fields-Finishes :
        (f depth : ℕ) (seen : List Text) (s : Tokens)
        → suc (2 * token_count s) < f
        → Finishes (read_fields L f depth seen s) (token_count s)
    fields-Finishes zero depth seen s h = absurd (omega arith)
    fields-Finishes (suc f) depth seen s h =
        if-cases (λ (r : Try (Fields × Tokens)). Finishes r (token_count s)) (has_more s)
          (λ m.
            >>=-Finishes (read_key L seen s) _ (token_count s) (token_count s)
              (read_key-Finishes seen s)
              (λ (k : Text × Tokens) l.
                >>=-Finishes (read_value L f depth k.1) _ (token_count k.1) (token_count s)
                  (value-Finishes f depth k.1 (omega arith))
                  (λ (v : Value × Tokens) l'.
                    >>=-Finishes (read_fields L f depth (L.nfc k.0 ∷ seen) v.1)
                      (λ (r : Fields × Tokens). ok (field k.0 v.0 r.0, r.1)) (token_count v.1)
                      (token_count s) (fields-Finishes f depth (L.nfc k.0 ∷ seen) v.1 (omega arith))
                      (λ r l''. omega arith))))
          (λ m. close_fields-Finishes s)

    items-Finishes :
        (f depth : ℕ) (s : Tokens)
        → suc (2 * token_count s) < f
        → Finishes (read_items L f depth s) (token_count s)
    items-Finishes zero depth s h = absurd (omega arith)
    items-Finishes (suc f) depth s h =
        if-cases (λ (r : Try (Items × Tokens)). Finishes r (token_count s)) (has_more s)
          (λ m.
            >>=-Finishes (read_value L f depth s) _ (token_count s) (token_count s)
              (value-Finishes f depth s (omega arith))
              (λ (v : Value × Tokens) l'.
                >>=-Finishes (read_items L f depth v.1)
                  (λ (r : Items × Tokens). ok (cons v.0 r.0, r.1)) (token_count v.1) (token_count s)
                  (items-Finishes f depth v.1 (omega arith)) (λ r l''. omega arith)))
          (λ m. close_items-Finishes s)

  whole-ne-panic : (p : Value × Tokens) → whole p ≢ panic
  whole-ne-panic (v, ended) e = ground arith
  whole-ne-panic (v, broken more) e = ground arith
  whole-ne-panic (v, next t s) e = ground arith

  -- Decode never runs out of fuel.
  pub decode_tokens-ne-panic : (s : Tokens) → decode_tokens L s ≢ panic
  unfolding decode_tokens
  decode_tokens-ne-panic s e =
      let ends = value-Finishes (suc (2 * token_count s)) 0 s (omega arith) in
      elim (Try-cases (read_value L (suc (2 * token_count s)) 0 s)) [
        | inl (p, r) ↦ whole-ne-panic p (rw r at e)
        | inr (inl (x, r)) ↦ absurd (ground arith)
        | inr (inr r) ↦ subst (λ x. Finishes x (token_count s)) r ends
      ]
