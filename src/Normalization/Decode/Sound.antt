-- ===== src/Normalization/Decode/Sound.antt =====
-- Proofs on Decode: what it returns is safe and has the tokens that it read.
use normgate.Prelude.{
  zero, subst, ◌*◌, ◌∙◌, ltb, leb, if-cases, ap, inr, suc, inl, Option-cases, Bool-cases, ◌+◌, ◌≤◌,
  ℕ, ◌≡◌, true, false, List, [], ◌∷◌, arith, refl,
}
use normgate.Text.{text_eq_iff, Text, contains}
use normgate.Json.{cons, end, field, nil, Value, Fields, Items}
use normgate.Policy.{Yields, >>=-Yields, ok-injective, Try-cases, Try, ok, ◌>>=◌}
use normgate.Normalization.Decode.{
  whole, max_integer, format_int, negsuc, pos, atoi, max_depth, check_runs, open_object,
  close_object, open_array, close_array, numeral, text, literal, nothing, Tokens, ended, broken,
  next, Packages, integer, has_more, close_fields, close_items, check_string, read_key, read_token,
  read_value, read_fields, read_items, token_count, decode_tokens,
}
use normgate.Normalization.Decode.Safe.{
  leading_marks, HasShortRuns, IsNewKey, IsSafe, AreSafe, HasSafe,
}
use normgate.Normalization.Decode.Spelled.{
  value_tokens, items_tokens, fields_tokens, respell, canonical,
}

module _ (L : Packages) (d : ℕ) where
  abbrev IsRead : Tokens → Value × Tokens → Type 0
  IsRead s p = IsSafe L d p.0 × (respell s ≡ value_tokens p.0 (respell p.1))

  abbrev AreRead : Tokens → Items × Tokens → Type 0
  AreRead s p = AreSafe L d p.0 × (respell s ≡ items_tokens p.0 (next close_array (respell p.1)))

  -- No key of the object has its normalization in the list.
  abbrev AreNew : List Text → Fields → Type 0
  AreNew seen end = Unit
  AreNew seen (field k v fs) = (contains seen (L.nfc k) ≡ false) × AreNew seen fs

  abbrev HasRead : List Text → Tokens → Fields × Tokens → Type 0
  HasRead seen s p =
      HasSafe L d p.0
      × AreNew seen p.0
      × (respell s ≡ fields_tokens p.0 (next close_object (respell p.1)))

  -- A number that is read has its canonical text.
  integer-Yields :
      (t : Text) (s : Tokens)
      → d ≤ max_depth
      → Yields
          (λ (v : Value).
            IsSafe L d v × (next (numeral (canonical t (atoi t))) s ≡ value_tokens v s))
          (integer (atoi t))
  unfolding integer canonical value_tokens
  integer-Yields t s h = elim (Option-cases (atoi t)) [
    | inl e ↦ rw e tt
    | inr (pos n, e) ↦ rw e (
        if-cases
          (λ (r : Try Value).
            Yields
              (λ (v : Value).
                IsSafe L d v × (next (numeral (format_int (pos n))) s ≡ value_tokens v s))
              r)
          (leb n max_integer) (λ k. ((h, pos n, refl, ground arith), refl)) (λ k. tt))
    | inr (negsuc n, e) ↦ rw e (
        if-cases
          (λ (r : Try Value).
            Yields
              (λ (v : Value).
                IsSafe L d v × (next (numeral (format_int (negsuc n))) s ≡ value_tokens v s))
              r)
          (ltb n max_integer) (λ k. ((h, negsuc n, refl, ground arith), refl)) (λ k. tt))
  ]

  close_items-Yields :
      (s : Tokens) → Yields (AreRead s) (close_items s >>= λ (t : Tokens). ok (nil, t))
  unfolding close_items items_tokens respell
  close_items-Yields ended = tt
  close_items-Yields (broken more) = tt
  close_items-Yields (next close_array s) = (tt, refl)
  close_items-Yields (next t s) = tt

  close_fields-Yields :
      (seen : List Text) (s : Tokens)
      → Yields (HasRead seen s) (close_fields s >>= λ (t : Tokens). ok (end, t))
  unfolding close_fields fields_tokens respell
  close_fields-Yields seen ended = tt
  close_fields-Yields seen (broken more) = tt
  close_fields-Yields seen (next close_object s) = (tt, tt, refl)
  close_fields-Yields seen (next t s) = tt

module _ (L : Packages) where
  open L use {nfc, nfd, is_mark}

  check_runs_sound :
      (run : ℕ) (s : Text)
      → check_runs L run s ≡ true
      → run ≤ 30
      → (run + leading_marks L s ≤ 30) × HasShortRuns L s
  unfolding check_runs
  check_runs_sound run [] h k = (omega arith, tt)
  check_runs_sound run (c ∷ s) h k = elim (Bool-cases (is_mark c)) [
    | inl m ↦
        let (short, all_short) = check_runs_sound (suc run) s (ground arith) (ground arith) in
        rw m (omega arith, (omega arith, all_short))
    | inr m ↦
        let (short, all_short) = check_runs_sound 0 s (ground arith) (omega arith) in
        rw m (omega arith, (omega arith, all_short))
  ]

  check_string-Yields : (s : Text) → Yields (λ u. HasShortRuns L (nfd s)) (check_string L s)
  unfolding check_string
  check_string-Yields s = elim (Bool-cases (check_runs L 0 (nfd s))) [
    | inl e ↦ rw e ((check_runs_sound 0 (nfd s) e (omega arith)).1)
    | inr e ↦ rw e tt
  ]

  abbrev IsKey : List Text → Tokens → Text × Tokens → Type 0
  IsKey seen s p =
      HasShortRuns L (nfd p.0) × (contains seen (nfc p.0) ≡ false) × (s ≡ next (text p.0) p.1)

  read_key-Yields : (seen : List Text) (s : Tokens) → Yields (IsKey seen s) (read_key L seen s)
  unfolding read_key
  read_key-Yields seen ended = tt
  read_key-Yields seen (broken more) = tt
  read_key-Yields seen (next (text k) s) =
      >>=-Yields _ (IsKey seen (next (text k) s)) (check_string L k) _ (check_string-Yields k)
        (λ u short. elim (Bool-cases (contains seen (nfc k))) [
          | inl e ↦ rw e tt
          | inr e ↦ rw e (short, e, refl)
        ])
  read_key-Yields seen (next t s) = tt

  read_token-Yields :
      (fields : Tokens → Try (Fields × Tokens)) (items : Tokens → Try (Items × Tokens)) (d : ℕ)
      (s : Tokens)
      → d ≤ max_depth
      → ((t : Tokens) → Yields (HasRead L (suc d) [] t) (fields t))
      → ((t : Tokens) → Yields (AreRead L (suc d) t) (items t))
      → Yields (IsRead L d s) (read_token L fields items s)
  unfolding read_token respell value_tokens
  read_token-Yields fields items d ended l g h = tt
  read_token-Yields fields items d (broken more) l g h = tt
  read_token-Yields fields items d (next open_object s) l g h =
      >>=-Yields (HasRead L (suc d) [] s) (IsRead L d (next open_object s)) (fields s) _ (g s)
        (λ p k. ((l, k.0), ap (next open_object) k.2))
  read_token-Yields fields items d (next open_array s) l g h =
      >>=-Yields (AreRead L (suc d) s) (IsRead L d (next open_array s)) (items s) _ (h s)
        (λ p k. ((l, k.0), ap (next open_array) k.1))
  read_token-Yields fields items d (next close_object s) l g h = tt
  read_token-Yields fields items d (next close_array s) l g h = tt
  read_token-Yields fields items d (next (numeral n) s) l g h =
      >>=-Yields _ (IsRead L d (next (numeral n) s)) (integer (atoi n)) _
        (integer-Yields L d n (respell s) l) (λ v k. k)
  read_token-Yields fields items d (next (text t) s) l g h =
      >>=-Yields _ (IsRead L d (next (text t) s)) (check_string L t) _ (check_string-Yields t)
        (λ u k. ((l, k), refl))
  read_token-Yields fields items d (next (literal b) s) l g h = (l, refl)
  read_token-Yields fields items d (next nothing s) l g h = (l, refl)

  AreNew-cons :
      (d : ℕ) (n : Text) (seen : List Text) (fs : Fields)
      → AreNew L d (n ∷ seen) fs
      → IsNewKey L n fs × AreNew L d seen fs
  unfolding contains
  AreNew-cons d n seen end h = (tt, tt)
  AreNew-cons d n seen (field k v fs) (h, i) =
      let (other, old) = AreNew-cons d n seen fs i in
      (((λ e. ground (arith, text_eq_iff (nfc k) n)), other), (ground arith, old))

  mutual
    unfolding read_value read_fields read_items respell items_tokens fields_tokens

    value-Yields : (f d : ℕ) (s : Tokens) → Yields (IsRead L d s) (read_value L f d s)
    value-Yields zero d s = tt
    value-Yields (suc f) d s =
        if-cases (λ (r : Try (Value × Tokens)). Yields (IsRead L d s) r) (ltb max_depth d) (λ e. tt)
          (λ e.
            read_token-Yields (read_fields L f (suc d) []) (read_items L f (suc d)) d s
              (ground arith) (λ t. fields-Yields f (suc d) [] t) (λ t. items-Yields f (suc d) t))

    fields-Yields :
        (f d : ℕ) (seen : List Text) (s : Tokens)
        → Yields (HasRead L d seen s) (read_fields L f d seen s)
    fields-Yields zero d seen s = tt
    fields-Yields (suc f) d seen s =
        if-cases (λ (r : Try (Fields × Tokens)). Yields (HasRead L d seen s) r) (has_more s)
          (λ m.
            >>=-Yields (IsKey seen s) (HasRead L d seen s) (read_key L seen s) _
              (read_key-Yields seen s)
              (λ (k : Text × Tokens) key.
                >>=-Yields (IsRead L d k.1) (HasRead L d seen s) (read_value L f d k.1) _
                  (value-Yields f d k.1)
                  (λ (v : Value × Tokens) read.
                    >>=-Yields (HasRead L d (nfc k.0 ∷ seen) v.1) (HasRead L d seen s)
                      (read_fields L f d (nfc k.0 ∷ seen) v.1)
                      (λ (r : Fields × Tokens). ok (field k.0 v.0 r.0, r.1))
                      (fields-Yields f d (nfc k.0 ∷ seen) v.1)
                      (λ r rest.
                        let (other, old) = AreNew-cons d (nfc k.0) seen r.0 rest.1 in
                        (
                          (key.0, other, read.0, rest.0),
                          (key.1, old),
                          ap respell key.2
                              ∙ ap (next (text k.0)) (read.1 ∙ ap (value_tokens v.0) rest.2),
                        )))))
          (λ m. close_fields-Yields L d seen s)

    items-Yields : (f d : ℕ) (s : Tokens) → Yields (AreRead L d s) (read_items L f d s)
    items-Yields zero d s = tt
    items-Yields (suc f) d s =
        if-cases (λ (r : Try (Items × Tokens)). Yields (AreRead L d s) r) (has_more s)
          (λ m.
            >>=-Yields (IsRead L d s) (AreRead L d s) (read_value L f d s) _ (value-Yields f d s)
              (λ (v : Value × Tokens) read.
                >>=-Yields (AreRead L d v.1) (AreRead L d s) (read_items L f d v.1)
                  (λ (r : Items × Tokens). ok (cons v.0 r.0, r.1)) (items-Yields f d v.1)
                  (λ r rest. ((read.0, rest.0), read.1 ∙ ap (value_tokens v.0) rest.1))))
          (λ m. close_items-Yields L d s)

  whole-IsRead :
      (s : Tokens) (p : Value × Tokens) (v : Value)
      → IsRead L 0 s p
      → whole p ≡ ok v
      → IsSafe L 0 v × (respell s ≡ value_tokens v ended)
  unfolding respell
  whole-IsRead s (w, ended) v h e =
      subst (λ x. IsSafe L 0 x × (respell s ≡ value_tokens x ended)) (ok-injective w v e) h
  whole-IsRead s (w, broken more) v h e = absurd (ground arith)
  whole-IsRead s (w, next t r) v h e = absurd (ground arith)

  -- A value that Decode returns is safe, and the tokens that were read are those of the value, but for
  -- the spelling of numbers.
  pub decode_tokens-IsSafe :
      (s : Tokens) (v : Value)
      → decode_tokens L s ≡ ok v
      → IsSafe L 0 v × (respell s ≡ value_tokens v ended)
  unfolding decode_tokens
  decode_tokens-IsSafe s v h =
      let f = suc (2 * token_count s) in
      elim (Try-cases (read_value L f 0 s)) [
        | inr e ↦ absurd (ground arith)
        | inl (p, e) ↦
            whole-IsRead s p v (subst (Yields (IsRead L 0 s)) e (value-Yields f 0 s)) (rw e at h)
      ]
