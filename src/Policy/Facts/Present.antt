-- ===== src/Policy/Facts/Present.antt =====
-- Proofs on FactsPresent.
use normgate.Prelude.{
  ℕ, ◌≡◌, ◌≢◌, ◌↔◌, refl, sym, ap, ◌∙◌, subst, Bool, true, false, Option, some, List, [], ◌∷◌,
  arith, All, All-Elem, All-of_Elem, All-imp, Elem, Bool-cases, Option-cases, inl, inr, ◌⊎◌,
  if◌then◌else◌, all,
}
use normgate.Text.{Text, text_eq, text_eq→eq, text_eq_refl, contains}
use normgate.Contracts.{ExternalFact}
use normgate.Policy.Composition.Conflicts.{Pairs}
use normgate.Policy.Facts.{is_current, valid_sources, covers, present_at, facts_present}

pub contains-cons :
    (x : Text) (xs : List Text) (s : Text)
    → contains (x ∷ xs) s ≡ true
    → (s ≡ x) ⊎ (contains xs s ≡ true)
unfolding contains
contains-cons x xs s h = elim (Bool-cases (text_eq s x)) [
  | inl e ↦ inl (text_eq→eq s x e)
  | inr e ↦ inr (ground (arith, e, h))
]

contains_later :
    (x : Text) (xs : List Text) (s : Text) → contains xs s ≡ true → contains (x ∷ xs) s ≡ true
unfolding contains
contains_later x xs s h = ground (arith, h)

contains_first : (x : Text) (xs : List Text) → contains (x ∷ xs) x ≡ true
unfolding contains
contains_first x xs = ground (arith, text_eq_refl x)

contains_not :
    (x : Text) (xs : List Text) (s : Text)
    → contains (x ∷ xs) s ≡ false
    → (x ≢ s) × (contains xs s ≡ false)
unfolding contains
contains_not x xs s h =
    (λ e. ground (arith, h, ap (text_eq s) e, text_eq_refl s), ground (arith, h))

all-All : (p : Text → Bool) (xs : List Text) → all p xs ≡ true → All (λ x. p x ≡ true) xs
all-All p [] h = tt
all-All p (x ∷ xs) h = (ground (arith, h), all-All p xs (ground (arith, h)))

contains_neither :
    (x : Text) (xs : List Text) (s : Text)
    → x ≢ s
    → contains xs s ≡ false
    → contains (x ∷ xs) s ≡ false
unfolding contains
contains_neither x xs s n h = elim (Bool-cases (text_eq s x)) [
  | inl e ↦ absurd (n (sym (text_eq→eq s x e)))
  | inr e ↦ ground (arith, e, h)
]

All-all : (p : Text → Bool) (xs : List Text) → All (λ x. p x ≡ true) xs → all p xs ≡ true
All-all p [] h = refl
All-all p (x ∷ xs) (h, k) = ground (arith, h, All-all p xs k)

-- No two facts have the same id.
abbrev pub Distinct : List ExternalFact → Type 0
Distinct = Pairs (λ f g. f.id ≢ g.id)

module _ (parse_time : Text → Option ℕ) (at : ℕ) where
  -- The source has a fact that holds at the instant.
  pub record IsBacked (facts : List ExternalFact) (source : Text) : Type 0 where
    pub fact : ExternalFact
    pub given : Elem fact facts
    pub from : fact.source ≡ source
    pub current : is_current parse_time at fact ≡ true

  valid_sources-IsBacked :
      (fs : List ExternalFact) (seen valid v : List Text)
      → valid_sources parse_time at fs seen valid ≡ some v
      → Distinct fs
        × All (λ f. contains seen f.id ≡ false) fs
        × ((s : Text) → contains v s ≡ true → (contains valid s ≡ true) ⊎ IsBacked fs s)
  unfolding valid_sources
  valid_sources-IsBacked [] seen valid v h =
      let same : valid ≡ v = ground arith in
      (tt, tt, λ s e. inl (subst (λ z. contains z s ≡ true) (sym same) e))
  valid_sources-IsBacked (f ∷ fs) seen valid v h = elim (Bool-cases (contains seen f.id)) [
    | inl e ↦ absurd (ground arith)
    | inr e ↦
        let next = if is_current parse_time at f then f.source ∷ valid else valid in
        let (d, a, b) = valid_sources-IsBacked fs (f.id ∷ seen) next v (ground arith) in
        let apart = All-imp _ _ (λ g k. contains_not f.id seen g.id k) fs a in
        (
          (All-imp _ _ (λ g k. k.0) fs apart, d),
          (e, All-imp _ _ (λ g k. k.1) fs apart),
          λ s k. elim (b s k) [
            | inr i ↦
                inr (record {
                  fact = i.fact;
                  given = inr i.given;
                  from = i.from;
                  current = i.current;
                })
            | inl i ↦ elim (Bool-cases (is_current parse_time at f)) [
              | inr c ↦ inl (ground (arith, c, i))
              | inl c ↦ elim (contains-cons f.source valid s (ground (arith, c, i))) [
                | inl q ↦ inr (record { fact = f; given = inl refl; from = sym q; current = c })
                | inr j ↦ inl j
              ]
            ]
          ],
        )
  ]

  kept :
      (f : ExternalFact) (valid : List Text) (s : Text)
      → contains valid s ≡ true
      → contains (if is_current parse_time at f then f.source ∷ valid else valid) s ≡ true
  kept f valid s h = elim (Bool-cases (is_current parse_time at f)) [
    | inl c ↦ rw c (contains_later f.source valid s h)
    | inr c ↦ rw c h
  ]

  IsBacked-valid_sources :
      (fs : List ExternalFact) (seen valid : List Text)
      → Distinct fs
      → All (λ f. contains seen f.id ≡ false) fs
      → (v : List Text) × (valid_sources parse_time at fs seen valid ≡ some v)
        × ((s : Text) → (contains valid s ≡ true) ⊎ IsBacked fs s → contains v s ≡ true)
  unfolding valid_sources
  IsBacked-valid_sources [] seen valid d a =
      (valid, refl, λ s o. elim o [ inl e ↦ e | inr i ↦ absurd i.given ])
  IsBacked-valid_sources (f ∷ fs) seen valid (n, d) (e, a) =
      let next = if is_current parse_time at f then f.source ∷ valid else valid in
      let fresh =
        All-of_Elem _ fs
          (λ g i. contains_neither f.id seen g.id (All-Elem _ fs n g i) (All-Elem _ fs a g i)) in
      let (v, h, k) = IsBacked-valid_sources fs (f.id ∷ seen) next d fresh in
      (
        v,
        ground (arith, e, h),
        λ s o. elim o [
          | inl c ↦ k s (inl (kept f valid s c))
          | inr i ↦ elim i.given [
            | inr j ↦
                k s (inr (record { fact = i.fact; given = j; from = i.from; current = i.current }))
            | inl q ↦
                let c : is_current parse_time at f ≡ true =
                  sym (ap (is_current parse_time at) q) ∙ i.current in
                let from : f.source ≡ s = sym (ap (λ (x : ExternalFact). x.source) q) ∙ i.from in
                k s (
                  inl (
                    subst (λ z. contains next z ≡ true) from
                      (rw c (contains_first f.source valid))))
          ]
        ],
      )

  backed-covers :
      (facts : List ExternalFact) (sources : List Text)
      → Distinct facts
      → All (IsBacked facts) sources
      → covers parse_time sources (valid_sources parse_time at facts [] []) ≡ true
  backed-covers facts sources d b =
      let (v, h, k) =
        IsBacked-valid_sources facts [] [] d
          (All-of_Elem _ facts (λ f i. unfold contains in refl)) in
      ap (covers parse_time sources) h
      ∙ All-all (contains v) sources (All-imp _ _ (λ s i. k s (inr i)) sources b)

module _ (parse_time : Text → Option ℕ) where
  -- The time of the event is readable, no two facts have the same id, and every source asked for has
  -- a fact that holds at that time.
  abbrev pub ArePresent : Text → List ExternalFact → List Text → Type 0
  ArePresent occurred_at facts sources =
      (at : ℕ) × (parse_time occurred_at ≡ some at)
      × Distinct facts
      × All (IsBacked parse_time at facts) sources

  facts_present-ArePresent :
      (occurred_at : Text) (facts : List ExternalFact) (sources : List Text)
      → facts_present parse_time occurred_at facts sources ≡ true
      → ArePresent occurred_at facts sources
  unfolding facts_present
  facts_present-ArePresent occurred_at facts sources h =
      elim (Option-cases (parse_time occurred_at)) [
        | inl e ↦ absurd (ground arith)
        | inr (at, e) ↦ elim (Option-cases (valid_sources parse_time at facts [] [])) [
          | inl f ↦ absurd (ground arith)
          | inr (v, f) ↦
              let (d, a, b) = valid_sources-IsBacked parse_time at facts [] [] v f in
              let met = all-All (contains v) sources (ground arith) in
              (
                at,
                e,
                d,
                All-imp _ _
                    (λ s k. elim (b s k) [ inl i ↦ absurd (unfold contains in cc i) | inr i ↦ i ])
                    sources met,
              )
        ]
      ]

  ArePresent-facts_present :
      (occurred_at : Text) (facts : List ExternalFact) (sources : List Text)
      → ArePresent occurred_at facts sources
      → facts_present parse_time occurred_at facts sources ≡ true
  unfolding facts_present
  ArePresent-facts_present occurred_at facts sources (at, e, d, b) =
      ap (present_at parse_time facts sources) e ∙ backed-covers parse_time at facts sources d b

  -- Facts are reported present exactly where the time of the event is readable, no two facts have
  -- the same id, and every source asked for has a fact that holds at that time.
  pub facts_present_iff :
      (occurred_at : Text) (facts : List ExternalFact) (sources : List Text)
      → (facts_present parse_time occurred_at facts sources ≡ true)
        ↔ ArePresent occurred_at facts sources
  facts_present_iff occurred_at facts sources = (
    facts_present-ArePresent occurred_at facts sources,
    ArePresent-facts_present occurred_at facts sources,
  )
