-- ===== src/Policy/Opa/Revisions/Steps.antt =====
-- Proofs on the engine: the states that its calls lead to, whatever their order.
use normgate.Prelude.{
  ◌≡◌, refl, sym, ap, ◌∙◌, ◌≤◌, ◌⊎◌, inl, inr, suc, true, false, none, some, List, [], ◌∷◌, arith,
  Bool-cases, length, leb, All, if-cases, subst,
}
use normgate.Text.{Text, text_eq, text_eq→eq, text_eq_refl, text_eq_swap}
use normgate.Policy.{Try}
use normgate.Policy.Opa.{max_revisions}
use normgate.Policy.Opa.Compile.{Rego}
use normgate.Policy.Opa.Revisions.{Prepared, State, find_revision, put_revision, publish, close}

module _ {R : Rego} where
  -- What a call does to the state while it holds the lock.
  pub data Transition : State R → State R → Type 0 where
    publishing : (p : Prepared R) (s : State R) → Transition s (publish p s).1
    closing : (s : State R) → Transition s (close s)

  pub data Transitions : State R → State R → Type 0 where
    stay : (s : State R) → Transitions s s
    then_step : (s t u : State R) → Transitions s t → Transition t u → Transitions s u

  -- Every revision names a bundle with that revision.
  abbrev pub IsKeyed : Text × Prepared R → Type 0
  IsKeyed (r, p) = p.report.revision ≡ r

  abbrev pub AreDistinct : List (Text × Prepared R) → Type 0
  AreDistinct [] = Unit
  AreDistinct ((r, p) ∷ ps) = (find_revision r ps ≡ none) × AreDistinct ps

  pub record IsWellFormed (s : State R) : Type 0 where
    pub bounded : length s.revisions ≤ max_revisions
    pub keyed : All IsKeyed s.revisions
    pub distinct : AreDistinct s.revisions
    pub emptied : s.closed ≡ true → s.revisions ≡ []

  length-put_revision :
      (r : Text) (p : Prepared R) (ps : List (Text × Prepared R))
      → length (put_revision r p ps) ≤ suc (length ps)
  unfolding put_revision
  length-put_revision r p [] = omega arith
  length-put_revision r p ((x, q) ∷ ps) = ground (arith, length-put_revision r p ps)

  put_revision-IsKeyed :
      (p : Prepared R) (ps : List (Text × Prepared R))
      → All IsKeyed ps
      → All IsKeyed (put_revision p.report.revision p ps)
  unfolding put_revision
  put_revision-IsKeyed p [] k = (refl, tt)
  put_revision-IsKeyed p ((x, q) ∷ ps) (e, k) = elim (Bool-cases (text_eq x p.report.revision)) [
    | inl h ↦ rw h (sym (text_eq→eq x p.report.revision h), k)
    | inr h ↦ rw h (e, put_revision-IsKeyed p ps k)
  ]

  -- Looking up a revision that was written.
  pub find_revision-put_revision :
      (r : Text) (p : Prepared R) (ps : List (Text × Prepared R))
      → find_revision r (put_revision r p ps) ≡ some p
  unfolding find_revision put_revision
  find_revision-put_revision r p [] = ground (arith, text_eq_refl r)
  find_revision-put_revision r p ((x, q) ∷ ps) = ground (arith, find_revision-put_revision r p ps)

  find_other :
      (x r : Text) (p : Prepared R) (ps : List (Text × Prepared R))
      → text_eq r x ≡ false
      → find_revision x (put_revision r p ps) ≡ find_revision x ps
  unfolding find_revision put_revision
  find_other x r p [] h = ground (arith, h)
  find_other x r p ((y, q) ∷ ps) h = elim (Bool-cases (text_eq y r)) [
    | inl e ↦
        let other : text_eq y x ≡ false = ap (λ z. text_eq z x) (text_eq→eq y r e) ∙ h in
        ground (arith, e, other)
    | inr e ↦ ground (arith, e, find_other x r p ps h)
  ]

  put_revision-AreDistinct :
      (r : Text) (p : Prepared R) (ps : List (Text × Prepared R))
      → AreDistinct ps
      → AreDistinct (put_revision r p ps)
  unfolding put_revision find_revision
  put_revision-AreDistinct r p [] d = (refl, tt)
  put_revision-AreDistinct r p ((x, q) ∷ ps) (e, d) = elim (Bool-cases (text_eq x r)) [
    | inl h ↦ rw h (e, d)
    | inr h ↦ rw h (find_other x r p ps (text_eq_swap x r h) ∙ e, put_revision-AreDistinct r p ps d)
  ]

  publish-IsWellFormed :
      (p : Prepared R) (s : State R) → IsWellFormed s → IsWellFormed (publish p s).1
  unfolding publish
  publish-IsWellFormed p s w =
      if-cases (λ (x : Try Text × State R). IsWellFormed x.1) s.closed (λ c. w)
        (λ c.
          if-cases (λ (x : Try Text × State R). IsWellFormed x.1)
            (leb max_revisions (length s.revisions)) (λ f. w)
            (λ f. record {
              bounded = ground (arith, f, length-put_revision p.report.revision p s.revisions);
              keyed = put_revision-IsKeyed p s.revisions w.keyed;
              distinct = put_revision-AreDistinct p.report.revision p s.revisions w.distinct;
              emptied = λ e. absurd (ground (arith, e, c));
            }))

  -- Where an engine has at most 128 revisions, each with the bundle that has it, none twice, and none
  -- if it is closed, it stays so, whatever calls of Compile and Close follow and however they
  -- interleave.
  pub steps-IsWellFormed : (s t : State R) → Transitions s t → IsWellFormed s → IsWellFormed t
  unfolding close
  steps-IsWellFormed s t (stay _) w = w
  steps-IsWellFormed s u (then_step _ t _ h (publishing p _)) w =
      publish-IsWellFormed p t (steps-IsWellFormed s t h w)
  steps-IsWellFormed s u (then_step _ t _ h (closing _)) w = record {
    bounded = omega arith;
    keyed = tt;
    distinct = tt;
    emptied = λ e. refl;
  }

  publish-find_revision :
      (r : Text) (p q : Prepared R) (s : State R)
      → find_revision r s.revisions ≡ some q
      → (q' : Prepared R) × (find_revision r (publish p s).1.revisions ≡ some q')
  unfolding publish
  publish-find_revision r p q s h =
      if-cases
        (λ (x : Try Text × State R). (q' : Prepared R) × (find_revision r x.1.revisions ≡ some q'))
        s.closed (λ c. (q, h))
        (λ c.
          if-cases
            (λ (x : Try Text × State R).
              (q' : Prepared R) × (find_revision r x.1.revisions ≡ some q'))
            (leb max_revisions (length s.revisions)) (λ f. (q, h))
            (λ f. elim (Bool-cases (text_eq p.report.revision r)) [
              | inl e ↦ (
                p,
                subst (λ x. find_revision x (put_revision p.report.revision p s.revisions) ≡ some p)
                    (text_eq→eq p.report.revision r e)
                    (find_revision-put_revision p.report.revision p s.revisions),
              )
              | inr e ↦ (q, find_other r p.report.revision p s.revisions e ∙ h)
            ]))

  publish-closed : (p : Prepared R) (s : State R) → s.closed ≡ true → (publish p s).1.closed ≡ true
  unfolding publish
  publish-closed p s c =
      if-cases (λ (x : Try Text × State R). x.1.closed ≡ true) s.closed (λ e. c)
        (λ e.
          if-cases (λ (x : Try Text × State R). x.1.closed ≡ true)
            (leb max_revisions (length s.revisions)) (λ f. c) (λ f. c))

  -- A revision stays in the engine until it is closed: no call takes it out.
  pub steps-find_revision :
      (r : Text) (s t : State R) (p : Prepared R)
      → Transitions s t
      → find_revision r s.revisions ≡ some p
      → (t.closed ≡ true) ⊎ ((q : Prepared R) × (find_revision r t.revisions ≡ some q))
  unfolding close
  steps-find_revision r s t p (stay _) f = inr (p, f)
  steps-find_revision r s u p (then_step _ t _ h (closing _)) f = inl refl
  steps-find_revision r s u p (then_step _ t _ h (publishing q _)) f =
      elim (steps-find_revision r s t p h f) [
        | inl c ↦ inl (publish-closed q t c)
        | inr (q', g) ↦ inr (publish-find_revision r q q' t g)
      ]
