-- ===== src/Policy/Composition/Outcomes.antt =====
-- Proofs on internal/policy/composition.go: the outcome of `Compose`.
use normgate.Prelude.{
  ◌≡◌, ◌≢◌, refl, sym, ap, ◌⊎◌, inl, inr, ◌∙◌, true, false, some, List, [], ◌∷◌, String, arith, All,
  All-Elem, All-of_Elem, Elem, any, any_of_Elem, subst, if◌then◌else◌,
}
use normgate.Text.{Text, codes, text_eq, text_eq_refl}
use normgate.Sort.{sort, any-sort, Elem-sort_of}
use normgate.Contracts.{Obligation, Schemas}
use normgate.Policy.{Contribution, Result, ok}
use normgate.Policy.Composition.{
  Tally, empty_tally, next, stop, Flow-cases, deny, add_part, add_parts, finish, decide,
  any_conflict, compose, compose_sorted, id_leb, contribution_leb, validation,
}
use normgate.Policy.Composition.Tallies.{Accepts, has_outcome, add_parts-Accepts, add_parts_flags}

-- One of the results of `Deny`.
abbrev pub IsDenial : Result → Type 0
IsDenial r = (r.outcome ≡ codes "deny") × (r.obligations ≡ [])

deny-IsDenial : (code : String) → IsDenial (deny code)
unfolding deny
deny-IsDenial code = (refl, refl)

-- A loop that stops returns a denial.
add_part-IsDenial :
    (schemas : Schemas) (p : Contribution) (t : Tally) (r : Result)
    → add_part schemas p t ≡ stop r
    → IsDenial r
unfolding add_part deny
add_part-IsDenial schemas p t r e = ground arith

add_parts-IsDenial :
    (schemas : Schemas) (ps : List Contribution) (t : Tally) (r : Result)
    → add_parts schemas ps t ≡ stop r
    → IsDenial r
unfolding add_parts
add_parts-IsDenial schemas [] t r e = cc
add_parts-IsDenial schemas (p ∷ ps) t r e = elim (Flow-cases (add_part schemas p t)) [
  | inl (m, q) ↦ ground (arith, add_parts-IsDenial schemas ps m r)
  | inr (x, q) ↦ add_part-IsDenial schemas p t r (ground arith)
]

-- The result is a denial, or that of a loop that ran to its end and found no conflict.
pub record Decides (schemas : Schemas) (ps : List Contribution) (r : Result) : Type 0 where
  pub tally : Tally
  pub runs : add_parts schemas ps empty_tally ≡ next tally
  pub clear : any_conflict (sort id_leb tally.by_id) ≡ some false
  pub decided : r ≡ decide tally (sort id_leb tally.by_id)
  pub some_part : ps ≢ []

finish-ok :
    (t : Tally) (r : Result)
    → finish t ≡ ok r
    → IsDenial r
      ⊎ ((any_conflict (sort id_leb t.by_id) ≡ some false) × (r ≡ decide t (sort id_leb t.by_id)))
unfolding finish deny
finish-ok t r e = ground arith

compose_sorted-Decides :
    (schemas : Schemas) (ps : List Contribution) (r : Result)
    → compose_sorted schemas ps ≡ ok r
    → IsDenial r ⊎ Decides schemas ps r
unfolding compose_sorted deny
compose_sorted-Decides schemas [] r e = inl (ground arith)
compose_sorted-Decides schemas (p ∷ ps) r e =
    elim (Flow-cases (add_parts schemas (p ∷ ps) empty_tally)) [
      | inr (x, q) ↦ inl (add_parts-IsDenial schemas (p ∷ ps) empty_tally r (ground arith))
      | inl (u, q) ↦ elim (finish-ok u r (ground arith)) [
        | inl d ↦ inl d
        | inr (c, d) ↦
            inr (record { tally = u; runs = q; clear = c; decided = d; some_part = λ e. cc })
      ]
    ]

-- The strictest outcome of some contributions.
unfoldable pub strictest : List Contribution → Text
strictest ps =
    if any (has_outcome (codes "deny")) ps
    then codes "deny"
    else if any (has_outcome (codes "require_approval")) ps
    then codes "require_approval"
    else if any (has_outcome (codes "transform")) ps
    then codes "transform"
    else codes "allow"

outcome-decide :
    (schemas : Schemas) (ps : List Contribution) (u : Tally) (os : List Obligation)
    → add_parts schemas ps empty_tally ≡ next u
    → (decide u os).outcome ≡ strictest ps
unfolding decide strictest
outcome-decide schemas ps u os e = ground (arith, add_parts_flags schemas ps empty_tally u e)

strictest-sort : (ps : List Contribution) → strictest (sort contribution_leb ps) ≡ strictest ps
unfolding strictest
strictest-sort ps = simp any-sort

pub decide-IsDenial : (u : Tally) (os : List Obligation) → u.deny ≡ true → IsDenial (decide u os)
unfolding decide
decide-IsDenial u os h = ground arith

sort-eq_nil : (ps : List Contribution) → sort contribution_leb ps ≢ [] → ps ≢ []
unfolding sort
sort-eq_nil ps h e = h (ap (sort contribution_leb) e)

-- The only outcome of a valid contribution that sets no flag.
allows :
    (schemas : Schemas) (ps : List Contribution)
    → strictest ps ≡ codes "allow"
    → (p : Contribution) → Elem p ps
    → Accepts schemas p
    → p.outcome ≡ codes "allow"
unfolding strictest validation
allows schemas ps e p m a =
    let set = λ (o : Text) (q : p.outcome ≡ o).
      any_of_Elem (has_outcome o) ps p m
        (subst (λ x. text_eq x o ≡ true) (sym q) (text_eq_refl o)) in
    elim (schemas.known_outcome (validation p) a.valid) [
      | inl q ↦ q
      | inr (inl q) ↦ absurd (ground (arith, set (codes "deny") q))
      | inr (inr (inl q)) ↦ absurd (ground (arith, set (codes "transform") q))
      | inr (inr (inr (inl q))) ↦ absurd (ground (arith, set (codes "require_approval") q))
      | inr (inr (inr (inr q))) ↦ absurd q
    ]

module _ (schemas : Schemas) (parts : List Contribution) (r : Result)
    (returns : compose schemas parts ≡ ok r) where
  pub composed : IsDenial r ⊎ Decides schemas (sort contribution_leb parts) r
  unfolding compose
  composed = compose_sorted-Decides schemas (sort contribution_leb parts) r returns

  -- The result denies, or has the strictest outcome among the contributions.
  pub compose_strictest : (r.outcome ≡ codes "deny") ⊎ (r.outcome ≡ strictest parts)
  compose_strictest = elim composed [
    | inl d ↦ inl d.0
    | inr d ↦ inr (
        ap (λ (x : Result). x.outcome) d.decided
        ∙ outcome-decide schemas (sort contribution_leb parts) d.tally _ d.runs
        ∙ strictest-sort parts)
  ]

  -- A single contribution that denies makes the result a denial with no obligation.
  pub compose_deny :
      (p : Contribution)
      → Elem p parts
      → p.outcome ≡ codes "deny"
      → (r.outcome ≡ codes "deny") × (r.obligations ≡ [])
  compose_deny p m e = elim composed [
    | inl d ↦ d
    | inr d ↦
        let set =
          any_of_Elem (has_outcome (codes "deny")) (sort contribution_leb parts) p
            (Elem-sort_of contribution_leb p parts m)
            (subst (λ x. text_eq x (codes "deny") ≡ true) (sym e) (text_eq_refl (codes "deny"))) in
        subst IsDenial (sym d.decided) (
          decide-IsDenial d.tally _
            (ground (arith, set, add_parts_flags schemas _ empty_tally d.tally d.runs)))
  ]

  -- An operation is allowed only if there is a contribution, and each passed the checks and allows it.
  pub compose_allow :
      r.outcome ≡ codes "allow"
      → (parts ≢ []) × All (λ p. Accepts schemas p × (p.outcome ≡ codes "allow")) parts
  compose_allow e = elim composed [
    | inl d ↦ cc (d.0, e)
    | inr d ↦
        let allowed : strictest parts ≡ codes "allow" =
          sym (
            ap (λ (x : Result). x.outcome) d.decided
            ∙ outcome-decide schemas (sort contribution_leb parts) d.tally _ d.runs
            ∙ strictest-sort parts)
          ∙ e in
        let accepted = add_parts-Accepts schemas _ empty_tally d.tally d.runs in
        (
          sort-eq_nil parts d.some_part,
          All-of_Elem _ parts λ p m.
              let a =
                All-Elem (Accepts schemas) (sort contribution_leb parts) accepted p
                  (Elem-sort_of contribution_leb p parts m) in
              (a, allows schemas parts allowed p m a),
        )
  ]
