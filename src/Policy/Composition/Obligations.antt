-- ===== src/Policy/Composition/Obligations.antt =====
-- Proofs on internal/policy/composition.go: the obligations that `Compose` publishes.
use normgate.Prelude.{
  ◌≡◌, ◌≢◌, refl, sym, ap, inl, inr, ◌∙◌, Bool, true, false, Option, none, some, List, [], ◌∷◌,
  arith, All, All-Elem, All-of_Elem, Elem, elements, Bool-cases, subst,
}
use normgate.Text.{codes}
use normgate.Sort.{sort, Elem-sort, Elem-sort_of}
use normgate.Contracts.{Obligation, Schemas, names_destination}
use normgate.Policy.{Contribution, Result, ok}
use normgate.Policy.Composition.{
  Tally, empty_tally, next, Flow-cases, add_parts, finish, decide, deny, any_conflict, compose,
  compose_sorted, id_leb, contribution_leb, sort_paths, validation,
}
use normgate.Policy.Composition.Conflicts.{Pairs, Agree, any_conflict-Pairs, any_conflict-ne-none}
use normgate.Policy.Composition.Order.{ContributionIsEncodable}
use normgate.Policy.Composition.Tallies.{Accepts, add_parts-Accepts}
use normgate.Policy.Composition.Kept.{add_parts-Gathers}
use normgate.Policy.Composition.Outcomes.{composed, decide-IsDenial}

names_destination-sort_paths :
    (o : Obligation) → names_destination (sort_paths o) ≡ names_destination o
unfolding names_destination sort_paths
names_destination-sort_paths o = refl

sorted-All :
    (ps : List Contribution)
    → All ContributionIsEncodable ps
    → All ContributionIsEncodable (sort contribution_leb ps)
sorted-All ps k = All-of_Elem _ _ λ a m. All-Elem _ ps k a (Elem-sort contribution_leb a ps m)

obligations-decide :
    (u : Tally) (os : List Obligation) → u.deny ≡ false → (decide u os).obligations ≡ os
unfolding decide
obligations-decide u os h = ground arith

module _ (schemas : Schemas) where
  -- Every obligation in the map names its destination where its kind needs one.
  gathered_names_destination :
      (ps : List Contribution) (u : Tally)
      → All ContributionIsEncodable ps
      → add_parts schemas ps empty_tally ≡ next u
      → (x : Obligation) → Elem x u.by_id
      → names_destination x ≡ true
  unfolding validation
  gathered_names_destination ps u h e x m =
      elim ((add_parts-Gathers schemas ps empty_tally u h tt e).origin x m) [
        | inl i ↦ absurd i
        | inr (p, o, i, j, r) ↦
            let a =
              All-Elem (Accepts schemas) ps (add_parts-Accepts schemas ps empty_tally u e) p i in
            ap names_destination r
            ∙ names_destination-sort_paths o
            ∙ schemas.known_destination (validation p) a.valid o j
      ]

  finish-ne-panic :
      (u : Tally) → any_conflict (sort id_leb u.by_id) ≢ none → (r : Result) × (finish u ≡ ok r)
  unfolding finish
  finish-ne-panic u h = go (any_conflict (sort id_leb u.by_id)) refl
    where
      go :
          (o : Option Bool)
          → any_conflict (sort id_leb u.by_id) ≡ o
          → (r : Result) × (finish u ≡ ok r)
      go none e = absurd (h e)
      go (some true) e = (deny "obligation_conflict", rw (e, finish))
      go (some false) e = (decide u (sort id_leb u.by_id), rw (e, finish))

  compose_sorted_total :
      (ps : List Contribution)
      → All ContributionIsEncodable ps
      → (r : Result) × (compose_sorted schemas ps ≡ ok r)
  unfolding compose_sorted
  compose_sorted_total [] h = (_, refl)
  compose_sorted_total (p ∷ ps) h = elim (Flow-cases (add_parts schemas (p ∷ ps) empty_tally)) [
    | inr (r, e) ↦ (r, ground arith)
    | inl (u, e) ↦
        let (r, f) = finish-ne-panic u (
          any_conflict-ne-none (sort id_leb u.by_id)
            λ b m. gathered_names_destination (p ∷ ps) u h e b (Elem-sort id_leb b u.by_id m)) in
        (r, ground arith)
  ]

  -- `Compose` returns a result for all contributions whose numbers are numerals: the schema keeps it
  -- from dereferencing a destination that is not there.
  pub compose_total :
      (parts : List Contribution)
      → All ContributionIsEncodable parts
      → (r : Result) × (compose schemas parts ≡ ok r)
  unfolding compose
  compose_total parts h = compose_sorted_total (sort contribution_leb parts) (sorted-All parts h)

  module _ (parts : List Contribution) (encodable : All ContributionIsEncodable parts) (r : Result)
      (returns : compose schemas parts ≡ ok r) where
    -- A composition of contributions whose numbers are numerals, if it is not a denial, has the
    -- obligations of all contributions, with their paths sorted, and no others.
    pub compose_obligations :
        r.outcome ≢ codes "deny"
        → ((p : Contribution) (o : Obligation)
            → Elem p parts
            → Elem o (elements p.obligations)
            → Elem (sort_paths o) r.obligations)
          × ((x : Obligation)
              → Elem x r.obligations
              → (p : Contribution) × (o : Obligation) × Elem p parts
                × Elem o (elements p.obligations)
                × (x ≡ sort_paths o))
    compose_obligations h = elim (composed schemas parts r returns) [
      | inl d ↦ absurd (h d.0)
      | inr d ↦
          let same : r.obligations ≡ sort id_leb d.tally.by_id =
            ap (λ (x : Result). x.obligations) d.decided
            ∙ obligations-decide d.tally _ (
                ground (
                  arith,
                  decide-IsDenial d.tally (sort id_leb d.tally.by_id),
                  ap (λ (x : Result). x.outcome) d.decided,
                )) in
          let g =
            add_parts-Gathers schemas (sort contribution_leb parts) empty_tally d.tally
              (sorted-All parts encodable) tt d.runs in
          (
            λ p o m k. subst (Elem (sort_paths o)) (sym same) (
                Elem-sort_of id_leb _ d.tally.by_id
                  (g.takes p o (Elem-sort_of contribution_leb p parts m) k)),
            λ x m. elim (g.origin x (Elem-sort id_leb x d.tally.by_id (subst (Elem x) same m))) [
              | inl i ↦ absurd i
              | inr (p, o, i, k, e) ↦ (p, o, Elem-sort contribution_leb p parts i, k, e)
            ],
          )
    ]

  module _ (parts : List Contribution) (r : Result) (returns : compose schemas parts ≡ ok r) where
    -- No two obligations of a composition conflict.
    pub compose-Agree : Pairs Agree r.obligations
    compose-Agree = elim (composed schemas parts r returns) [
      | inl d ↦ rw d.1 tt
      | inr d ↦ elim (Bool-cases d.tally.deny) [
        | inl e ↦
            subst (Pairs Agree)
              (sym (ap (λ (x : Result). x.obligations) d.decided ∙ (decide-IsDenial d.tally _ e).1))
              tt
        | inr e ↦
            subst (Pairs Agree)
              (sym (ap (λ (x : Result). x.obligations) d.decided ∙ obligations-decide d.tally _ e))
              (any_conflict-Pairs (sort id_leb d.tally.by_id) d.clear)
      ]
    ]
