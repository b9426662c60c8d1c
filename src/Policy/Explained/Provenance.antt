-- ===== src/Policy/Explained/Provenance.antt =====
-- Proofs on ExplainResult: what the provenance of an obligation names.
use normgate.Prelude.{
  ◌∙◌, if◌then◌else◌, ◌≡◌, ◌↔◌, ◌⊎◌, inl, inr, refl, sym, subst, arith, List, [], ◌∷◌, ◌++◌, Elem,
  Elem-append, Elem-of_append, elements, Bool-cases,
}
use normgate.Text.{Text, text_eq, text_eq_iff, text_leb}
use normgate.Sort.{sort, Elem-sort, Elem-sort_of}
use normgate.Contracts.{Decision, Obligation}
use normgate.Policy.{Result, Contribution, Try, ok, Try-cases}
use normgate.Policy.Explained.{
  ProvenanceMap, refs_of, add_ref, ref_of, add_obligations, add_rules, compact_after, compact,
  compact_all, provenance, Explanation, explain_result, rule_leb,
}

refs_of-add_ref :
    (ref j id : Text) (m : ProvenanceMap)
    → refs_of id (add_ref ref j m)
      ≡ (if text_eq j id then refs_of id m ++ ref ∷ [] else refs_of id m)
unfolding refs_of add_ref
refs_of-add_ref ref j id [] = refl
refs_of-add_ref ref j id ((k, refs) ∷ m) =
    ground (arith, text_eq_iff k j, text_eq_iff k id, text_eq_iff j id, refs_of-add_ref ref j id m)

add_ref_iff :
    (ref j id r : Text) (m : ProvenanceMap)
    → Elem r (refs_of id (add_ref ref j m)) ↔ (Elem r (refs_of id m) ⊎ ((j ≡ id) × (r ≡ ref)))
add_ref_iff ref j id r m = elim (Bool-cases (text_eq j id)) [
  | inl e ↦
      let same : refs_of id (add_ref ref j m) ≡ refs_of id m ++ ref ∷ [] =
        rw (refs_of-add_ref ref j id m) (rw e refl) in
      (
        λ h. elim (Elem-of_append r (refs_of id m) (ref ∷ []) (subst (Elem r) same h)) [
          | inl k ↦ inl k
          | inr (inl k) ↦ inr ((text_eq_iff j id).0 e, k)
          | inr (inr k) ↦ absurd k
        ],
        λ h. subst (Elem r) (sym same) (
            Elem-append r (refs_of id m) (ref ∷ [])
              (elim h [ inl k ↦ inl k | inr k ↦ inr (inl k.1) ])),
      )
  | inr e ↦
      let same : refs_of id (add_ref ref j m) ≡ refs_of id m =
        rw (refs_of-add_ref ref j id m) (rw e refl) in
      (
        λ h. inl (subst (Elem r) same h),
        λ h. elim h [
          | inl k ↦ subst (Elem r) (sym same) k
          | inr k ↦ absurd (ground (arith, (text_eq_iff j id).1 k.0))
        ],
      )
]

-- An obligation of the list has the id, under the reference.
abbrev Names : Text → List Obligation → (id r : Text) → Type 0
Names ref os id r = (o : Obligation) × Elem o os × (o.id ≡ id) × (r ≡ ref)

add_obligations_iff :
    (ref id r : Text) (os : List Obligation) (m : ProvenanceMap)
    → Elem r (refs_of id (add_obligations ref os m)) ↔ (Elem r (refs_of id m) ⊎ Names ref os id r)
unfolding add_obligations
add_obligations_iff ref id r [] m = (λ h. inl h, λ h. elim h [ inl k ↦ k | inr k ↦ absurd k.1 ])
add_obligations_iff ref id r (o ∷ os) m =
    let rest = add_obligations_iff ref id r os (add_ref ref o.id m) in
    let first = add_ref_iff ref o.id id r m in
    (
      λ h. elim (rest.0 h) [
        | inr (x, e, i, s) ↦ inr (x, inr e, i, s)
        | inl k ↦ elim (first.0 k) [ inl old ↦ inl old | inr new ↦ inr (o, inl refl, new.0, new.1) ]
      ],
      λ h. elim h [
        | inl k ↦ rest.1 (inl (first.1 (inl k)))
        | inr (x, inl e, i, s) ↦ rest.1 (inl (first.1 (inr (subst (λ y. y.id ≡ id) e i, s))))
        | inr (x, inr e, i, s) ↦ rest.1 (inr (x, e, i, s))
      ],
    )

-- A contribution of the list has an obligation with the id, and is named by the reference.
abbrev pub Contributes : List Contribution → (id r : Text) → Type 0
Contributes ps id r =
    (p : Contribution) × Elem p ps
    × (o : Obligation) × Elem o (elements p.obligations)
    × (o.id ≡ id)
    × (r ≡ ref_of p)

add_rules_iff :
    (id r : Text) (ps : List Contribution) (m : ProvenanceMap)
    → Elem r (refs_of id (add_rules ps m)) ↔ (Elem r (refs_of id m) ⊎ Contributes ps id r)
unfolding add_rules
add_rules_iff id r [] m = (λ h. inl h, λ h. elim h [ inl k ↦ k | inr k ↦ absurd k.1 ])
add_rules_iff id r (p ∷ ps) m =
    let os = elements p.obligations in
    let rest = add_rules_iff id r ps (add_obligations (ref_of p) os m) in
    let first = add_obligations_iff (ref_of p) id r os m in
    (
      λ h. elim (rest.0 h) [
        | inr (q, e, o, f, i, s) ↦ inr (q, inr e, o, f, i, s)
        | inl k ↦ elim (first.0 k) [
          | inl old ↦ inl old
          | inr (o, e, i, s) ↦ inr (p, inl refl, o, e, i, s)
        ]
      ],
      λ h. elim h [
        | inl k ↦ rest.1 (inl (first.1 (inl k)))
        | inr (q, inl e, o, f, i, s) ↦
            let (f', s') = subst (λ x. Elem o (elements x.obligations) × (r ≡ ref_of x)) e (f, s) in
            rest.1 (inl (first.1 (inr (o, f', i, s'))))
        | inr (q, inr e, o, f, i, s) ↦ rest.1 (inr (q, e, o, f, i, s))
      ],
    )

compact_after_iff : (r s : Text) (ts : List Text) → Elem r (compact_after s ts) ↔ Elem r (s ∷ ts)
unfolding compact_after
compact_after_iff r s [] = (λ h. h, λ h. h)
compact_after_iff r s (t ∷ ts) = elim (Bool-cases (text_eq s t)) [
  | inl e ↦
      let rest = compact_after_iff r s ts in
      let same = (text_eq_iff s t).0 e in
      (
        λ h. elim (rest.0 (rw e at h)) [ inl k ↦ inl k | inr k ↦ inr (inr k) ],
        λ h. rw e (elim h [
          | inl k ↦ rest.1 (inl k)
          | inr (inl k) ↦ rest.1 (inl (k ∙ sym same))
          | inr (inr k) ↦ rest.1 (inr k)
        ]),
      )
  | inr e ↦
      let rest = compact_after_iff r t ts in
      (
        λ h. elim ((rw e at h)) [ inl k ↦ inl k | inr k ↦ inr (rest.0 k) ],
        λ h. rw e (elim h [ inl k ↦ inl k | inr k ↦ inr (rest.1 k) ]),
      )
]

compact_iff : (r : Text) (ts : List Text) → Elem r (compact ts) ↔ Elem r ts
unfolding compact
compact_iff r [] = (λ h. h, λ h. h)
compact_iff r (t ∷ ts) = compact_after_iff r t ts

refs_of-compact_all :
    (id : Text) (m : ProvenanceMap)
    → refs_of id (compact_all m) ≡ compact (sort text_leb (refs_of id m))
unfolding refs_of compact_all compact sort
refs_of-compact_all id [] = refl
refs_of-compact_all id ((j, refs) ∷ m) = elim (Bool-cases (text_eq j id)) [
  | inl e ↦ rw e refl
  | inr e ↦ rw e (refs_of-compact_all id m)
]

provenance_iff :
    (rules : List Contribution) (id r : Text)
    → Elem r (refs_of id (provenance rules)) ↔ Contributes rules id r
unfolding provenance
provenance_iff rules id r =
    let m = add_rules rules [] in
    let same = refs_of-compact_all id m in
    let added = add_rules_iff id r rules [] in
    (
      λ h.
          let raw = (compact_iff r (sort text_leb (refs_of id m))).0 (subst (Elem r) same h) in
          elim (added.0 (Elem-sort text_leb r (refs_of id m) raw)) [
            | inl k ↦ absurd (unfold refs_of in k)
            | inr k ↦ k
          ],
      λ h. subst (Elem r) (sym same) (
          (compact_iff r (sort text_leb (refs_of id m))).1
            (Elem-sort_of text_leb r (refs_of id m) (added.1 (inr h)))),
    )

-- In an explanation, the provenance of an obligation names exactly the contributions, by layer and
-- rule, that have an obligation with that id, whatever order they are in.
pub explain_result-provenance :
    (decide : Result → Try Decision) (compose : List Contribution → Try Result)
    (parts : List Contribution) (x : Explanation)
    → explain_result decide compose parts ≡ ok x
    → (id r : Text) → Elem r (refs_of id x.obligation_provenance) ↔ Contributes parts id r
unfolding explain_result
explain_result-provenance decide compose parts x h id r =
    let rules = sort rule_leb parts in
    elim (Try-cases (compose rules)) [
      | inr e ↦ absurd (ground arith)
      | inl (result, e) ↦ elim (Try-cases (decide result)) [
        | inr f ↦ absurd (ground arith)
        | inl (d, f) ↦
            let same : x.obligation_provenance ≡ provenance rules = ground arith in
            let listed = provenance_iff rules id r in
            (
              λ k.
                  let (p, m, o, f, i, s) = listed.0 (subst (λ y. Elem r (refs_of id y)) same k) in
                  (p, Elem-sort rule_leb p parts m, o, f, i, s),
              λ (p, m, o, f, i, s).
                  subst (λ y. Elem r (refs_of id y)) (sym same)
                    (listed.1 (p, Elem-sort_of rule_leb p parts m, o, f, i, s)),
            )
      ]
    ]
