-- ===== src/Policy/Opa/Syntax/Brackets.antt =====
-- Proofs on boundedSyntax: how many brackets are opened and closed.
use normgate.Prelude.{
  ◌≡◌, refl, ◌≤◌, ◌+◌, ℕ, zero, suc, ℤ, pos, negsuc, increment, decrement, int_ltb, Bool, true,
  false, [], ◌∷◌, ◌++◌, if◌then◌else◌, arith, ltb, Bool-cases, inl, inr, ap, subst,
}
use normgate.Text.Utf8.{Bytes}
use normgate.Policy.Opa.{max_rule_depth}
use normgate.Policy.Opa.Syntax.{opens, closes}
use normgate.Policy.Opa.Syntax.Lexing.{balance}

unfoldable pub count_of : (ℕ → Bool) → Bytes → ℕ
count_of f [] = 0
count_of f (c ∷ raw) = if f c then suc (count_of f raw) else count_of f raw

-- The depth of so many opened and closed brackets.
unfoldable pub IsDepth : ℤ → ℕ → ℕ → Type 0
IsDepth (pos n) a b = a ≡ b + n
IsDepth (negsuc n) a b = a + suc n ≡ b

increment-IsDepth : (d : ℤ) (a b : ℕ) → IsDepth d a b → IsDepth (increment d) (suc a) b
unfolding increment IsDepth
increment-IsDepth (pos n) a b h = omega arith
increment-IsDepth (negsuc zero) a b h = omega arith
increment-IsDepth (negsuc (suc n)) a b h = omega arith

decrement-IsDepth : (d : ℤ) (a b : ℕ) → IsDepth d a b → IsDepth (decrement d) a (suc b)
unfolding decrement IsDepth
decrement-IsDepth (pos zero) a b h = omega arith
decrement-IsDepth (pos (suc n)) a b h = omega arith
decrement-IsDepth (negsuc n) a b h = omega arith

exceeds :
    (d : ℤ) (a b : ℕ) → IsDepth d a b → int_ltb (pos max_rule_depth) d ≡ ltb (b + max_rule_depth) a
unfolding IsDepth
exceeds (pos n) a b h = ground arith
exceeds (negsuc n) a b h = ground arith

-- The same with two counters.
unfoldable pub counted : ℕ → ℕ → Bytes → Bool
counted a b [] = true
counted a b (c ∷ text) =
    let deeper = counted (suc a) b text in
    let shallower = counted a (suc b) text in
    let same = counted a b text in
    if opens c
    then (if ltb (b + max_rule_depth) (suc a) then false else deeper)
    else if closes c
    then shallower
    else same

pub balance-counted :
    (text : Bytes) (d : ℤ) (a b : ℕ) → IsDepth d a b → balance d text ≡ counted a b text
unfolding balance counted
balance-counted [] d a b i = refl
balance-counted (c ∷ text) d a b i = ground (
  arith,
  balance-counted text d a b i,
  balance-counted text (increment d) (suc a) b (increment-IsDepth d a b i),
  balance-counted text (decrement d) a (suc b) (decrement-IsDepth d a b i),
  exceeds (increment d) (suc a) b (increment-IsDepth d a b i),
)

-- The brackets of a text nest within the limit after some others.
abbrev pub Nests : ℕ → ℕ → Bytes → Type 0
Nests a b text =
    (before after : Bytes)
    → text ≡ before ++ after
    → a + count_of opens before ≤ b + count_of closes before + max_rule_depth

-- A bracket opens or closes.
opens-closes : (c : ℕ) → opens c ≡ true → closes c ≡ false
unfolding opens closes
opens-closes c h = ground arith

counted-cons :
    (c : ℕ) (text before : Bytes) (a b : ℕ)
    → ((m n : ℕ)
        → m ≤ n + max_rule_depth
        → counted m n text ≡ true
        → m + count_of opens before ≤ n + count_of closes before + max_rule_depth)
    → a ≤ b + max_rule_depth
    → counted a b (c ∷ text) ≡ true
    → a + count_of opens (c ∷ before) ≤ b + count_of closes (c ∷ before) + max_rule_depth
unfolding counted count_of
counted-cons c text before a b ih l h =
    ground (arith, ih a b, ih (suc a) b, ih a (suc b), opens-closes c)

pub counted-Nests :
    (text : Bytes) (a b : ℕ) → a ≤ b + max_rule_depth → counted a b text ≡ true → Nests a b text
unfolding count_of
counted-Nests text a b l h [] after e = omega arith
counted-Nests [] a b l h (c ∷ before) after e = absurd cc
counted-Nests (x ∷ text) a b l h (c ∷ before) after e =
    let head : x ≡ c = cc in
    let tail : text ≡ before ++ after = cc in
    subst (λ y. a + count_of opens (y ∷ before) ≤ b + count_of closes (y ∷ before) + max_rule_depth)
      head
      (counted-cons x text before a b (λ m n u v. counted-Nests text m n u v before after tail) l h)

Nests-cons :
    (c : ℕ) (text : Bytes) (a b m n : ℕ)
    → Nests a b (c ∷ text)
    → ((before : Bytes)
        → m + count_of opens before + (b + count_of closes (c ∷ before))
          ≡ n + count_of closes before + (a + count_of opens (c ∷ before)))
    → Nests m n text
Nests-cons c text a b m n h k before after e =
    let x = h (c ∷ before) after (ap (λ t. c ∷ t) e) in let y = k before in omega arith

pub Nests-counted : (text : Bytes) (a b : ℕ) → Nests a b text → counted a b text ≡ true
unfolding counted count_of
Nests-counted [] a b h = refl
Nests-counted (c ∷ text) a b h = elim (Bool-cases (opens c)) [
  | inl o ↦
      let first = h (c ∷ []) text refl in
      ground (
        arith,
        first,
        o,
        opens-closes c o,
        Nests-counted text (suc a) b
            (Nests-cons c text a b (suc a) b h (λ before. ground (arith, o, opens-closes c o))),
      )
  | inr o ↦ elim (Bool-cases (closes c)) [
    | inl k ↦ ground (
      arith,
      o,
      k,
      Nests-counted text a (suc b)
          (Nests-cons c text a b a (suc b) h (λ before. ground (arith, o, k))),
    )
    | inr k ↦ ground (
      arith,
      o,
      k,
      Nests-counted text a b (Nests-cons c text a b a b h (λ before. ground (arith, o, k))),
    )
  ]
]
