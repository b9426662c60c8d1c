-- ===== src/Policy/Opa/Syntax/Nesting.antt =====
-- Proofs on boundedSyntax: the nesting of the code outside strings and comments.
use normgate.Prelude.{◌≡◌, refl, ◌≤◌, ◌+◌, ℕ, pos, true, ◌++◌, arith, ◌↔◌, ◌∙◌, sym}
use normgate.Text.Utf8.{Bytes}
use normgate.Policy.Opa.{max_rule_depth}
use normgate.Policy.Opa.Syntax.{opens, closes, bounded_syntax}
use normgate.Policy.Opa.Syntax.Lexing.{code, code_of, scan-balance}
use normgate.Policy.Opa.Syntax.Brackets.{
  count_of, IsDepth, balance-counted, counted-Nests, Nests-counted,
}

-- At most `n` more brackets are opened than closed, wherever the text is cut.
abbrev pub NestsWithin : ℕ → Bytes → Type 0
NestsWithin n text =
    (before after : Bytes)
    → text ≡ before ++ after
    → count_of opens before ≤ count_of closes before + n

-- boundedSyntax accepts a module exactly if its brackets outside strings and comments nest at most
-- 64 deep: wherever that text is cut, at most 64 more brackets have been opened than closed.
pub bounded_syntax_iff :
    (raw : Bytes) → (bounded_syntax raw ≡ true) ↔ NestsWithin max_rule_depth (code_of code raw)
unfolding bounded_syntax IsDepth
bounded_syntax_iff raw =
    let e = scan-balance code (pos 0) raw ∙ balance-counted (code_of code raw) (pos 0) 0 0 refl in
    (
      λ h before after k.
          let x = counted-Nests (code_of code raw) 0 0 (omega arith) (sym e ∙ h) before after k in
          omega arith,
      λ h.
          e
          ∙ Nests-counted (code_of code raw) 0 0
              (λ before after k. let x = h before after k in omega arith),
    )
