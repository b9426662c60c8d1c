-- ===== src/Policy/Bundle/Files/SafePath.antt =====
-- Proofs on safePath: the names of the files of a bundle.
use normgate.Prelude.{
  ◌≤◌, ◌≡◌, ◌↔◌, refl, sym, ap, ◌∙◌, subst, Bool, true, false, List, [], ◌∷◌, ◌++◌, arith, ◌==◌,
  any, all, Bool-cases, inl, inr,
}
use mathlib.Core.List.{append-nil}
use normgate.Text.{Text, codes, text_eq, text_eq→eq, text_eq_refl, has_prefix}
use normgate.Text.Split.{split, join, join-split}
use normgate.Text.Utf8.{byte_length}
use normgate.Policy.Bundle.Files.{
  dot, is_element, valid_path, clean_step, clean_elements, reversed, or_dot, clean, is_forbidden,
  safe_path,
}

clean_step-element :
    (rooted : Bool) (kept : List Text) (s : Text)
    → is_element s ≡ true
    → clean_step rooted kept s ≡ s ∷ kept
unfolding clean_step is_element
clean_step-element rooted kept s h = ground (arith, h)

clean_elements-reversed :
    (rooted : Bool) (kept ss : List Text)
    → all is_element ss ≡ true
    → clean_elements rooted kept ss ≡ reversed ss kept
unfolding clean_elements
clean_elements-reversed rooted kept [] h = refl
clean_elements-reversed rooted kept (s ∷ ss) h =
    rw (clean_step-element rooted kept s (ground arith))
      (clean_elements-reversed rooted (s ∷ kept) ss (ground arith))

reversed-reversed : (xs ys zs : List Text) → reversed (reversed xs ys) zs ≡ reversed ys (xs ++ zs)
reversed-reversed [] ys zs = refl
reversed-reversed (x ∷ xs) ys zs = reversed-reversed xs (x ∷ ys) zs

-- A safe name, said of its elements.
pub record IsSafe (name : Text) : Type 0 where
  pub short : byte_length name ≤ 256
  pub clear : any is_forbidden name ≡ false
  pub elements : all is_element (split b'/' name) ≡ true

dot_elements : all is_element (split b'/' dot) ≡ false
unfolding split is_element text_eq
dot_elements = refl

empty_elements : all is_element (split b'/' []) ≡ false
unfolding split is_element text_eq
empty_elements = refl

safe_path-IsSafe : (name : Text) → safe_path name ≡ true → IsSafe name
unfolding safe_path valid_path
safe_path-IsSafe name h = record {
  short = ground arith;
  clear = ground arith;
  elements = ground arith;
}

-- A name whose first character is a slash has an empty element.
slash_elements :
    (name : Text) → has_prefix name (codes "/") ≡ true → all is_element (split b'/' name) ≡ false
unfolding has_prefix split is_element text_eq
slash_elements [] h = absurd (ground arith)
slash_elements (c ∷ s) h = elim (Bool-cases (c == 47)) [
  | inl e ↦ rw e refl
  | inr e ↦ absurd (ground arith)
]

or_dot_some : (name : Text) → all is_element (split b'/' name) ≡ true → or_dot name ≡ name
unfolding split is_element text_eq
or_dot_some [] h = absurd (ground arith)
or_dot_some (c ∷ s) h = refl

not_equal : (a b : Text) → (p : Text → Bool) → p a ≡ true → p b ≡ false → text_eq a b ≡ false
not_equal a b p h k = elim (Bool-cases (text_eq a b)) [
  | inl e ↦ cc (h, k, ap p (text_eq→eq a b e))
  | inr e ↦ e
]

IsSafe-clean : (name : Text) → IsSafe name → clean name ≡ name
unfolding clean
IsSafe-clean name w = elim (Bool-cases (has_prefix name (codes "/"))) [
  | inl e ↦ cc (w.elements, slash_elements name e)
  | inr e ↦ rw e (
      ap (λ ss. or_dot (join b'/' (reversed ss [])))
        (clean_elements-reversed false [] (split b'/' name) w.elements)
      ∙ ap (λ ss. or_dot (join b'/' ss))
          (reversed-reversed (split b'/' name) [] [] ∙ append-nil (split b'/' name))
      ∙ ap or_dot (join-split b'/' name)
      ∙ or_dot_some name w.elements)
]

IsSafe-safe_path : (name : Text) → IsSafe name → safe_path name ≡ true
unfolding safe_path valid_path
IsSafe-safe_path name w =
    let proper = λ (n : Text). all is_element (split b'/' n) in
    let same : text_eq (clean name) name ≡ true =
      subst (λ n. text_eq n name ≡ true) (sym (IsSafe-clean name w)) (text_eq_refl name) in
    ground (
      arith,
      w.short,
      w.clear,
      w.elements,
      same,
      not_equal name dot proper w.elements dot_elements,
      not_equal name [] proper w.elements empty_elements,
    )

-- However the elements of a safe name are resolved in a directory, they end below it: none of them
-- leaves the directory, or is dropped.
pub safe_path-below :
    (name : Text)
    → safe_path name ≡ true
    → (rooted : Bool) (directory : List Text)
    → clean_elements rooted directory (split b'/' name) ≡ reversed (split b'/' name) directory
safe_path-below name h rooted directory =
    clean_elements-reversed rooted directory (split b'/' name) (safe_path-IsSafe name h).elements

-- A name is safe exactly if it has at most 256 bytes, no backslash, colon or NUL, and no element
-- that is empty, "." or "..": the further tests of safePath follow from these.
pub safe_path_iff : (name : Text) → (safe_path name ≡ true) ↔ IsSafe name
safe_path_iff name = (safe_path-IsSafe name, IsSafe-safe_path name)
