-- ===== src/Config/References.antt =====
-- Proofs on the configuration: what the references stand for.
use normgate.Prelude.{
  ap, ◌∙◌, ℕ, ◌≡◌, ◌≢◌, ◌≤◌, Bool, true, false, Option, none, some, [], ◌∷◌, ◌++◌, arith, inl, inr,
  Option-cases, Bool-cases,
}
use normgate.Text.{text_eq_refl, Text, codes, has_prefix, trim_prefix, trim_prefix-append}
use normgate.Text.Utf8.{byte_length}
use normgate.Contracts.Validation.{trim_suffix, SchemaMap}
use normgate.Policy.{ok}
use normgate.Policy.Sources.{is_abs}
use normgate.Normalization.Decode
use normgate.Config.{
  is_path_rune, starts, is_name_rune, System, SecretFile, braced, environment_reference,
  file_reference, has_reference, secret, resolve_environment, resolve_file, resolve,
}

braced-append : (p : ℕ → Bool) (s r : Text) → braced p s ≡ some r → s ≡ r ++ codes "}"
unfolding braced
braced-append p [] r h = cc
braced-append p (c ∷ []) r h = ground arith
braced-append p (c ∷ d ∷ s) r h = elim (Option-cases (braced p (d ∷ s))) [
  | inl e ↦ absurd (ground arith)
  | inr (t, e) ↦ ground (arith, braced-append p (d ∷ s) t e)
]

-- The text without its last line break.
abbrev pub unbroken : Text → Text
unbroken t = trim_suffix (codes "\r") (trim_suffix (codes "\n") t)

-- What a string of the configuration stands for: itself, a variable of the environment, or a file.
pub data Resolves (Y : System) (s r : Text) : Type 0 where
  literal : has_reference s ≡ false → r ≡ s → Resolves Y s r
  environment :
      (name : Text)
      → s ≡ codes "${ENV:" ++ name ++ codes "}"
      → Y.lookup_env name ≡ some r
      → r ≢ []
      → Resolves Y s r
  from_file :
      (path : Text) (f : SecretFile) (content : Text)
      → s ≡ codes "${FILE:" ++ path ++ codes "}"
      → is_abs path ≡ true
      → Y.open_secret path ≡ some f
      → f.is_regular ≡ true
      → f.content ≡ some content
      → byte_length content ≤ 65536
      → r ≡ unbroken content
      → Resolves Y s r

module _ (Y : System) (D : Decode.Packages) (compiled : Option SchemaMap) where
  resolve_environment-ok :
      (o : Option Text) (r : Text)
      → resolve_environment Y D compiled o ≡ ok r
      → (o ≡ some r) × (r ≢ [])
  unfolding resolve_environment
  resolve_environment-ok none r h = absurd (ground arith)
  resolve_environment-ok (some s) r h = (ground arith, λ e. ground (arith, text_eq_refl []))

  secret-ok :
      (f : SecretFile) (r : Text)
      → secret f ≡ ok r
      → (f.is_regular ≡ true)
        × (content : Text) × (f.content ≡ some content)
        × (byte_length content ≤ 65536)
        × (r ≡ unbroken content)
  unfolding secret
  secret-ok f r h = elim (Option-cases f.content) [
    | inl e ↦ absurd (ground arith)
    | inr (t, e) ↦ (ground arith, t, e, ground arith, ground arith)
  ]

  starts-eq : (o : Option Text) (p : ℕ → Bool) (r : Text) → starts o p ≡ some r → o ≡ some r
  starts-eq none p r h = cc
  starts-eq (some []) p r h = cc
  starts-eq (some (c ∷ s)) p r h = ground arith

  environment_reference-eq :
      (s name : Text)
      → environment_reference s ≡ some name
      → s ≡ codes "${ENV:" ++ name ++ codes "}"
  unfolding environment_reference
  environment_reference-eq s name h = elim (Bool-cases (has_prefix s (codes "${ENV:"))) [
    | inr e ↦ absurd (ground arith)
    | inl e ↦
        let rest = trim_prefix s (codes "${ENV:") in
        let inside = starts-eq (braced is_name_rune rest) _ name (rw e at h) in
        trim_prefix-append s (codes "${ENV:") e
        ∙ ap (λ t. codes "${ENV:" ++ t) (braced-append is_name_rune rest name inside)
  ]

  file_reference-eq :
      (s path : Text) → file_reference s ≡ some path → s ≡ codes "${FILE:" ++ path ++ codes "}"
  unfolding file_reference
  file_reference-eq s path h = elim (Bool-cases (has_prefix s (codes "${FILE:"))) [
    | inr e ↦ absurd (ground arith)
    | inl e ↦
        let rest = trim_prefix s (codes "${FILE:") in
        let inside = starts-eq (braced is_path_rune rest) is_path_rune path (rw e at h) in
        trim_prefix-append s (codes "${FILE:") e
        ∙ ap (λ t. codes "${FILE:" ++ t) (braced-append is_path_rune rest path inside)
  ]

  resolve_file-ok :
      (s path r : Text)
      → s ≡ codes "${FILE:" ++ path ++ codes "}"
      → resolve_file Y D compiled path ≡ ok r
      → Resolves Y s r
  unfolding resolve_file
  resolve_file-ok s path r same h = elim (Bool-cases (is_abs path)) [
    | inr a ↦ absurd (ground arith)
    | inl a ↦ elim (Option-cases (Y.open_secret path)) [
      | inl o ↦ absurd (ground arith)
      | inr (f, o) ↦
          let (regular, t, content, short, out) = secret-ok f r (ground arith) in
          from_file path f t same a o regular content short out
    ]
  ]

  -- A string that resolves is taken as it is, where it has no reference in it, or is a reference as a
  -- whole: to a variable that is set and not empty, or to a regular file of at most 64 KiB with an
  -- absolute path, which stands for its content without the last line break.
  pub resolve-Resolves : (s r : Text) → resolve Y D compiled s ≡ ok r → Resolves Y s r
  unfolding resolve environment_reference has_prefix
  resolve-Resolves s r h = elim (Option-cases (environment_reference s)) [
    | inr (name, e) ↦
        let (found, filled) = resolve_environment-ok (Y.lookup_env name) r (rw e at h) in
        environment name (environment_reference-eq s name e) found filled
    | inl e ↦ elim (Option-cases (file_reference s)) [
      | inr (path, f) ↦ resolve_file-ok s path r (file_reference-eq s path f) (rw (e, f) at h)
      | inl f ↦ literal (ground arith) (ground arith)
    ]
  ]
