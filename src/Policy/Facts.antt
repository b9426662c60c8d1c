-- ===== src/Policy/Facts.antt =====
-- FactsPresent of internal/policy/engine.go. time.Parse is a parameter, which gives the instant of
-- an RFC 3339 text.
pub mod Present
use normgate.Prelude.{
  ℕ, Bool, true, false, ◌&&◌, Option, none, some, List, [], ◌∷◌, ltb, leb, if◌then◌else◌, all,
}
use normgate.Text.{Text, contains}
use normgate.Contracts.{ExternalFact}

abbrev between : ℕ → Option ℕ → Option ℕ → Bool
between at (some start) (some end) = leb start at && ltb at end
between at _ _ = false

module _ (parse_time : Text → Option ℕ) where
  -- The fact holds at the instant.
  unfoldable pub is_current : ℕ → ExternalFact → Bool
  is_current at f = between at (parse_time f.resolved_at) (parse_time f.expires_at)

  -- The loop over the facts: the sources with a current fact, or `none` for an id that comes twice.
  unfoldable pub valid_sources :
      ℕ → List ExternalFact → (seen valid : List Text) → Option (List Text)
  valid_sources at [] seen valid = some valid
  valid_sources at (f ∷ fs) seen valid =
      let rest =
        valid_sources at fs (f.id ∷ seen) (if is_current at f then f.source ∷ valid else valid) in
      if contains seen f.id then none else rest

  abbrev pub covers : List Text → Option (List Text) → Bool
  covers sources none = false
  covers sources (some valid) = all (contains valid) sources

  abbrev pub present_at : List ExternalFact → List Text → Option ℕ → Bool
  present_at facts sources none = false
  present_at facts sources (some at) = covers sources (valid_sources at facts [] [])

  -- FactsPresent
  unfoldable pub facts_present : Text → List ExternalFact → List Text → Bool
  facts_present occurred_at facts sources = present_at facts sources (parse_time occurred_at)
