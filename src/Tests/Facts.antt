-- ===== src/Tests/Facts.antt =====
-- Facts of an event, with instants written as one character.
use normgate.Prelude.{ℕ, ◌≡◌, ◌↔◌, refl, Option, none, some, List, [], ◌∷◌, true, false}
use normgate.Text.{Text, codes, text_eq, contains}
use normgate.Contracts.{ExternalFact}
use normgate.Policy.Facts.{is_current, valid_sources, facts_present}
use normgate.Policy.Facts.Present.{ArePresent, facts_present_iff}

-- The instant that a character stands for.
abbrev instant : Text → Option ℕ
instant (c ∷ []) = some c
instant _ = none

abbrev fact : Text → ExternalFact
fact id = record {
  schema_version = codes "1.0";
  id = id;
  source = codes "directory";
  revision = codes "r1";
  value_ref = [];
  value_digest = [];
  resolved_at = codes "a";
  expires_at = codes "m";
  extensions = none;
}

abbrev wanted : List Text
wanted = codes "directory" ∷ []

present_test : facts_present instant (codes "c") (fact (codes "f1") ∷ []) wanted ≡ true
unfolding facts_present valid_sources is_current contains text_eq
present_test = refl

expired_test : facts_present instant (codes "m") (fact (codes "f1") ∷ []) wanted ≡ false
unfolding facts_present valid_sources is_current contains text_eq
expired_test = refl

twice_test :
    facts_present instant (codes "c") (fact (codes "f1") ∷ fact (codes "f1") ∷ []) wanted ≡ false
unfolding facts_present valid_sources is_current contains text_eq
twice_test = refl

facts_present_iff_example :
    (facts_present instant (codes "c") (fact (codes "f1") ∷ []) wanted ≡ true)
    ↔ ArePresent instant (codes "c") (fact (codes "f1") ∷ []) wanted
facts_present_iff_example = facts_present_iff instant (codes "c") (fact (codes "f1") ∷ []) wanted
