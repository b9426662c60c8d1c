-- ===== src/Yaml.antt =====
-- The nodes of package yaml, as internal/config/config.go and internal/policy/scenarios.go inspect
-- them.
use normgate.Prelude.{Bool, true, false, [], ◌∷◌}
use normgate.Text.{Text, codes, contains}

pub data Kind : Type 0 where
  document sequence mapping scalar alias : Kind

mutual
  pub data Node : Type 0 where
    node : Kind → (tag anchor value : Text) → Nodes → Node

  pub data Nodes : Type 0 where
    nil : Nodes
    cons : Node → Nodes → Nodes

abbrev pub is_alias : Kind → Bool
is_alias alias = true
is_alias _ = false

abbrev pub is_scalar : Kind → Bool
is_scalar scalar = true
is_scalar _ = false

abbrev pub is_mapping : Kind → Bool
is_mapping mapping = true
is_mapping _ = false

-- The tags of scalars that have a JSON value.
unfoldable pub is_plain_tag : Text → Bool
unfolding contains
is_plain_tag tag =
    contains (codes "!!str" ∷ codes "!!int" ∷ codes "!!bool" ∷ codes "!!null" ∷ []) tag
