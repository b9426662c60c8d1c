-- ===== src/Policy/Bundle/Diff.antt =====
-- Diff of internal/policy/bundle.go. normalization.Digest, over SHA-256, is a parameter.
pub mod Differing
use normgate.Prelude.{Bool, true, false, not, Option, none, some, List, [], ◌∷◌, ◌++◌, map, keep_if}
use normgate.Text.{Text, text_eq, text_leb, contains}
use normgate.Text.Utf8.{Bytes}
use normgate.Sort.{sort}
use normgate.Policy.Bundle.Files.{Files, names, find_file}

-- A digest or a content that is left out is empty in Go.
pub record Change : Type 0 where
  pub path : Text
  pub old_digest : Option Text
  pub new_digest : Option Text
  pub before : Option Bytes
  pub after : Option Bytes

unfoldable pub same_content : Option Bytes → Option Bytes → Bool
same_content (some a) (some b) = text_eq a b
same_content _ _ = false

-- The keys of the map `names`.
unfoldable pub all_names : Files → Files → List Text
all_names a b = names a ++ keep_if (λ n. not (contains (names a) n)) (names b)

unfoldable pub is_changed : Files → Files → Text → Bool
is_changed a b n = not (same_content (find_file n a) (find_file n b))

unfoldable pub change_leb : Change → Change → Bool
change_leb c d = text_leb c.path d.path

module _ (digest : Bytes → Text) where
  abbrev pub digest_of : Option Bytes → Option Text
  digest_of none = none
  digest_of (some raw) = some (digest raw)

  unfoldable pub change : Files → Files → Text → Change
  change a b n = record {
    path = n;
    old_digest = digest_of (find_file n a);
    new_digest = digest_of (find_file n b);
    before = find_file n a;
    after = find_file n b;
  }

  -- Diff
  unfoldable pub diff : Files → Files → List Change
  diff a b = sort change_leb (map (change a b) (keep_if (is_changed a b) (all_names a b)))
