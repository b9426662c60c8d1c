-- ===== src/Normalization/Canonicalize.antt =====
-- Canonicalize of internal/normalization/normalization.go.
pub mod Numerals
pub mod Unique
use normgate.Prelude.{[]}
use normgate.Text.{Text}
use normgate.Text.Utf8.{Bytes}
use normgate.Json.{Value}
use normgate.Policy.{Try, ok, err, panic, ◌>>=◌}
use normgate.Normalization.Decode
use normgate.Normalization.Normalize
use normgate.Normalization.Decode.{decode}
use normgate.Normalization.Normalize.{Profile, normalize}
use normgate.Normalization.Encode.{encode}

module _ (D : Decode.Packages) (N : Normalize.Packages) (profile : Profile) where
  -- The value that is encoded.
  unfoldable pub normal_value : Bytes → Try Value
  normal_value raw = do v ← decode D raw; normalize N profile [] v

  -- Canonicalize
  unfoldable pub canonicalize : Bytes → Try Text
  unfolding normal_value
  canonicalize raw = do v ← normal_value raw; ok (encode v)
