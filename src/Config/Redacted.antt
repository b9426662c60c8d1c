-- ===== src/Config/Redacted.antt =====
-- Proofs on the configuration: what its text shows.
use normgate.Prelude.{true, ◌≡◌, ◌↔◌, refl, ap, arith}
use normgate.Text.{text_eq}
use normgate.Json.{obj, marshal}
use normgate.Json.Struct.{distinct, struct, struct_unique}
use normgate.Json.Decimal.{format_int-injective, format_int-IsNumeral}
use normgate.Json.Unique.{IsWellFormed, marshal-injective}
use normgate.Config.{Fields, Config, configuration_keys, setting_fields, string_of}

-- The two configurations have the same settings; their API keys may differ.
pub record SameSettings (c d : Config) : Type 0 where
  pub schema_version : c.schema_version ≡ d.schema_version
  pub listen_address : c.listen_address ≡ d.listen_address
  pub policy_source : c.policy_source ≡ d.policy_source
  pub request_timeout_ms : c.request_timeout_ms ≡ d.request_timeout_ms
  pub fail_closed : c.fail_closed ≡ d.fail_closed

settings-IsWellFormed :
    (c : Config) → IsWellFormed (obj (struct configuration_keys (setting_fields c)))
unfolding struct
settings-IsWellFormed c = (tt, (tt, (tt, (format_int-IsNumeral c.request_timeout_ms, (tt, tt)))))

setting_fields-SameSettings :
    (c d : Config) → setting_fields c ≡ setting_fields d → SameSettings c d
setting_fields-SameSettings c d e = record {
  schema_version = ground arith;
  listen_address = ground arith;
  policy_source = ground arith;
  request_timeout_ms =
      format_int-injective c.request_timeout_ms d.request_timeout_ms (ground arith);
  fail_closed = ground arith;
}

SameSettings-setting_fields :
    (c d : Config) → SameSettings c d → setting_fields c ≡ setting_fields d
SameSettings-setting_fields c d s =
    cc (s.schema_version, s.listen_address, s.policy_source, s.request_timeout_ms, s.fail_closed)

obj-injective : (fs gs : Fields) → obj fs ≡ obj gs → fs ≡ gs
obj-injective fs gs e = cc

distinct_keys : distinct configuration_keys ≡ true
unfolding text_eq
distinct_keys = refl

-- The text of a configuration shows its settings and nothing else: two configurations have the same
-- text exactly if they have the same settings, whatever their API keys.
pub string_of_iff : (c d : Config) → (string_of c ≡ string_of d) ↔ SameSettings c d
unfolding string_of
string_of_iff c d = (
  λ e.
      let fields = obj-injective _ _ (
        marshal-injective (obj (struct configuration_keys (setting_fields c)))
          (obj (struct configuration_keys (setting_fields d))) (settings-IsWellFormed c)
          (settings-IsWellFormed d) e) in
      setting_fields-SameSettings c d (
        struct_unique configuration_keys (setting_fields c) (setting_fields d) distinct_keys refl
          refl fields),
  λ s. ap (λ fs. marshal (obj (struct configuration_keys fs))) (SameSettings-setting_fields c d s),
)
