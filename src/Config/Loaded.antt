-- ===== src/Config/Loaded.antt =====
-- Proofs on the configuration: what Load returns.
use normgate.Prelude.{
  Bool, subst, sym, ap, ◌∙◌, none, Bool-cases, Option-cases, ℤ, Option, ◌≡◌, ◌≢◌, ◌≤◌, ◌⊎◌, ℕ, pos,
  true, false, some, [], arith, inl, inr, refl,
}
use normgate.Text.{text_eq_iff, text_eq→eq, Text, codes}
use normgate.Text.Utf8.{utf8, byte_length}
use normgate.Json.{null, bool, number, arr, Value, str, obj, Fields, end, field, marshal}
use normgate.Json.Decimal.Parse.{atoi}
use normgate.Contracts.Validation.{SchemaMap, validate, decode_contract}
use normgate.Contracts.Validation.Accepted.{
  IsAccepted, validate-IsAccepted, decode_contract-IsAccepted,
}
use normgate.Policy.{ok-injective, ◌>>=◌, ok, Try-cases}
use normgate.Policy.Sources.{is_abs}
use normgate.Normalization.Encode.{in_order}
use normgate.Normalization.Decode
use normgate.Normalization.Decode.{max_bytes}
use normgate.Config.{
  arr, number, bool, expect_object, text_eq, negsuc, is_remote, is_port, is_local, System, Config,
  Configuration, Location, config_of, configuration_value, override, read_value, resolve,
  resolve_fields, validate_config, load, is_source,
}
use normgate.Config.References.{Resolves, resolve-Resolves}

abbrev is_string : Value → Bool
is_string (str s) = true
is_string v = false

-- The entries are the same, with each string in its place what it stands for.
pub data ResolvesFields (Y : System) : Fields → Fields → Type 0 where
  none_left : ResolvesFields Y end end
  replaced :
      {k s r : Text} {fs gs : Fields}
      → Resolves Y s r
      → ResolvesFields Y fs gs
      → ResolvesFields Y (field k (str s) fs) (field k (str r) gs)
  kept :
      {k : Text} {v : Value} {fs gs : Fields}
      → is_string v ≡ false
      → ResolvesFields Y fs gs
      → ResolvesFields Y (field k v fs) (field k v gs)

-- A file with an absolute path, or an HTTPS address with a host.
pub record IsSourceAddress (u : Location) : Type 0 where
  pub bare : (u.has_user ≡ false) × (u.fragment ≡ []) × (u.raw_query ≡ [])
  pub place :
      ((u.scheme ≡ codes "file") × (u.host ≡ []) × (is_abs u.path ≡ true))
      ⊎ ((u.scheme ≡ codes "https") × (u.hostname ≢ []) × (u.opaque ≡ []))

module _ (Y : System) (D : Decode.Packages) (compiled : Option SchemaMap) where
  -- The configuration is one that its schema accepts, with a port to listen on and a source of
  -- policies.
  pub record IsValid (c : Config) : Type 0 where
    pub accepted :
        IsAccepted D compiled (codes "configuration") (utf8 (marshal (configuration_value c)))
    pub host : Text
    pub port_text : Text
    pub port : ℕ
    pub listens : Y.split_host_port c.listen_address ≡ some (host, port_text)
    pub reads : atoi port_text ≡ some (pos port)
    pub in_range : (1 ≤ port) × (port ≤ 65535)
    pub location : Location
    pub parses : Y.parse_url c.policy_source ≡ some location
    pub source : IsSourceAddress location

  is_port-pos :
      (o : Option ℤ) → is_port o ≡ true → (n : ℕ) × (o ≡ some (pos n)) × (1 ≤ n) × (n ≤ 65535)
  is_port-pos none h = cc
  is_port-pos (some (negsuc n)) h = cc
  is_port-pos (some (pos n)) h = (n, refl, ground arith, ground arith)

  is_source-eq : (u : Location) → is_source u ≡ true → IsSourceAddress u
  unfolding is_source is_local is_remote
  is_source-eq u h = record {
    bare = (
      ground arith,
      text_eq→eq u.fragment [] (ground arith),
      text_eq→eq u.raw_query [] (ground arith),
    );
    place = elim (Bool-cases (text_eq u.scheme (codes "file"))) [
      | inl e ↦
          inl (
            text_eq→eq u.scheme (codes "file") e,
            text_eq→eq u.host [] (ground arith),
            ground arith,
          )
      | inr e ↦ inr (
        text_eq→eq u.scheme (codes "https") (ground arith),
        λ f. ground (arith, text_eq_iff u.hostname []),
        text_eq→eq u.opaque [] (ground arith),
      )
    ];
  }

  validate_config-IsValid : (c : Config) → validate_config Y D compiled c ≡ ok tt → IsValid c
  unfolding validate_config
  validate_config-IsValid c h =
      let raw = utf8 (marshal (configuration_value c)) in
      elim (Try-cases (validate D compiled (codes "configuration") raw)) [
        | inr e ↦ absurd (ground arith)
        | inl (u, e) ↦ elim (Option-cases (Y.split_host_port c.listen_address)) [
          | inl f ↦ absurd (ground arith)
          | inr ((host, port_text), f) ↦ elim (Bool-cases (is_port (atoi port_text))) [
            | inr g ↦ absurd (ground arith)
            | inl g ↦ elim (Option-cases (Y.parse_url c.policy_source)) [
              | inl p ↦ absurd (ground arith)
              | inr (location, p) ↦
                  let (n, reads, low, high) = is_port-pos (atoi port_text) g in
                  record {
                    accepted = validate-IsAccepted D compiled (codes "configuration") raw e;
                    host = host;
                    port_text = port_text;
                    port = n;
                    listens = f;
                    reads = reads;
                    in_range = (low, high);
                    location = location;
                    parses = p;
                    source = is_source-eq location (ground arith);
                  }
            ]
          ]
        ]
      ]

  keep_field-ok :
      (k : Text) (v : Value) (fs gs : Fields)
      → (resolve_fields Y D compiled fs >>= λ hs. ok (field k v hs)) ≡ ok gs
      → (hs : Fields) × (resolve_fields Y D compiled fs ≡ ok hs) × (gs ≡ field k v hs)
  keep_field-ok k v fs gs h = elim (Try-cases (resolve_fields Y D compiled fs)) [
    | inr e ↦ absurd (ground arith)
    | inl (hs, e) ↦ (hs, e, ground arith)
  ]

  kept_field :
      (k : Text) (v : Value) (fs gs : Fields)
      → is_string v ≡ false
      → ((hs : Fields) → resolve_fields Y D compiled fs ≡ ok hs → ResolvesFields Y fs hs)
      → (resolve_fields Y D compiled fs >>= λ hs. ok (field k v hs)) ≡ ok gs
      → ResolvesFields Y (field k v fs) gs
  kept_field k v fs gs n ih h =
      let (hs, e, same) = keep_field-ok k v fs gs h in
      subst (ResolvesFields Y (field k v fs)) (sym same) (kept n (ih hs e))

  resolve_fields-Resolves :
      (fs gs : Fields) → resolve_fields Y D compiled fs ≡ ok gs → ResolvesFields Y fs gs
  unfolding resolve_fields
  resolve_fields-Resolves end gs h = subst (ResolvesFields Y end) (ok-injective end gs h) none_left
  resolve_fields-Resolves (field k (str s) fs) gs h = elim (Try-cases (resolve Y D compiled s)) [
    | inr e ↦ absurd (ground arith)
    | inl (r, e) ↦
        let (hs, f, same) = keep_field-ok k (str r) fs gs (rw e at h) in
        subst (ResolvesFields Y (field k (str s) fs)) (sym same)
          (replaced (resolve-Resolves Y D compiled s r e) (resolve_fields-Resolves fs hs f))
  ]
  resolve_fields-Resolves (field k null fs) gs h =
      kept_field k null fs gs refl (λ hs e. resolve_fields-Resolves fs hs e) h
  resolve_fields-Resolves (field k (bool b) fs) gs h =
      kept_field k (bool b) fs gs refl (λ hs e. resolve_fields-Resolves fs hs e) h
  resolve_fields-Resolves (field k (number t) fs) gs h =
      kept_field k (number t) fs gs refl (λ hs e. resolve_fields-Resolves fs hs e) h
  resolve_fields-Resolves (field k (arr xs) fs) gs h =
      kept_field k (arr xs) fs gs refl (λ hs e. resolve_fields-Resolves fs hs e) h
  resolve_fields-Resolves (field k (obj os) fs) gs h =
      kept_field k (obj os) fs gs refl (λ hs e. resolve_fields-Resolves fs hs e) h

  expect_object-eq : (v : Value) (fs : Fields) → expect_object v ≡ ok fs → v ≡ obj fs
  expect_object-eq (obj gs) fs h = ground arith
  expect_object-eq null fs h = absurd (ground arith)
  expect_object-eq (bool b) fs h = absurd (ground arith)
  expect_object-eq (number t) fs h = absurd (ground arith)
  expect_object-eq (str s) fs h = absurd (ground arith)
  expect_object-eq (arr xs) fs h = absurd (ground arith)

  -- What Load has checked of a configuration.
  pub record IsLoaded (text : Text) (overrides : Fields) (c : Config) : Type 0 where
    pub short : byte_length text ≤ max_bytes
    pub object : Fields
    pub reads : read_value Y D compiled text ≡ ok (obj object)
    pub resolved : Fields
    pub references : ResolvesFields Y (override object overrides) resolved
    pub accepted :
        IsAccepted D compiled (codes "configuration") (utf8 (marshal (in_order (obj resolved))))
    pub raw : Configuration
    pub unmarshals : Y.unmarshal (utf8 (marshal (in_order (obj resolved)))) ≡ some raw
    pub made : c ≡ config_of Y D compiled raw
    pub valid : IsValid c

  -- A configuration that Load returns was made of an input within the size limit: an object, with the
  -- overrides set in it and its strings resolved once, whose JSON its schema accepts. The configuration
  -- is valid: its own JSON is accepted too, its port is between 1 and 65535, and its policies come from
  -- a file with an absolute path or an HTTPS address with a host, without user, query or fragment.
  pub load-IsLoaded :
      (text : Text) (overrides : Fields) (c : Config)
      → load Y D compiled text overrides ≡ ok c
      → IsLoaded text overrides c
  unfolding load
  load-IsLoaded text overrides c h = elim (Try-cases (read_value Y D compiled text)) [
    | inr e ↦ absurd (ground arith)
    | inl (v, e) ↦ elim (Try-cases (expect_object v)) [
      | inr f ↦ absurd (ground arith)
      | inl (object, f) ↦
          elim (Try-cases (resolve_fields Y D compiled (override object overrides))) [
            | inr g ↦ absurd (ground arith)
            | inl (resolved, g) ↦
                let bytes = utf8 (marshal (in_order (obj resolved))) in
                elim (Try-cases
                  (decode_contract D compiled Y.unmarshal (codes "configuration") bytes)) [
                    | inr d ↦ absurd (ground arith)
                    | inl (raw, d) ↦
                        elim (Try-cases
                          (validate_config Y D compiled (config_of Y D compiled raw))) [
                            | inr k ↦ absurd (ground arith)
                            | inl (u, k) ↦
                                let (accepted, unmarshals) =
                                  decode_contract-IsAccepted D compiled (codes "configuration")
                                    bytes Y.unmarshal raw d in
                                let same : config_of Y D compiled raw ≡ c = ground arith in
                                record {
                                  short = ground arith;
                                  object = object;
                                  reads = e ∙ ap ok (expect_object-eq v object f);
                                  resolved = resolved;
                                  references = resolve_fields-Resolves _ resolved g;
                                  accepted = accepted;
                                  raw = raw;
                                  unmarshals = unmarshals;
                                  made = sym same;
                                  valid =
                                      subst IsValid same
                                        (validate_config-IsValid (config_of Y D compiled raw) k);
                                }
                          ]
                  ]
          ]
    ]
  ]
