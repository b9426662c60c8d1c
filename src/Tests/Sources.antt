-- ===== src/Tests/Sources.antt =====
-- Runs of internal/policy/source.go, and of the manager that refreshes from an OCI registry.
use normgate.Prelude.{
  ◌⊎◌, ◌≢◌, if◌then◌else◌, Option, ◌≡◌, refl, pos, true, false, none, some, [], ◌∷◌,
}
use normgate.Text.{Text, codes, text_eq, has_prefix, trim_prefix}
use normgate.Text.Utf8.{Bytes, byte_length, utf8, utf8_rune}
use normgate.Policy.{ok, err, failure}
use normgate.Policy.Composition.{zero_digest}
use normgate.Policy.Bundle.Archive.{read_bounded}
use normgate.Policy.Manager.{is_digest}
use normgate.Policy.Sources.Http.{
  Url, Client, Request, Reply, replied, unavailable, is_plain, url_of, safe_client, request, accept,
  answer, http_fetch, new_http_source,
}
use normgate.Policy.Sources.Oci.{
  OciManifest, ManifestDecoders, OciSource, bundle_media_type, manifest_media_type, new_oci_source,
  oci_source_at, trim_slash, is_repository, are_words, is_bundle_manifest, is_bundle_layer, single,
  checked_layer, layer_of, read_manifest, fetch_blob, follow, oci_fetch, part_url,
}
use normgate.Policy.Sources.Guarded.{AgreeOnSafe, oci_fetch-safe}
use normgate.Policy.Sources.Pulled.{IsPulled, oci_fetch-IsPulled}
use normgate.Tests.Archive.{no_digest}

abbrev pub plain : Text → Option Url
plain address = some record {
  scheme = codes "https";
  has_user = false;
  host = codes "registry";
  path = [];
  raw_query = [];
  fragment = [];
}

abbrev pub served : Client → Request → Reply
served c r = replied (record { status_code = 200; etag = codes "tag"; body = some (0 ∷ []) })

abbrev pub index : OciManifest
index = record {
  schema_version = pos 2;
  media_type = manifest_media_type;
  artifact_type = bundle_media_type;
  layers = record { media_type = bundle_media_type; digest = zero_digest; size = pos 1 } ∷ [];
}

abbrev pub indexed : ManifestDecoders
indexed = record { decodes = λ raw. true; unmarshal = λ raw. some index }

abbrev address : Text
address = part_url (codes "https://registry") (codes "org/base") (codes "/manifests/") zero_digest

abbrev pub pulled : OciSource
pulled = record {
  manifest = record {
    url = address;
    checksum = zero_digest;
    client = record { timeout = pos 30_000_000_000; follows_redirects = false };
  };
  registry = codes "https://registry";
  repository = codes "org/base";
}

pub new_oci_source_run :
    new_oci_source plain (codes "https://registry/") (codes "org/base") zero_digest none ≡ ok pulled
unfolding new_oci_source oci_source_at trim_slash is_repository are_words new_http_source is_plain
    url_of safe_client is_digest has_prefix trim_prefix text_eq
new_oci_source_run = refl

-- A separator may not follow another.
bad_repository_run :
    new_oci_source plain (codes "https://registry/") (codes "org//base") zero_digest none
    ≡ err (failure "invalid_source")
unfolding new_oci_source oci_source_at trim_slash is_repository are_words url_of text_eq
bad_repository_run = refl

pub oci_fetch_run :
    oci_fetch plain no_digest served indexed pulled []
    ≡ ok (record { bytes = 0 ∷ []; etag = codes "tag"; not_modified = false })
unfolding oci_fetch follow http_fetch answer accept url_of request read_manifest layer_of single
    checked_layer is_bundle_manifest is_bundle_layer fetch_blob new_http_source safe_client is_plain
    is_digest read_bounded byte_length utf8 utf8_rune has_prefix trim_prefix text_eq
oci_fetch_run = refl

-- A network that turns away the clients that follow redirects.
abbrev strict : Client → Request → Reply
strict c r = if c.follows_redirects then unavailable else served c r

strict-AgreeOnSafe : AgreeOnSafe plain served strict
strict-AgreeOnSafe c r s p = rw s.stays refl

oci_fetch-safe_example :
    oci_fetch plain no_digest served indexed pulled []
    ≡ oci_fetch plain no_digest strict indexed pulled []
oci_fetch-safe_example =
    oci_fetch-safe plain no_digest served strict strict-AgreeOnSafe indexed
      (codes "https://registry/") (codes "org/base") zero_digest [] none pulled new_oci_source_run

oci_fetch-IsPulled_example :
    ((false ≡ true) × (◌≢◌ {A = Text} [] []) × (codes "tag" ≡ []) × (◌≡◌ {A = Bytes} (0 ∷ []) []))
    ⊎ IsPulled plain no_digest served indexed pulled
        (record { bytes = 0 ∷ []; etag = codes "tag"; not_modified = false })
oci_fetch-IsPulled_example =
    oci_fetch-IsPulled plain no_digest served indexed pulled []
      (record { bytes = 0 ∷ []; etag = codes "tag"; not_modified = false }) oci_fetch_run
