-- ===== src/Policy/Sources/Oci.antt =====
-- OCISource of internal/policy/source.go. The decoders of the manifest are parameters.
use normgate.Prelude.{
  ℕ, ℤ, pos, int_eq, int_ltb, Bool, true, false, ◌&&◌, ◌||◌, not, Option, none, some, List, [], ◌∷◌,
  ◌++◌, leb, ◌==◌, if◌then◌else◌, length,
}
use normgate.Text.{Text, codes, text_eq}
use normgate.Text.Utf8.{Bytes}
use normgate.Policy.{failure, Try, ok, err, ◌>>=◌, ◌>>◌, require}
use normgate.Policy.Bundle.Archive.{max_compressed}
use normgate.Policy.Manager.{FetchResult, Source}
use normgate.Policy.Sources.Http.{
  Url, Client, HttpSource, Request, Reply, url_of, new_http_source, http_fetch, http_id,
}

pub record Layer : Type 0 where
  pub media_type : Text
  pub digest : Text
  pub size : ℤ

pub record OciManifest : Type 0 where
  pub schema_version : ℤ
  pub media_type : Text
  pub artifact_type : Text
  pub layers : List Layer

-- Whether normalization.Decode accepts the bytes, and what json.Unmarshal reads of them.
pub record ManifestDecoders : Type 0 where
  pub decodes : Bytes → Bool
  pub unmarshal : Bytes → Option OciManifest

pub record OciSource : Type 0 where
  pub manifest : HttpSource
  pub registry : Text
  pub repository : Text

abbrev pub bundle_media_type : Text
bundle_media_type = codes "application/vnd.normgate.policy.v1+tar+gzip"

abbrev pub manifest_media_type : Text
manifest_media_type = codes "application/vnd.oci.image.manifest.v1+json"

abbrev is_word_rune : ℕ → Bool
is_word_rune c = (leb b'a' c && leb c b'z') || (leb b'0' c && leb c b'9')

abbrev is_separator : ℕ → Bool
is_separator c = c == b'.' || c == b'_' || c == b'-' || c == b'/'

-- The rest of words with one separator between two of them, after a character of a word or not.
unfoldable pub are_words : Bool → Text → Bool
are_words in_word [] = in_word
are_words in_word (c ∷ s) =
    let more = are_words true s in
    let next = are_words false s in
    if is_word_rune c then more else is_separator c && in_word && next

-- repositoryPattern
unfoldable pub is_repository : Text → Bool
unfolding are_words
is_repository s = are_words false s

-- strings.TrimSuffix(s, "/")
unfoldable pub trim_slash : Text → Text
trim_slash [] = []
trim_slash (c ∷ []) = if c == b'/' then [] else c ∷ []
trim_slash (c ∷ d ∷ s) = c ∷ trim_slash (d ∷ s)

-- The only layer.
unfoldable pub single : List Layer → Option Layer
single (l ∷ []) = some l
single _ = none

unfoldable pub is_bundle_manifest : OciManifest → Bool
unfolding text_eq
is_bundle_manifest m =
    int_eq m.schema_version (pos 2)
    && text_eq m.media_type manifest_media_type
    && text_eq m.artifact_type bundle_media_type

unfoldable pub is_bundle_layer : Layer → Bool
unfolding text_eq
is_bundle_layer l =
    text_eq l.media_type bundle_media_type
    && int_ltb (pos 0) l.size
    && not (int_ltb (pos max_compressed) l.size)

unfoldable pub checked_layer : Option Layer → Try Layer
unfolding is_bundle_layer
checked_layer none = err (failure "invalid_oci_manifest")
checked_layer (some l) = if is_bundle_layer l then ok l else err (failure "invalid_oci_manifest")

unfoldable pub layer_of : Option OciManifest → Try Layer
unfolding is_bundle_manifest single checked_layer
layer_of none = err (failure "invalid_oci_manifest")
layer_of (some m) =
    if is_bundle_manifest m
    then checked_layer (single m.layers)
    else err (failure "invalid_oci_manifest")

unfoldable pub read_manifest : ManifestDecoders → Bytes → Try Layer
unfolding layer_of
read_manifest decoders raw = do
  require (decoders.decodes raw) (failure "invalid_oci_manifest")
  layer_of (decoders.unmarshal raw)

abbrev pub part_url : Text → Text → Text → Text → Text
part_url registry repository kind digest = registry ++ codes "/v2/" ++ repository ++ kind ++ digest

-- OCISource.ID
unfoldable pub oci_id : OciSource → Text
unfolding http_id
oci_id s = codes "oci:" ++ http_id s.manifest

module _ (parse : Text → Option Url) where
  -- NewOCISource, with the slash at the end of the registry trimmed
  unfoldable pub oci_source_at : Text → Text → Text → Option Client → Try OciSource
  oci_source_at registry repository digest client = do
    u ← url_of (parse registry)
    require (text_eq u.path [] && is_repository repository) (failure "invalid_source")
    source ←
        new_http_source parse (part_url registry repository (codes "/manifests/") digest) digest
          client
    ok (record { manifest = source; registry = registry; repository = repository })

  -- NewOCISource
  unfoldable pub new_oci_source : Text → Text → Text → Option Client → Try OciSource
  unfolding trim_slash oci_source_at
  new_oci_source registry = oci_source_at (trim_slash registry)

  module _ (digest : Bytes → Text) (send : Client → Request → Reply)
      (decoders : ManifestDecoders) where
    -- The blob of the layer, under the ETag of the manifest.
    unfoldable pub fetch_blob : OciSource → Text → Layer → Try FetchResult
    fetch_blob s etag l = do
      blob ←
          new_http_source parse (part_url s.registry s.repository (codes "/blobs/") l.digest)
            l.digest (some s.manifest.client)
      body ← http_fetch parse digest send blob []
      require (int_eq (pos (length body.bytes)) l.size) (failure "checksum_mismatch")
      ok (record body { etag = etag })

    unfoldable pub follow : OciSource → FetchResult → Try FetchResult
    unfolding fetch_blob
    follow s r =
        if r.not_modified
        then ok r
        else (do l ← read_manifest decoders r.bytes; fetch_blob s r.etag l)

    -- OCISource.Fetch
    unfoldable pub oci_fetch : OciSource → Text → Try FetchResult
    unfolding follow
    oci_fetch s etag = do r ← http_fetch parse digest send s.manifest etag; follow s r

    -- OCISource as a Source of the manager
    unfoldable pub oci_source : OciSource → Source
    oci_source s = record { id = oci_id s; fetch = oci_fetch s }
