-- ===== src/Policy/Sources/Pulled.antt =====
-- Proofs on OCI sources: what is fetched is the layer of the pinned manifest.
use normgate.Prelude.{
  refl, not, ◌&&◌, negsuc, int_ltb, subst, ℤ, Option-cases, List, ◌≡◌, ◌≢◌, ◌⊎◌, inl, inr, arith,
  pos, int_eq, true, false, Bool-cases, some, [], ◌∷◌, ◌≤◌, ◌<◌, length, Option,
}
use normgate.Text.{Text, text_eq→eq}
use normgate.Text.Utf8.{Bytes}
use normgate.Policy.{codes, ok, Try-cases}
use normgate.Policy.Bundle.Archive.{size_of, max_compressed}
use normgate.Policy.Manager.{FetchResult}
use normgate.Policy.Sources.Http.{Url, Client, Request, Reply, http_fetch, new_http_source}
use normgate.Policy.Sources.Oci.{
  Layer, OciManifest, ManifestDecoders, OciSource, bundle_media_type, manifest_media_type, part_url,
  read_manifest, single, is_bundle_layer, is_bundle_manifest, fetch_blob, follow, oci_fetch,
}
use normgate.Policy.Sources.Pinned.{http_fetch-IsAnswer, new_http_source-ok}

single-eq : (ls : List Layer) (l : Layer) → single ls ≡ some l → ls ≡ l ∷ []
unfolding single
single-eq [] l h = absurd (ground arith)
single-eq (k ∷ []) l h = ground arith
single-eq (k ∷ j ∷ ls) l h = absurd (ground arith)

int_eq→eq : (a b : ℤ) → int_eq a b ≡ true → a ≡ b
int_eq→eq (pos m) (pos n) h = ground arith
int_eq→eq (pos m) (negsuc n) h = cc
int_eq→eq (negsuc m) (pos n) h = cc
int_eq→eq (negsuc m) (negsuc n) h = ground arith

is_bundle_manifest-eq :
    (m : OciManifest)
    → is_bundle_manifest m ≡ true
    → (m.schema_version ≡ pos 2)
      × (m.media_type ≡ manifest_media_type)
      × (m.artifact_type ≡ bundle_media_type)
unfolding is_bundle_manifest
is_bundle_manifest-eq m h = (
  int_eq→eq m.schema_version (pos 2) (ground arith),
  text_eq→eq m.media_type manifest_media_type (ground arith),
  text_eq→eq m.artifact_type bundle_media_type (ground arith),
)

size_bounds :
    (n : ℤ)
    → int_ltb (pos 0) n && not (int_ltb (pos max_compressed) n) ≡ true
    → (0 < size_of n) × (size_of n ≤ max_compressed)
size_bounds (pos n) h = ground arith
size_bounds (negsuc n) h = absurd (ground arith)

is_bundle_layer-eq :
    (l : Layer)
    → is_bundle_layer l ≡ true
    → (l.media_type ≡ bundle_media_type) × (0 < size_of l.size)
unfolding is_bundle_layer
is_bundle_layer-eq l h = (
  text_eq→eq l.media_type bundle_media_type (ground arith),
  (size_bounds l.size (ground arith)).0,
)

module _ (parse : Text → Option Url) (digest : Bytes → Text) (send : Client → Request → Reply)
    (decoders : ManifestDecoders) where
  -- A layer that a manifest names as its only one, of the type and within the size of a bundle.
  pub record IsListed (index : Bytes) (l : Layer) : Type 0 where
    pub manifest : OciManifest
    pub decodes : decoders.decodes index ≡ true
    pub reads : decoders.unmarshal index ≡ some manifest
    pub version : manifest.schema_version ≡ pos 2
    pub media_type : manifest.media_type ≡ manifest_media_type
    pub artifact_type : manifest.artifact_type ≡ bundle_media_type
    pub only : manifest.layers ≡ l ∷ []
    pub layer_type : l.media_type ≡ bundle_media_type

  -- What an OCI source gives unless its manifest is unchanged.
  pub record IsPulled (s : OciSource) (r : FetchResult) : Type 0 where
    pub changed : r.not_modified ≡ false
    pub index : Bytes
    pub layer : Layer
    pub pinned : digest index ≡ s.manifest.checksum
    pub listed : IsListed index layer
    pub matches : digest r.bytes ≡ layer.digest
    pub sized : layer.size ≡ pos (length r.bytes)
    pub some_byte : 0 < length r.bytes
    pub bounded : length r.bytes ≤ max_compressed

  read_manifest-ok :
      (index : Bytes) (l : Layer)
      → read_manifest decoders index ≡ ok l
      → IsListed index l × (0 < size_of l.size)
  unfolding read_manifest
  read_manifest-ok index l h = elim (Bool-cases (decoders.decodes index)) [
    | inr d ↦ absurd (ground arith)
    | inl d ↦ elim (Option-cases (decoders.unmarshal index)) [
      | inl u ↦ absurd (ground arith)
      | inr (m, u) ↦ elim (Bool-cases (is_bundle_manifest m)) [
        | inr b ↦ absurd (ground arith)
        | inl b ↦ elim (Option-cases (single m.layers)) [
          | inl e ↦ absurd (ground arith)
          | inr (k, e) ↦ elim (Bool-cases (is_bundle_layer k)) [
            | inr g ↦ absurd (ground arith)
            | inl g ↦
                let (version, media, artifact) = is_bundle_manifest-eq m b in
                let (layer_type, positive) = is_bundle_layer-eq k g in
                let same : k ≡ l = ground arith in
                subst (λ x. IsListed index x × (0 < size_of x.size)) same
                  (
                    record {
                      manifest = m;
                      decodes = d;
                      reads = u;
                      version = version;
                      media_type = media;
                      artifact_type = artifact;
                      only = single-eq m.layers k e;
                      layer_type = layer_type;
                    },
                    positive,
                  )
          ]
        ]
      ]
    ]
  ]

  fetch_blob-ok :
      (s : OciSource) (etag : Text) (l : Layer) (r : FetchResult)
      → fetch_blob parse digest send decoders s etag l ≡ ok r
      → (r.not_modified ≡ false)
        × (r.etag ≡ etag)
        × (digest r.bytes ≡ l.digest)
        × (l.size ≡ pos (length r.bytes))
        × (length r.bytes ≤ max_compressed)
  unfolding fetch_blob
  fetch_blob-ok s etag l r h =
      elim (Try-cases (
        new_http_source parse (part_url s.registry s.repository (codes "/blobs/") l.digest) l.digest
          (some s.manifest.client))) [
            | inr e ↦ absurd (ground arith)
            | inl (blob, e) ↦ elim (Try-cases (http_fetch parse digest send blob [])) [
              | inr f ↦ absurd (ground arith)
              | inl (body, f) ↦ elim (Bool-cases (int_eq (pos (length body.bytes)) l.size)) [
                | inr g ↦ absurd (ground arith)
                | inl g ↦ elim (http_fetch-IsAnswer digest parse send blob [] body f) [
                  | inl (n, none_held, t, b) ↦ absurd (none_held refl)
                  | inr (n, d, k, t) ↦
                      let named = (new_http_source-ok digest parse send _ _ _ blob e).1 in
                      ground (arith, int_eq→eq (pos (length body.bytes)) l.size g)
                ]
              ]
            ]
          ]

  -- A successful fetch of an OCI source either confirms an ETag of the caller's, which is not empty,
  -- and gives no bytes, or gives the bytes of the only layer of a manifest: the manifest has the
  -- pinned digest and the types of a bundle, and the bytes have the digest and the size, from 1 to
  -- that of an archive, that it names.
  pub oci_fetch-IsPulled :
      (s : OciSource) (etag : Text) (r : FetchResult)
      → oci_fetch parse digest send decoders s etag ≡ ok r
      → ((r.not_modified ≡ true) × (etag ≢ []) × (r.etag ≡ etag) × (r.bytes ≡ [])) ⊎ IsPulled s r
  unfolding oci_fetch follow
  oci_fetch-IsPulled s etag r h = elim (Try-cases (http_fetch parse digest send s.manifest etag)) [
    | inr e ↦ absurd (ground arith)
    | inl (m, e) ↦ elim (http_fetch-IsAnswer digest parse send s.manifest etag m e) [
      | inl (n, t, u, b) ↦ inl (ground arith, t, ground arith, ground arith)
      | inr (n, d, k, t) ↦ elim (Try-cases (read_manifest decoders m.bytes)) [
        | inr f ↦ absurd (ground arith)
        | inl (l, f) ↦
            let (changed, tagged, matches, sized, bounded) =
              fetch_blob-ok s m.etag l r (ground arith) in
            let (listed, positive) = read_manifest-ok m.bytes l f in
            inr (record {
              changed = changed;
              index = m.bytes;
              layer = l;
              pinned = d;
              listed = listed;
              matches = matches;
              sized = sized;
              some_byte = subst (λ z. 0 < size_of z) sized positive;
              bounded = bounded;
            })
      ]
    ]
  ]
