-- ===== src/Policy/Sources/Guarded.antt =====
-- Proofs on the sources of archives: the requests that are sent.
use normgate.Prelude.{
  refl, [], length, int_eq, sym, subst, true, Bool-cases, pos, ap, some, Option-cases, int_ltb,
  Option, false, ◌≡◌, inl, inr, arith,
}
use normgate.Text.{Text}
use normgate.Text.Utf8.{Bytes}
use normgate.Policy.{◌>>◌, failure, require, codes, ◌>>=◌, ok, Try-cases}
use normgate.Policy.Manager.{FetchResult}
use normgate.Policy.Sources.Http.{
  request, max_timeout, answer, client_of, url_of, is_plain, safe_client, Url, Client, HttpSource,
  Request, Reply, http_fetch, new_http_source,
}
use normgate.Policy.Sources.Oci.{
  part_url, trim_slash, oci_source_at, new_oci_source, Layer, ManifestDecoders, OciSource,
  read_manifest, fetch_blob, follow, oci_fetch,
}

-- A client that follows no redirect and gives up after 30 seconds at most.
pub record IsSafe (c : Client) : Type 0 where
  pub stays : c.follows_redirects ≡ false
  pub ends : (int_ltb (pos 0) c.timeout ≡ true) × (int_ltb (pos max_timeout) c.timeout ≡ false)

module _ (parse : Text → Option Url) where
  -- An address with the scheme https and a host, and with no user, query or fragment.
  abbrev pub IsPlain : Text → Type 0
  IsPlain address = (u : Url) × (parse address ≡ some u) × (is_plain u ≡ true)

  -- The networks answer alike what such a client asks of such an address.
  abbrev pub AgreeOnSafe : (Client → Request → Reply) → (Client → Request → Reply) → Type 0
  AgreeOnSafe send send' =
      (c : Client) (r : Request) → IsSafe c → IsPlain r.url → send c r ≡ send' c r

  safe_client-IsSafe : (c : Client) → IsSafe (safe_client c)
  unfolding safe_client
  safe_client-IsSafe c = ground arith

  new_http_source-IsSafe :
      (address checksum : Text) (c : Option Client) (s : HttpSource)
      → new_http_source parse address checksum c ≡ ok s
      → IsSafe s.client × IsPlain s.url
  unfolding new_http_source
  new_http_source-IsSafe address checksum c s h = elim (Option-cases (parse address)) [
    | inl e ↦ absurd (ground arith)
    | inr (u, e) ↦ elim (Bool-cases (is_plain u)) [
      | inr p ↦ absurd (ground arith)
      | inl p ↦
          let same : s.client ≡ safe_client (client_of c) = ground arith in
          (subst IsSafe (sym same) (safe_client-IsSafe (client_of c)), (u, ground arith, p))
    ]
  ]

  new_oci_source-IsSafe :
      (registry repository pin : Text) (c : Option Client) (s : OciSource)
      → new_oci_source parse registry repository pin c ≡ ok s
      → IsSafe s.manifest.client × IsPlain s.manifest.url
  unfolding new_oci_source oci_source_at
  new_oci_source-IsSafe registry repository pin c s h =
      let trimmed = trim_slash registry in
      let address = part_url trimmed repository (codes "/manifests/") pin in
      elim (Try-cases (url_of (parse trimmed))) [
        | inr e ↦ absurd (ground arith)
        | inl (u, e) ↦ elim (Try-cases (new_http_source parse address pin c)) [
          | inr f ↦ absurd (ground arith)
          | inl (m, f) ↦
              let same : s.manifest ≡ m = ground arith in
              subst (λ x. IsSafe x.client × IsPlain x.url) (sym same)
                (new_http_source-IsSafe address pin c m f)
        ]
      ]

  module _ (digest : Bytes → Text) (send send' : Client → Request → Reply)
      (agree : AgreeOnSafe send send') where
    http_fetch-safe :
        (s : HttpSource) (etag : Text)
        → IsSafe s.client × IsPlain s.url
        → http_fetch parse digest send s etag ≡ http_fetch parse digest send' s etag
    unfolding http_fetch request
    http_fetch-safe s etag h =
        ap (λ reply. url_of (parse s.url) >>= λ u. answer digest s etag reply)
          (agree s.client (request s etag) h.0 h.1)

    fetch_blob-safe :
        (decoders : ManifestDecoders) (s : OciSource) (etag : Text) (l : Layer)
        → fetch_blob parse digest send decoders s etag l
          ≡ fetch_blob parse digest send' decoders s etag l
    unfolding fetch_blob
    fetch_blob-safe decoders s etag l =
        let address = part_url s.registry s.repository (codes "/blobs/") l.digest in
        elim (Try-cases (new_http_source parse address l.digest (some s.manifest.client))) [
          | inl (blob, e) ↦ rw e (
              ap
                (λ fetched. fetched >>= λ body.
                  require (int_eq (pos (length body.bytes)) l.size) (failure "checksum_mismatch")
                  >> ok (record body { etag = etag }))
                (http_fetch-safe blob []
                  (new_http_source-IsSafe address l.digest (some s.manifest.client) blob e)))
          | inr (inl (x, e)) ↦ rw e refl
          | inr (inr e) ↦ rw e refl
        ]

    follow-safe :
        (decoders : ManifestDecoders) (s : OciSource) (r : FetchResult)
        → follow parse digest send decoders s r ≡ follow parse digest send' decoders s r
    unfolding follow
    follow-safe decoders s r = elim (Bool-cases r.not_modified) [
      | inl n ↦ rw n refl
      | inr n ↦ rw n (elim (Try-cases (read_manifest decoders r.bytes)) [
        | inl (l, e) ↦ rw e (fetch_blob-safe decoders s r.etag l)
        | inr (inl (x, e)) ↦ rw e refl
        | inr (inr e) ↦ rw e refl
      ])
    ]

    -- What an OCI source that NewOCISource has made fetches does not change between two networks that
    -- answer alike the requests of clients that follow no redirect and time out within 30 seconds,
    -- to addresses with the scheme https and a host, and with no user, query or fragment.
    pub oci_fetch-safe :
        (decoders : ManifestDecoders) (registry repository pin etag : Text) (c : Option Client)
        (s : OciSource)
        → new_oci_source parse registry repository pin c ≡ ok s
        → oci_fetch parse digest send decoders s etag ≡ oci_fetch parse digest send' decoders s etag
    unfolding oci_fetch
    oci_fetch-safe decoders registry repository pin etag c s h =
        let same =
          http_fetch-safe s.manifest etag (new_oci_source-IsSafe registry repository pin c s h) in
        elim (Try-cases (http_fetch parse digest send' s.manifest etag)) [
          | inl (m, e) ↦ rw (same, e) (follow-safe decoders s m)
          | inr (inl (x, e)) ↦ rw (same, e) refl
          | inr (inr e) ↦ rw (same, e) refl
        ]
