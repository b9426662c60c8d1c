-- ===== src/Policy/Sources/Pinned.antt =====
-- Proofs on the sources of archives: what is fetched is what was pinned.
use normgate.Prelude.{
  ℕ, ◌≡◌, ◌≢◌, ◌⊎◌, inl, inr, arith, true, false, Bool-cases, none, some, [], ◌≤◌, length, Option,
  ◌==◌,
}
use normgate.Text.{text_eq_iff, Text, text_eq, text_eq→eq}
use normgate.Text.Utf8.{Bytes, byte_length}
use normgate.Policy.{ok, Try-cases}
use normgate.Policy.Bundle.Archive.{read_bounded, max_compressed}
use normgate.Policy.Manager.{FetchResult}
use normgate.Policy.Sources.{opened, FileSource, FileWorld, file_fetch, is_abs}
use normgate.Policy.Sources.Http.{
  request, Url, Client, HttpSource, Request, Response, Reply, cancelled, unavailable, replied,
  accept, answer, http_fetch, new_http_source, url_of,
}

read_bounded-ok :
    (content : Option Bytes) (limit : ℕ) (raw : Bytes)
    → read_bounded content limit ≡ ok raw
    → (content ≡ some raw) × (length raw ≤ limit)
unfolding read_bounded
read_bounded-ok none limit raw h = absurd (ground arith)
read_bounded-ok (some bytes) limit raw h = ground arith

module _ (digest : Bytes → Text) where
  -- What a file source gives.
  pub record IsRead (w : FileWorld) (s : FileSource) (etag : Text) (r : FetchResult) : Type 0 where
    pub absolute : is_abs s.path ≡ true
    pub pinned : s.checksum ≢ [] → digest r.bytes ≡ s.checksum
    pub bounded : length r.bytes ≤ max_compressed
    pub tagged : r.etag ≡ digest r.bytes
    pub unchanged : r.not_modified ≡ text_eq etag (digest r.bytes)

  -- What an HTTP source gives: the answer that its caller's bytes are current, or pinned bytes.
  abbrev pub IsAnswer : HttpSource → Text → FetchResult → Type 0
  IsAnswer s etag r =
      ((r.not_modified ≡ true) × (etag ≢ []) × (r.etag ≡ etag) × (r.bytes ≡ []))
      ⊎ ((r.not_modified ≡ false)
          × (digest r.bytes ≡ s.checksum)
          × (length r.bytes ≤ max_compressed)
          × (byte_length r.etag ≤ 1024))

  module _ (parse : Text → Option Url) (send : Client → Request → Reply) where
    accept-ok :
        (s : HttpSource) (r : Response) (x : FetchResult)
        → accept digest s r ≡ ok x
        → (x.not_modified ≡ false)
          × (digest x.bytes ≡ s.checksum)
          × (length x.bytes ≤ max_compressed)
          × (byte_length x.etag ≤ 1024)
    unfolding accept
    accept-ok s r x h = elim (Try-cases (read_bounded r.body max_compressed)) [
      | inr e ↦ absurd (ground arith)
      | inl (raw, e) ↦
          let short = (read_bounded-ok r.body max_compressed raw e).1 in
          ground (arith, text_eq→eq (digest raw) s.checksum)
    ]

    answer-IsAnswer :
        (s : HttpSource) (etag : Text) (r : Reply) (x : FetchResult)
        → answer digest s etag r ≡ ok x
        → IsAnswer s etag x
    unfolding answer
    answer-IsAnswer s etag cancelled x h = absurd (ground arith)
    answer-IsAnswer s etag unavailable x h = absurd (ground arith)
    answer-IsAnswer s etag (replied r) x h = elim (Bool-cases (r.status_code == 304)) [
      | inl n ↦ elim (Bool-cases (text_eq etag [])) [
        | inl e ↦ absurd (ground arith)
        | inr e ↦ inl (
          ground arith,
          (λ f. absurd (ground (arith, text_eq_iff etag []))),
          ground arith,
          ground arith,
        )
      ]
      | inr n ↦ elim (Bool-cases (r.status_code == 200)) [
        | inl o ↦ inr (accept-ok s r x (ground arith))
        | inr o ↦ absurd (ground arith)
      ]
    ]

    -- A successful fetch over HTTP has either an ETag of the caller's to confirm, which is not
    -- empty, and then no bytes, or gives bytes whose digest is the pinned one, no longer than an
    -- archive may be, with an ETag of at most 1024 bytes.
    pub http_fetch-IsAnswer :
        (s : HttpSource) (etag : Text) (x : FetchResult)
        → http_fetch parse digest send s etag ≡ ok x
        → IsAnswer s etag x
    unfolding http_fetch
    http_fetch-IsAnswer s etag x h = elim (Try-cases (url_of (parse s.url))) [
      | inr e ↦ absurd (ground arith)
      | inl (u, e) ↦ answer-IsAnswer s etag (send s.client (request s etag)) x (ground arith)
    ]

    pub new_http_source-ok :
        (address checksum : Text) (c : Option Client) (s : HttpSource)
        → new_http_source parse address checksum c ≡ ok s
        → (s.url ≡ address) × (s.checksum ≡ checksum)
    unfolding new_http_source
    new_http_source-ok address checksum c s h = elim (Try-cases (url_of (parse address))) [
      | inr e ↦ absurd (ground arith)
      | inl (u, e) ↦ ground arith
    ]

  file_fetch-IsRead :
      (w : FileWorld) (s : FileSource) (etag : Text) (r : FetchResult)
      → file_fetch digest w s etag ≡ ok r
      → IsRead w s etag r
  unfolding file_fetch
  file_fetch-IsRead w s etag r h = elim (Try-cases (opened (w.open_file s.path))) [
    | inr e ↦ absurd (ground arith)
    | inl (f, e) ↦ elim (Try-cases (read_bounded f.content max_compressed)) [
      | inr g ↦ absurd (ground arith)
      | inl (raw, g) ↦
          let short = (read_bounded-ok f.content max_compressed raw g).1 in
          record {
            absolute = ground arith;
            pinned =
                λ n. ground (arith, text_eq_iff s.checksum [], text_eq→eq s.checksum (digest raw));
            bounded = ground arith;
            tagged = ground arith;
            unchanged = ground arith;
          }
    ]
  ]
