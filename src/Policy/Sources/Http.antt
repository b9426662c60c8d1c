-- ===== src/Policy/Sources/Http.antt =====
-- HTTPSource of internal/policy/source.go. Packages net/url and net/http are parameters: what
-- url.Parse reads, and what the exchange of a request gives.
use normgate.Prelude.{
  ℕ, ◌*◌, ◌^◌, ℤ, pos, int_ltb, Bool, true, false, ◌&&◌, ◌||◌, not, Option, none, some, [], ◌++◌,
  leb, ◌==◌, if◌then◌else◌,
}
use normgate.Text.{Text, codes, text_eq}
use normgate.Text.Utf8.{Bytes, byte_length}
use normgate.Policy.{context_error, failure, Try, ok, err, ◌>>=◌, ◌>>◌, require}
use normgate.Policy.Bundle.Archive.{read_bounded, max_compressed}
use normgate.Policy.Manager.{FetchResult, Source, is_digest}

-- What url.Parse reads of an address.
pub record Url : Type 0 where
  pub scheme : Text
  pub has_user : Bool
  pub host : Text
  pub path : Text
  pub raw_query : Text
  pub fragment : Text

-- An http.Client: its timeout in nanoseconds, and whether it follows redirects.
pub record Client : Type 0 where
  pub timeout : ℤ
  pub follows_redirects : Bool

pub record HttpSource : Type 0 where
  pub url : Text
  pub checksum : Text
  pub client : Client

pub record Request : Type 0 where
  pub url : Text
  pub accept : Text
  pub if_none_match : Option Text

pub record Response : Type 0 where
  pub status_code : ℕ
  pub etag : Text
  pub body : Option Bytes

-- What Client.Do gives: a response, or an error with the context cancelled or not.
pub data Reply : Type 0 where
  cancelled : Reply
  unavailable : Reply
  replied : Response → Reply

abbrev pub max_timeout : ℕ
max_timeout = 30 * 10 ^ 9

-- The tests on the address and the checksum.
unfoldable pub is_plain : Url → Bool
unfolding text_eq
is_plain u =
    text_eq u.scheme (codes "https")
    && not (text_eq u.host [])
    && not u.has_user
    && text_eq u.raw_query []
    && text_eq u.fragment []

unfoldable pub url_of : Option Url → Try Url
url_of none = err (failure "invalid_source")
url_of (some u) = ok u

abbrev default_client : Client
default_client = record { timeout = pos max_timeout; follows_redirects = true }

abbrev pub client_of : Option Client → Client
client_of none = default_client
client_of (some c) = c

-- The copy of the client that is kept.
unfoldable pub safe_client : Client → Client
safe_client c = record {
  timeout =
      if not (int_ltb (pos 0) c.timeout) || int_ltb (pos max_timeout) c.timeout
      then pos max_timeout
      else c.timeout;
  follows_redirects = false;
}

-- HTTPSource.ID
unfoldable pub http_id : HttpSource → Text
http_id s = s.url ++ codes "#" ++ s.checksum

-- The request of a Fetch.
unfoldable pub request : HttpSource → Text → Request
request s etag = record {
  url = s.url;
  accept = codes "application/vnd.oci.image.manifest.v1+json, application/octet-stream";
  if_none_match = if text_eq etag [] then none else some etag;
}

module _ (digest : Bytes → Text) where
  -- A response with the status OK.
  unfoldable pub accept : HttpSource → Response → Try FetchResult
  accept s r = do
    raw ← read_bounded r.body max_compressed
    require (text_eq (digest raw) s.checksum) (failure "checksum_mismatch")
    require (leb (byte_length r.etag) 1024) (failure "invalid_response")
    ok (record { bytes = raw; etag = r.etag; not_modified = false })

  unfoldable pub answer : HttpSource → Text → Reply → Try FetchResult
  unfolding accept
  answer s etag cancelled = err context_error
  answer s etag unavailable = err (failure "source_unavailable")
  answer s etag (replied r) =
      if r.status_code == 304
      then (if text_eq etag []
          then err (failure "invalid_response")
          else ok (record { bytes = []; etag = etag; not_modified = true }))
      else if r.status_code == 200
      then accept s r
      else err (failure "source_unavailable")

module _ (parse : Text → Option Url) where
  -- NewHTTPSource
  unfoldable pub new_http_source : Text → Text → Option Client → Try HttpSource
  unfolding is_plain url_of
  new_http_source address checksum client = do
    u ← url_of (parse address)
    require (is_plain u && is_digest checksum) (failure "invalid_source")
    ok (record { url = address; checksum = checksum; client = safe_client (client_of client) })

  module _ (digest : Bytes → Text) (send : Client → Request → Reply) where
    -- HTTPSource.Fetch. The request cannot be made of an address that url.Parse refuses.
    unfoldable pub http_fetch : HttpSource → Text → Try FetchResult
    unfolding answer
    http_fetch s etag = do
      _ ← url_of (parse s.url)
      answer digest s etag (send s.client (request s etag))

    -- HTTPSource as a Source of the manager
    unfoldable pub http_source : HttpSource → Source
    http_source s = record { id = http_id s; fetch = http_fetch s }
