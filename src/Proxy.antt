-- ===== src/Proxy.antt =====
-- src/proxy.rs: what the proxy does to the headers of requests and responses, and how it answers
-- from a cached entry.
pub mod Headers
pub mod Clients
pub mod Serving
pub mod Caching
pub mod Forwarding
pub mod Dispatch
pub mod Recording
pub mod Routing
pub mod Sessions
pub mod Preservation
pub mod Instance
mod Tests
mod ServingTests
mod RoutingTests
mod SessionsTests
use cicache.Prelude.{ℕ, ◌||◌, List, [], ◌∷◌, Option, none, some, length, if◌then◌else◌}
use cicache.Text.Utf8.{Bytes, codes}
use cicache.Text.Compare.{same}
use cicache.Text.Number.{decimal}
use cicache.Http.{Field, HeaderLib}
use cicache.Entry.{Entry, contains, header_map}

abbrev pub hop_by_hop : List Bytes
hop_by_hop =
    codes "connection"
    ∷ codes "keep-alive"
    ∷ codes "proxy-authenticate"
    ∷ codes "proxy-authorization"
    ∷ codes "proxy-connection"
    ∷ codes "te"
    ∷ codes "trailer"
    ∷ codes "transfer-encoding"
    ∷ codes "upgrade"
    ∷ []

module _ (lib : HeaderLib) where
  -- A response whose body is at hand.
  pub record Response : Type 0 where
    pub status : ℕ
    pub headers : lib.HeaderMap
    pub body : Bytes

  unfoldable pub sanitize_from : lib.HeaderMap → List Field → lib.HeaderMap
  sanitize_from out [] = out
  sanitize_from out ((name, value) ∷ fields) =
      sanitize_from
        (if contains hop_by_hop name || same name (codes "host")
          then out
          else lib.append out name value)
        fields

  unfoldable pub sanitize : lib.HeaderMap → lib.HeaderMap
  sanitize headers = sanitize_from lib.empty (lib.iter headers)

  insert_parsed : Option Bytes → lib.HeaderMap → lib.HeaderMap
  insert_parsed none headers = headers
  insert_parsed (some value) headers = lib.insert headers (codes "x-cicache") value

  unfoldable pub insert_cache_header : lib.HeaderMap → Bytes → lib.HeaderMap
  unfolding insert_parsed
  insert_cache_header headers cache = insert_parsed (lib.from_str cache) headers

  -- The digits of a length always parse as a value. `headers_mut` gives the headers, since the
  -- builder holds no error: the status is one already.
  unfoldable pub build : ℕ → lib.HeaderMap → Bytes → Bytes → Response
  build status headers body cache = record {
    status = status;
    headers =
        insert_cache_header
          (lib.insert (lib.remove headers (codes "content-length")) (codes "content-length")
            (decimal (length body)))
          cache;
    body = body;
  }

  abbrev pub status_or_ok : Option ℕ → ℕ
  status_or_ok none = 200
  status_or_ok (some status) = status

  -- `from_u16` is that of `StatusCode`.
  unfoldable pub replay : (ℕ → Option ℕ) → Entry → Response
  replay from_u16 entry =
      build (status_or_ok (from_u16 entry.header.status)) (header_map lib entry) entry.body
        (codes "HIT")
