-- ===== src/Policy.antt =====
-- src/policy.rs: which responses may be stored, and under what key. A method is given by its name.
pub mod Hosts
pub mod Described
pub mod Bypass
pub mod CacheControl
pub mod Laws
pub mod Keys
mod Tests
use cicache.Prelude.{
  ℕ, ◌≡◌, Bool, true, false, ◌&&◌, ◌||◌, not, Option, none, some, List, [], ◌∷◌, ◌++◌, ltb, leb,
  ◌==◌, if◌then◌else◌, any,
}
use cicache.Text.Utf8.{Bytes, codes}
use cicache.Text.Compare.{same}
use cicache.Text.Search.{contains}
use cicache.Text.Split.{trim_start_matches, trim_end_matches, to_ascii_lowercase}
use cicache.Http.{Field, HeaderLib, UrlLib}
use Hosts.{always_bypass, immutable, host_matches}
use CacheControl.{max_age, forbids_storing}

abbrev pub signature_params : List Bytes
signature_params =
    codes "x-amz-signature"
    ∷ codes "x-goog-signature"
    ∷ codes "signature"
    ∷ codes "sig"
    ∷ codes "token"
    ∷ codes "se"
    ∷ codes "sp"
    ∷ []

pub record Policy : Type 0 where
  pub min_size : ℕ
  pub max_size : ℕ
  pub min_max_age : ℕ
  pub cache_all : Bool
  pub cache_authorized : Bool
  pub extra_bypass : List Bytes
  pub key_prefix : Bytes

pub data Reject : Type 0 where
  not_get bypass_host authorized signed_url status no_store too_small too_large not_immutable :
      Reject

abbrev pub as_str : Reject → Bytes
as_str not_get = codes "not a GET"
as_str bypass_host = codes "bypassed host"
as_str authorized = codes "authenticated request"
as_str signed_url = codes "pre-signed URL"
as_str status = codes "non-200 status"
as_str no_store = codes "no-store/no-cache/private"
as_str too_small = codes "below min-size"
as_str too_large = codes "above max-size"
as_str not_immutable = codes "no immutability signal"

-- `Result<(), Reject>`.
pub data Verdict : Type 0 where
  ok : Verdict
  err : Reject → Verdict

abbrev pub or_empty : Option Bytes → Bytes
or_empty none = []
or_empty (some s) = s

unfoldable pub bare_host : Bytes → Bytes
bare_host host = trim_end_matches b']' (trim_start_matches b'[' host)

unfoldable pub is_bypassed : Policy → Bytes → Bool
is_bypassed p host =
    any (λ pattern. host_matches (bare_host host) pattern) (always_bypass ++ p.extra_bypass)

-- `is_some_and(|age| age >= min_max_age)`.
abbrev pub at_least : ℕ → Option ℕ → Bool
at_least least none = false
at_least least (some age) = leb least age

abbrev pub is_default_port : Bytes → Option ℕ → Bool
is_default_port scheme none = false
is_default_port scheme (some port) =
    (same scheme (codes "https") && port == 443) || (same scheme (codes "http") && port == 80)

module _ (urls : UrlLib) where
  unfoldable pub is_signed_url : urls.Url → Bool
  is_signed_url url =
      any (λ (pair : Field). any (λ param. same param (to_ascii_lowercase pair.0)) signature_params)
        (urls.query_pairs url)

  unfoldable pub is_immutable_artifact : urls.Url → Bool
  is_immutable_artifact url =
      any
        (λ (entry : Bytes × Bytes).
          host_matches (or_empty (urls.host_str url)) entry.0
          && (same entry.1 [] || contains (urls.path url) entry.1))
        immutable

  -- Canonical URL: the fragment and a default port dropped.
  unfoldable pub normalize : urls.Url → Bytes
  normalize url =
      let bare = urls.set_fragment url none in
      urls.to_string (
        if is_default_port (urls.scheme bare) (urls.port bare)
        then urls.set_port bare none
        else bare)

  -- `digest` is `hex::encode` of the SHA-256 hasher's result.
  unfoldable pub key : (Bytes → Bytes) → Policy → urls.Url → Bytes
  key digest p url = p.key_prefix ++ (b'-' ∷ digest (codes "GET" ++ (10 ∷ normalize url)))

  module _ (lib : HeaderLib) where
    unfoldable pub request_eligible : Policy → Bytes → urls.Url → lib.HeaderMap → Verdict
    request_eligible p method url headers =
        if not (same method (codes "GET"))
        then err not_get
        else if is_bypassed p (or_empty (urls.host_str url))
        then err bypass_host
        else if not p.cache_authorized
            && (lib.contains_key headers (codes "authorization")
                || lib.contains_key headers (codes "cookie"))
        then err authorized
        else if is_signed_url url
        then err signed_url
        else ok

    -- `get` gives the first value of the name; one that is no text counts as empty.
    unfoldable pub cache_control_of : lib.HeaderMap → Bytes
    cache_control_of headers = to_ascii_lowercase (elim (lib.get headers (codes "cache-control")) [
      | none ↦ []
      | some v ↦ or_empty (lib.to_str v)
    ])

    unfoldable pub response_storable : Policy → urls.Url → ℕ → lib.HeaderMap → ℕ → Verdict
    response_storable p url code headers len =
        let cache_control = cache_control_of headers in
        if not (code == 200)
        then err status
        else if forbids_storing cache_control
        then err no_store
        else if ltb len p.min_size
        then err too_small
        else if ltb p.max_size len
        then err too_large
        else if p.cache_all
            || contains cache_control (codes "immutable")
            || at_least p.min_max_age (max_age cache_control)
            || is_immutable_artifact url
        then ok
        else err not_immutable
