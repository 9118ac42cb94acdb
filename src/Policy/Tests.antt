-- ===== src/Policy/Tests.antt =====
-- The unit tests of src/policy.rs, and the theorems at their inputs.
use cicache.Prelude.{
  ℕ, zero, suc, ap, arith, Option, ◌≡◌, ◌↔◌, ◌⊎◌, ◌≤◌, refl, Bool, true, false, none, some, List,
  [], ◌∷◌, ◌++◌, any,
}
use cicache.Text.Utf8.{Bytes, codes}
use cicache.Text.Compare.{same}
use cicache.Text.Search.{strip_prefix, ends_with, contains}
use cicache.Text.Split.{split, trim, trim_start_matches, trim_end_matches}
use cicache.Text.Number.{parse_u64}
use cicache.Http.{Field, UrlLib, values}
use cicache.Http.Instance.{listed, listed-laws, visible, Parts, parts}
use cicache.Policy.Hosts.{always_bypass, host_matches}
use cicache.Policy.CacheControl.{find_max_age, max_age}
use cicache.Policy.{
  Policy, ok, err, signed_url, authorized, not_immutable, too_small, too_large, status, no_store,
  bare_host, is_bypassed, is_signed_url, is_immutable_artifact, normalize, key, request_eligible,
  cache_control_of, response_storable,
}
use cicache.Text.Peel.{IsPeeled}
use cicache.Text.Fold.{to_ascii_lowercase_iff}
use cicache.Policy.Described.{Has, IsSigned, IsArtifact, Declares}
use cicache.Policy.Bypass.{Covers}
use cicache.Policy.Laws.{Lacks, request_eligible_iff, response_storable_iff}
use cicache.Policy.Keys.{
  UrlLaws, PartLaws, IsAlike, IsSamePort, key_injective, response_storable-first,
}

runs : Unit {0}
unfolding host_matches same ends_with contains strip_prefix split trim trim_start_matches
    trim_end_matches parse_u64 find_max_age max_age values visible bare_host is_bypassed
    is_signed_url is_immutable_artifact normalize key request_eligible cache_control_of
    response_storable any
runs = tt

abbrev policy : Policy
policy = record {
  min_size = 1024;
  max_size = 1048576;
  min_max_age = 3600;
  cache_all = false;
  cache_authorized = false;
  extra_bypass = codes "internal.example" ∷ [];
  key_prefix = codes "t";
}

abbrev url : Bytes → Bytes → List Field → Parts
url host path query = record {
  scheme = codes "https";
  host = some host;
  port = none;
  path = path;
  query = query;
  fragment = none;
}

abbrev tarball : Parts
tarball = url (codes "registry.npmjs.org") (codes "/a/-/a-1.tgz") []

abbrev index : Parts
index = url (codes "pypi.org") (codes "/simple/requests/") []

abbrev cache_control : Bytes → List Field
cache_control value = (codes "cache-control", value) ∷ []

abbrev bearer : List Field
bearer = (codes "authorization", codes "Bearer x") ∷ []

subdomains_match_but_suffixes_do_not :
    (host_matches (codes "a.b.example.com") (codes "example.com") ≡ true)
    × (host_matches (codes "example.com") (codes "example.com") ≡ true)
    × (host_matches (codes "notexample.com") (codes "example.com") ≡ false)
    × (host_matches (codes "com") (codes "example.com") ≡ false)
unfolding runs
subdomains_match_but_suffixes_do_not = (refl, refl, refl, refl)

configured_hosts_are_bypassed :
    (is_bypassed policy (codes "x.blob.core.windows.net") ≡ true)
    × (is_bypassed policy (codes "build.internal.example") ≡ true)
    × (is_bypassed policy (codes "[::1]") ≡ true)
    × (is_bypassed policy (codes "registry.npmjs.org") ≡ false)
unfolding runs
configured_hosts_are_bypassed = (refl, refl, refl, refl)

eligibility :
    (request_eligible parts listed policy (codes "GET") tarball [] ≡ ok)
    × (request_eligible parts listed policy (codes "GET") tarball bearer ≡ err authorized)
    × (request_eligible parts listed policy
          (codes "GET")
          (record tarball { query = (codes "X-Amz-Signature", codes "abc") ∷ [] })
          []
        ≡ err signed_url)
unfolding runs
eligibility = (refl, refl, refl)

storing :
    (response_storable parts listed policy index 200 [] 4096 ≡ err not_immutable)
    × (response_storable parts listed policy tarball 200 [] 4096 ≡ ok)
    × (response_storable parts listed policy index 200
          (cache_control (codes "public, max-age=31536000"))
          4096
        ≡ ok)
    × (response_storable parts listed policy tarball 200 [] 10 ≡ err too_small)
    × (response_storable parts listed policy tarball 200 [] 1073741824 ≡ err too_large)
    × (response_storable parts listed policy tarball 302 [] 4096 ≡ err status)
    × (response_storable parts listed policy tarball 200
          (cache_control (codes "Private, no-store"))
          4096
        ≡ err no_store)
unfolding runs
storing = (refl, refl, refl, refl, refl, refl, refl)

abbrev loopback : Parts
loopback = url (codes "[::1]") (codes "/") []

abbrev last_byte : Bytes → ℕ
last_byte [] = 0
last_byte (b ∷ []) = b
last_byte (b ∷ (c ∷ s)) = last_byte (c ∷ s)

last_byte-append : (t : Bytes) → last_byte (t ++ b']' ∷ []) ≡ b']'
last_byte-append [] = refl
last_byte-append (b ∷ []) = refl
last_byte-append (b ∷ (c ∷ t)) = last_byte-append (c ∷ t)

peeled : IsPeeled b'[' b']' (codes "[::1]") (codes "::1")
peeled = (
  codes "[",
  codes "]",
  (refl, tt),
  (refl, tt),
  refl,
  λ t e. ground (arith, e),
  λ t e. ground (arith, ap last_byte e, last_byte-append t),
)

request_eligible_iff_example :
    (request_eligible parts listed policy (codes "GET") loopback bearer ≡ ok) ↔ (
      (codes "GET" ≡ codes "GET")
      × (¬ Covers (codes "::1") (always_bypass ++ policy.extra_bypass))
      × ((◌≡◌ {A = Bool} false true)
          ⊎ (Lacks parts listed listed-laws bearer (codes "authorization")
              × Lacks parts listed listed-laws bearer (codes "cookie")))
      × (¬ IsSigned loopback.query))
request_eligible_iff_example =
    request_eligible_iff parts listed listed-laws policy (codes "GET") loopback bearer (codes "::1")
      peeled

abbrev mixed : List Field
mixed = cache_control (codes "Public, Immutable")

abbrev said : Bytes
said = codes "public, immutable"

response_storable_iff_example :
    (response_storable parts listed policy tarball 200 mixed 4096 ≡ ok) ↔ (
      (◌≡◌ {A = ℕ} 200 200)
      × ((¬ Has said (codes "no-store"))
          × (¬ Has said (codes "no-cache"))
          × (¬ Has said (codes "private")))
      × (1024 ≤ 4096)
      × (4096 ≤ 1048576)
      × ((◌≡◌ {A = Bool} false true)
          ⊎ (Has said (codes "immutable")
              ⊎ (((age : ℕ) × Declares said age × (3600 ≤ age))
                  ⊎ IsArtifact (codes "registry.npmjs.org") (codes "/a/-/a-1.tgz")))))
unfolding runs
response_storable_iff_example =
    response_storable_iff parts listed listed-laws policy tarball 200 mixed 4096 said
      ((to_ascii_lowercase_iff (codes "Public, Immutable") said).0 refl)

parts-laws : UrlLaws parts
parts-laws = record { set_fragment_twice = λ u f g. refl }

abbrev marked : Bytes → Bytes
marked s = 0 ∷ s

-- URLs of one host that are their texts: a port, or 0 for none, and a path.
abbrev with_no_port : Bytes → Bytes
with_no_port [] = []
with_no_port (port ∷ path) = 0 ∷ path

abbrev port_of : Bytes → Option ℕ
port_of [] = none
port_of (zero ∷ path) = none
port_of (suc n ∷ path) = some (suc n)

abbrev path_of : Bytes → Bytes
path_of [] = []
path_of (port ∷ path) = path

abbrev with_port : Bytes → Option ℕ → Bytes
with_port u none = with_no_port u
with_port u (some n) = n ∷ path_of u

abbrev texts : UrlLib
texts = record {
  Url = Bytes;
  parse = some;
  scheme = λ u. codes "https";
  host_str = λ u. some (codes "e.org");
  port = port_of;
  path = path_of;
  query_pairs = λ u. [];
  set_fragment = λ u f. u;
  set_port = with_port;
  to_string = λ u. u;
}

path_of-with_port : (u : Bytes) (p : Option ℕ) → path_of (with_port u p) ≡ path_of u
path_of-with_port [] none = refl
path_of-with_port (n ∷ u) none = refl
path_of-with_port u (some n) = refl

no_port : (u : Bytes) → port_of (with_no_port u) ≡ none
no_port [] = refl
no_port (n ∷ u) = refl

texts-laws : PartLaws texts
texts-laws = record {
  same_parts = λ u v e. record { scheme = refl; host = refl; path = ap path_of e; query = refl };
  same_port = λ u v e. ap port_of e;
  fragment_parts = λ u f. record { scheme = refl; host = refl; path = refl; query = refl };
  fragment_port = λ u f. refl;
  port_parts =
      λ u p. record { scheme = refl; host = refl; path = path_of-with_port u p; query = refl };
  port_removed = λ u s. no_port u;
}

-- A URL with the port of HTTPS and one without have one key.
key_injective_example :
    IsAlike texts (443 ∷ codes "/a") (0 ∷ codes "/a") × IsSamePort (codes "https") (some 443) none
unfolding runs
key_injective_example =
    key_injective texts texts-laws marked policy (443 ∷ codes "/a") (0 ∷ codes "/a") (λ e. refl)
      refl

response_storable-first_example :
    response_storable parts listed policy tarball 200
      (cache_control (codes "public") ++ cache_control (codes "no-store"))
      4096
    ≡ response_storable parts listed policy tarball 200 (cache_control (codes "public")) 4096
unfolding runs
response_storable-first_example =
    response_storable-first parts listed listed-laws policy tarball 200
      (cache_control (codes "public") ++ cache_control (codes "no-store"))
      (cache_control (codes "public")) 4096 (codes "public") (codes "no-store" ∷ []) [] refl refl
