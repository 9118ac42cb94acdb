-- ===== src/Policy/Laws.antt =====
-- The verdicts of the policy, each described by what it means for the request or the response.
use cicache.Prelude.{
  ℕ, ◌≤◌, ◌≡◌, ◌↔◌, ◌⊎◌, inl, inr, refl, ◌||◌, Option, true, false, none, some, List, [], ◌∷◌, ◌++◌,
  arith, Bool-cases,
}
use cicache.Text.Utf8.{Bytes, codes}
use cicache.Text.Compare.{same_iff}
use cicache.Text.Search.{contains, contains_iff}
use cicache.Text.Peel.{IsPeeled}
use cicache.Http.{HeaderLib, HeaderLaws, UrlLib, values, first, is_some}
use cicache.Policy.Hosts.{always_bypass}
use cicache.Policy.CacheControl.{max_age, forbids_storing}
use cicache.Policy.Bypass.{Covers, not_bypassed_as}
use cicache.Policy.Described.{
  Has, IsSigned, IsArtifact, Declares, Says, Says-cache_control_of, max_age_iff, is_signed_url_iff,
  is_immutable_artifact_iff,
}
use cicache.Policy.{
  Policy, ok, or_empty, at_least, is_signed_url, is_immutable_artifact, request_eligible,
  response_storable,
}

module _ (urls : UrlLib) (lib : HeaderLib) (laws : HeaderLaws lib) where
  -- The request carries no field of the name.
  abbrev pub Lacks : lib.HeaderMap → Bytes → Type 0
  Lacks headers name = values name (lib.iter headers) ≡ []

  Lacks-iff :
      (headers : lib.HeaderMap) (name : Bytes)
      → (lib.contains_key headers name ≡ false) ↔ Lacks headers name
  Lacks-iff headers name =
      rw (laws.contains_key_lem headers name, laws.get_lem headers name)
        (none_iff (values name (lib.iter headers)))
    where
      none_iff : (vs : List Bytes) → (is_some (first vs) ≡ false) ↔ (vs ≡ [])
      none_iff [] = ground arith
      none_iff (v ∷ vs) = ground arith

  -- A request may be served from the cache exactly if it is a GET for a host that is not bypassed,
  -- carries no credentials or these are allowed, and its URL has no parameter whose name, in lower
  -- case, is one of a signature. `host` is the URL's host, or nothing where it has none, without the
  -- brackets around it.
  pub request_eligible_iff :
      (p : Policy) (method : Bytes) (url : urls.Url) (headers : lib.HeaderMap) (host : Bytes)
      → IsPeeled b'[' b']' (or_empty (urls.host_str url)) host
      → (request_eligible urls lib p method url headers ≡ ok) ↔ (
          (method ≡ codes "GET")
          × (¬ Covers host (always_bypass ++ p.extra_bypass))
          × ((p.cache_authorized ≡ true)
              ⊎ (Lacks headers (codes "authorization") × Lacks headers (codes "cookie")))
          × (¬ IsSigned (urls.query_pairs url)))
  unfolding request_eligible
  request_eligible_iff p method url headers host bare =
      let (free, bypassed) = not_bypassed_as p (or_empty (urls.host_str url)) host bare in
      (
        λ h. (
          ground (arith, same_iff method (codes "GET")),
          free (ground arith),
          ground (
            arith,
            Lacks-iff headers (codes "authorization"),
            Lacks-iff headers (codes "cookie"),
          ),
          λ signed. absurd (ground (arith, (is_signed_url_iff urls url).1 signed)),
        ),
        λ (get, open_host, credentials, unsigned). ground (
          unsigned_test unsigned,
          arith,
          same_iff method (codes "GET"),
          bypassed open_host,
          Lacks-iff headers (codes "authorization"),
          Lacks-iff headers (codes "cookie"),
        ),
      )
    where
      unsigned_test : ¬ IsSigned (urls.query_pairs url) → is_signed_url urls url ≡ false
      unsigned_test unsigned = elim (Bool-cases (is_signed_url urls url)) [
        | inl signed ↦ absurd (unsigned ((is_signed_url_iff urls url).0 signed))
        | inr clear ↦ clear
      ]

  forbids_storing_iff :
      (said : Bytes)
      → (forbids_storing said ≡ false) ↔ (
          (¬ Has said (codes "no-store"))
          × (¬ Has said (codes "no-cache"))
          × (¬ Has said (codes "private")))
  forbids_storing_iff said =
      let (store, stored) = contains_iff said (codes "no-store") in
      let (cache, cached) = contains_iff said (codes "no-cache") in
      let (own, owned) = contains_iff said (codes "private") in
      (
        λ e. (
          λ h. absurd (ground (arith, e, stored h)),
          λ h. absurd (ground (arith, e, cached h)),
          λ h. absurd (ground (arith, e, owned h)),
        ),
        λ (no_store, no_cache, not_private). ground (
          arith,
          without_part (codes "no-store") no_store,
          without_part (codes "no-cache") no_cache,
          without_part (codes "private") not_private,
        ),
      )
    where
      without_part : (part : Bytes) → ¬ Has said part → contains said part ≡ false
      without_part part lacks = elim (Bool-cases (contains said part)) [
        | inl held ↦ absurd (lacks ((contains_iff said part).0 held))
        | inr clear ↦ clear
      ]

  at_least_iff :
      (least : ℕ) (age : Option ℕ)
      → (at_least least age ≡ true) ↔ ((n : ℕ) × (age ≡ some n) × (least ≤ n))
  at_least_iff least none = (λ e. absurd (cc e), λ (n, e, h). absurd (cc e))
  at_least_iff least (some age) = (λ e. (age, refl, ground arith), λ (n, e, h). ground arith)

  signal_iff :
      (p : Policy) (url : urls.Url) (said : Bytes)
      → ((p.cache_all
            || contains said (codes "immutable")
            || at_least p.min_max_age (max_age said)
            || is_immutable_artifact urls url)
          ≡ true)
        ↔ ((p.cache_all ≡ true)
            ⊎ (Has said (codes "immutable")
                ⊎ (((age : ℕ) × Declares said age × (p.min_max_age ≤ age))
                    ⊎ IsArtifact (or_empty (urls.host_str url)) (urls.path url))))
  signal_iff p url said =
      let (holds, held) = contains_iff said (codes "immutable") in
      let (artifact, listed) = is_immutable_artifact_iff urls url in
      let (old, aged) = at_least_iff p.min_max_age (max_age said) in
      (
        λ e. elim (Bool-cases p.cache_all) [
          | inl all ↦ inl all
          | inr some_only ↦ elim (Bool-cases (contains said (codes "immutable"))) [
            | inl says ↦ inr (inl (holds says))
            | inr silent ↦ elim (Bool-cases (at_least p.min_max_age (max_age said))) [
              | inl long ↦
                  let (age, found, enough) = old long in
                  inr (inr (inl (age, (max_age_iff said age).0 found, enough)))
              | inr short ↦ inr (inr (inr (artifact (ground (arith, e, some_only, silent, short)))))
            ]
          ]
        ],
        λ signal. elim signal [
          | inl all ↦ ground (arith, all)
          | inr (inl says) ↦ ground (arith, held says)
          | inr (inr (inl (age, declared, enough))) ↦
              ground (arith, aged (age, (max_age_iff said age).1 declared, enough))
          | inr (inr (inr known)) ↦ ground (arith, listed known)
        ],
      )

  -- A response of which the first `Cache-Control` value, in lower case, is `said`, or empty where
  -- there is none or it is no text, may be stored exactly if its status is 200, `said` holds none of
  -- `no-store`, `no-cache` and `private`, its size is within the bounds, and all is cached, or `said`
  -- holds `immutable` or its first `max-age` is a number and long enough, or the URL is that of an
  -- artifact by the table of hosts and paths.
  pub response_storable_iff :
      (p : Policy) (url : urls.Url) (code : ℕ) (headers : lib.HeaderMap) (len : ℕ) (said : Bytes)
      → Says lib headers said
      → (response_storable urls lib p url code headers len ≡ ok) ↔ (
          (code ≡ 200)
          × ((¬ Has said (codes "no-store"))
              × (¬ Has said (codes "no-cache"))
              × (¬ Has said (codes "private")))
          × (p.min_size ≤ len)
          × (len ≤ p.max_size)
          × ((p.cache_all ≡ true)
              ⊎ (Has said (codes "immutable")
                  ⊎ (((age : ℕ) × Declares said age × (p.min_max_age ≤ age))
                      ⊎ IsArtifact (or_empty (urls.host_str url)) (urls.path url)))))
  unfolding response_storable
  response_storable_iff p url code headers len said says =
      rw (Says-cache_control_of lib urls laws headers said says) (
        λ h. (
          ground arith,
          (forbids_storing_iff said).0 (ground arith),
          ground arith,
          ground arith,
          (signal_iff p url said).0 (ground arith),
        ),
        λ (found, permits, low, high, signal).
            ground (arith, (forbids_storing_iff said).1 permits, (signal_iff p url said).1 signal),
      )
