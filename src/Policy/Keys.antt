-- ===== src/Policy/Keys.antt =====
-- What a key and a verdict depend on.
use cicache.Prelude.{
  ℕ, ◌≡◌, ◌⊎◌, inl, inr, refl, sym, ap, ◌∙◌, true, ◌&&◌, Option, none, some, List, ◌∷◌, ◌++◌, ◌==◌,
  arith, append_cancel_left, Bool-cases, if◌then◌else◌,
}
use mathlib.Core.Path.{subst}
use cicache.Text.Utf8.{Bytes, codes}
use cicache.Text.Compare.{same, same_iff}
use cicache.Http.{HeaderLib, HeaderLaws, UrlLib, values}
use cicache.Policy.{Policy, is_default_port, normalize, key, cache_control_of, response_storable}

-- What the documentation of `url` says of `set_fragment`: it replaces the fragment.
pub record UrlLaws (urls : UrlLib) : Type 0 where
  pub set_fragment_twice :
      (u : urls.Url) (f g : Option Bytes)
      → urls.set_fragment (urls.set_fragment u f) g ≡ urls.set_fragment u g

module _ (urls : UrlLib) (digest : Bytes → Bytes) (p : Policy) where
  -- The fragment of a URL does not change its key.
  pub key-set_fragment :
      (laws : UrlLaws urls) (u : urls.Url) (f : Option Bytes)
      → key urls digest p (urls.set_fragment u f) ≡ key urls digest p u
  unfolding key normalize
  key-set_fragment laws u f =
      ap
        (λ bare.
          p.key_prefix
          ++ (b'-'
              ∷ digest (
                  codes "GET"
                  ++ (10
                      ∷ urls.to_string (
                          if is_default_port (urls.scheme bare) (urls.port bare)
                          then urls.set_port bare none
                          else bare)))))
        (laws.set_fragment_twice u f none)

-- The URLs agree but for the port and the fragment.
pub record IsAlike (urls : UrlLib) (u v : urls.Url) : Type 0 where
  pub scheme : urls.scheme u ≡ urls.scheme v
  pub host : urls.host_str u ≡ urls.host_str v
  pub path : urls.path u ≡ urls.path v
  pub query : urls.query_pairs u ≡ urls.query_pairs v

-- What the documentation of `url` says of these operations: URLs of one text are equal, so their
-- parts are; the setters change no other part; and a port that is removed of an HTTP URL is gone.
pub record PartLaws (urls : UrlLib) : Type 0 where
  pub same_parts : (u v : urls.Url) → urls.to_string u ≡ urls.to_string v → IsAlike urls u v
  pub same_port : (u v : urls.Url) → urls.to_string u ≡ urls.to_string v → urls.port u ≡ urls.port v
  pub fragment_parts : (u : urls.Url) (f : Option Bytes) → IsAlike urls (urls.set_fragment u f) u
  pub fragment_port :
      (u : urls.Url) (f : Option Bytes) → urls.port (urls.set_fragment u f) ≡ urls.port u
  pub port_parts : (u : urls.Url) (p : Option ℕ) → IsAlike urls (urls.set_port u p) u
  pub port_removed :
      (u : urls.Url)
      → (urls.scheme u ≡ codes "https") ⊎ (urls.scheme u ≡ codes "http")
      → urls.port (urls.set_port u none) ≡ none

-- 443 for HTTPS and 80 for HTTP.
abbrev pub IsDefault : Bytes → Option ℕ → Type 0
IsDefault scheme port =
    ((scheme ≡ codes "https") × (port ≡ some 443)) ⊎ ((scheme ≡ codes "http") × (port ≡ some 80))

-- The ports are equal, or one is left out and the other is the scheme's.
abbrev pub IsSamePort : Bytes → Option ℕ → Option ℕ → Type 0
IsSamePort scheme p q =
    (p ≡ q) ⊎ ((IsDefault scheme p × (q ≡ none)) ⊎ (IsDefault scheme q × (p ≡ none)))

is_default_port-IsDefault :
    (scheme : Bytes) (port : Option ℕ)
    → (is_default_port scheme port ≡ true)
    → IsDefault scheme port
is_default_port-IsDefault scheme none e = absurd (cc e)
is_default_port-IsDefault scheme (some n) e =
    elim (Bool-cases (same scheme (codes "https") && n == 443)) [
      | inl secure ↦
          inl ((same_iff scheme (codes "https")).0 (ground (arith, secure)), ground (arith, secure))
      | inr other ↦
          inr (
            (same_iff scheme (codes "http")).0 (ground (arith, e, other)),
            ground (arith, e, other),
          )
    ]

module _ (urls : UrlLib) (laws : PartLaws urls) where
  IsAlike-trans : (u v w : urls.Url) → IsAlike urls u v → IsAlike urls v w → IsAlike urls u w
  IsAlike-trans u v w a b = record {
    scheme = a.scheme ∙ b.scheme;
    host = a.host ∙ b.host;
    path = a.path ∙ b.path;
    query = a.query ∙ b.query;
  }

  IsAlike-sym : (u v : urls.Url) → IsAlike urls u v → IsAlike urls v u
  IsAlike-sym u v a = record {
    scheme = sym a.scheme;
    host = sym a.host;
    path = sym a.path;
    query = sym a.query;
  }

  -- The canonical URL of a URL: its text is the canonical form, and its port is the one that was
  -- there, unless that is the scheme's.
  record IsCanonical (u c : urls.Url) : Type 0 where
    text : normalize urls u ≡ urls.to_string c
    alike : IsAlike urls c u
    port :
        (urls.port c ≡ urls.port u)
        ⊎ (IsDefault (urls.scheme u) (urls.port u) × (urls.port c ≡ none))

  canonical : (u : urls.Url) → (c : urls.Url) × IsCanonical u c
  unfolding normalize
  canonical u = elim (Bool-cases (is_default_port (urls.scheme bare) (urls.port bare))) [
    | inl default_port ↦
        let known = is_default_port-IsDefault _ _ default_port in
        (
          urls.set_port bare none,
          record {
            text = rw (normalize, default_port) refl;
            alike = IsAlike-trans _ bare u (laws.port_parts bare none) kept;
            port = inr (
              subst (λ s. IsDefault s (urls.port u)) kept.scheme
                  (subst (IsDefault (urls.scheme bare)) (laws.fragment_port u none) known),
              laws.port_removed bare (elim known [ inl s ↦ inl s.0 | inr s ↦ inr s.0 ]),
            );
          },
        )
    | inr other ↦ (
      bare,
      record {
        text = rw (normalize, other) refl;
        alike = kept;
        port = inl (laws.fragment_port u none);
      },
    )
  ]
    where
      bare : urls.Url
      bare = urls.set_fragment u none

      kept : IsAlike urls bare u
      kept = laws.fragment_parts u none

  one_port :
      (scheme : Bytes) (p q c : Option ℕ)
      → (c ≡ p) ⊎ (IsDefault scheme p × (c ≡ none))
      → (c ≡ q) ⊎ (IsDefault scheme q × (c ≡ none))
      → IsSamePort scheme p q
  one_port scheme p q c (inl a) (inl b) = inl (sym a ∙ b)
  one_port scheme p q c (inl a) (inr (known, gone)) = inr (inr (known, sym a ∙ gone))
  one_port scheme p q c (inr (known, gone)) (inl b) = inr (inl (known, sym b ∙ gone))
  one_port scheme p q c (inr (inl (s, a), gone)) (inr (inl (s', b), gone')) = inl (a ∙ sym b)
  one_port scheme p q c (inr (inr (s, a), gone)) (inr (inr (s', b), gone')) = inl (a ∙ sym b)
  one_port scheme p q c (inr (inl (s, a), gone)) (inr (inr (s', b), gone')) =
      absurd (let e = sym s ∙ s' in ground (arith, e))
  one_port scheme p q c (inr (inr (s, a), gone)) (inr (inl (s', b), gone')) =
      absurd (let e = sym s ∙ s' in ground (arith, e))

  -- Two URLs share a key only if they have one scheme, host, path and query, and one port, where the
  -- scheme's own port may be left out; that the digest tells the two texts apart which it is given, if
  -- they differ, is a condition.
  pub key_injective :
      (digest : Bytes → Bytes) (p : Policy) (u v : urls.Url)
      → (let a = codes "GET" ++ (10 ∷ normalize urls u) in
          let b = codes "GET" ++ (10 ∷ normalize urls v) in digest a ≡ digest b → a ≡ b)
      → key urls digest p u ≡ key urls digest p v
      → IsAlike urls u v × IsSamePort (urls.scheme u) (urls.port u) (urls.port v)
  unfolding key
  key_injective digest p u v apart e =
      let (c, of_u) = canonical u in
      let (d, of_v) = canonical v in
      let digests : digest (codes "GET" ++ (10 ∷ normalize urls u))
          ≡ digest (codes "GET" ++ (10 ∷ normalize urls v)) =
        ground (arith, append_cancel_left p.key_prefix _ _ e) in
      let forms : normalize urls u ≡ normalize urls v = ground (arith, apart digests) in
      let texts = sym of_u.text ∙ forms ∙ of_v.text in
      let alike =
        IsAlike-trans u c v (IsAlike-sym c u of_u.alike)
          (IsAlike-trans c d v (laws.same_parts c d texts) of_v.alike) in
      (
        alike,
        one_port (urls.scheme u) (urls.port u) (urls.port v) (urls.port c) of_u.port (
            subst
              (λ s.
                (urls.port c ≡ urls.port v) ⊎ (IsDefault s (urls.port v) × (urls.port c ≡ none)))
              (sym alike.scheme)
              (subst
                (λ q. (q ≡ urls.port v) ⊎ (IsDefault (urls.scheme v) (urls.port v) × (q ≡ none)))
                (sym (laws.same_port c d texts)) of_v.port)),
      )

module _ (urls : UrlLib) (lib : HeaderLib) (laws : HeaderLaws lib) where
  -- Of several `Cache-Control` lines only the first counts: responses that agree on it get one
  -- verdict, whatever the later lines say.
  pub response_storable-first :
      (p : Policy) (url : urls.Url) (code : ℕ) (headers headers' : lib.HeaderMap) (len : ℕ)
      (v : Bytes) (vs vs' : List Bytes)
      → values (codes "cache-control") (lib.iter headers) ≡ v ∷ vs
      → values (codes "cache-control") (lib.iter headers') ≡ v ∷ vs'
      → response_storable urls lib p url code headers len
        ≡ response_storable urls lib p url code headers' len
  unfolding response_storable
  response_storable-first p url code headers headers' len v vs vs' e e' = rw same_value
    where
      same_value : cache_control_of urls lib headers ≡ cache_control_of urls lib headers'
      same_value =
          unfold cache_control_of in
          rw (
            laws.get_lem headers (codes "cache-control"),
            laws.get_lem headers' (codes "cache-control"),
            e,
            e',
          )
