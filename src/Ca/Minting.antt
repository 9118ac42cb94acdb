-- ===== src/Ca/Minting.antt =====
-- That a host keeps its configuration for the run, and what every kept configuration presents.
use cicache.Prelude.{
  ℕ, ◌≡◌, ◌⊎◌, refl, ◌∙◌, true, Option, none, some, List, [], ◌∷◌, arith, Bool-cases, Option-cases,
  inl, inr,
}
use mathlib.Core.Path.{subst}
use cicache.Text.Utf8.{Bytes, codes}
use cicache.Text.Compare.{same, same_iff, same_refl}
use cicache.Gha.{ok}
use cicache.Ca.{
  CertLib, Ca, leaf_params, find_config, keep_config, configure, sign_leaf, mint, server_config,
}

module _ (lib : CertLib) where
  open lib use {
    World, Key, Certificate, ServerConfig, generate_key, signed_by, single_cert, is_subject_name,
  }

  -- Handshakes for hosts, one after the other, each with the clock at that time.
  unfoldable pub run : List (ℕ × Bytes) → Ca lib → World → Ca lib × World
  run [] ca w = (ca, w)
  run ((now, host) ∷ calls) ca w =
      let (config, ca', w') = server_config lib now host ca w in run calls ca' w'

  -- The configuration is for a leaf with the host's parameters that the authority signed, presented
  -- with the authority's certificate.
  pub record IsMinted (ca : Ca lib) (host : Bytes) (config : ServerConfig) : Type 0 where
    pub now : ℕ
    pub leaf_key : Key
    pub leaf : Certificate
    pub before : World
    pub after : World
    pub subject : is_subject_name host ≡ true
    pub signed :
        signed_by (leaf_params host now) leaf_key ca.cert ca.key before ≡ (some leaf, after)
    pub built : single_cert (leaf ∷ ca.cert ∷ []) leaf_key (codes "http/1.1" ∷ []) ≡ some config

  -- A call keeps the authority, keeps what is known of every host, and adds for its host at most a
  -- configuration that it minted.
  pub record IsLater (ca ca' : Ca lib) : Type 0 where
    pub cert : ca'.cert ≡ ca.cert
    pub key : ca'.key ≡ ca.key
    pub kept :
        (k : Bytes) (c : ServerConfig)
        → find_config lib k ca.configs ≡ some c
        → find_config lib k ca'.configs ≡ some c
    pub minted :
        (k : Bytes) (c : ServerConfig)
        → find_config lib k ca'.configs ≡ some c
        → (find_config lib k ca.configs ≡ some c) ⊎ IsMinted ca k c

  same-IsLater : (ca : Ca lib) → IsLater ca ca
  same-IsLater ca = record { cert = refl; key = refl; kept = λ k c h. h; minted = λ k c h. inl h }

  keep_config-IsLater :
      (host : Bytes) (ca : Ca lib) (o : Option ServerConfig)
      → find_config lib host ca.configs ≡ none
      → ((config : ServerConfig) → o ≡ some config → IsMinted ca host config)
      → IsLater ca (keep_config lib host ca o).1
  unfolding keep_config find_config
  keep_config-IsLater host ca none new m = same-IsLater ca
  keep_config-IsLater host ca (some config) new m = record {
    cert = refl;
    key = refl;
    kept = λ k c h. elim (Bool-cases (same host k)) [
      | inl own ↦ absurd (cc (rw ((same_iff host k).0 own) at new, h))
      | inr other ↦ rw other h
    ];
    minted = λ k c h. elim (Bool-cases (same host k)) [
      | inl own ↦
          let same_config : config ≡ c = cc (rw own at h) in
          inr (
            subst (λ j. IsMinted ca j c) ((same_iff host k).0 own)
              (subst (IsMinted ca host) same_config (m config refl)))
      | inr other ↦ inl (rw other at h)
    ];
  }

  configure-IsLater :
      (host : Bytes) (ca : Ca lib) (now : ℕ) (leaf_key : Key) (w w' : World)
      (o : Option Certificate)
      → find_config lib host ca.configs ≡ none
      → is_subject_name host ≡ true
      → signed_by (leaf_params host now) leaf_key ca.cert ca.key w ≡ (o, w')
      → IsLater ca (configure lib host ca leaf_key o).1
  unfolding configure
  configure-IsLater host ca now leaf_key w w' none new subject signed = same-IsLater ca
  configure-IsLater host ca now leaf_key w w' (some leaf) new subject signed =
      keep_config-IsLater host ca _ new (λ config built. record {
        now = now;
        leaf_key = leaf_key;
        leaf = leaf;
        before = w;
        after = w';
        subject = subject;
        signed = signed;
        built = built;
      })

  mint-IsLater :
      (now : ℕ) (host : Bytes) (ca : Ca lib) (r : Option Key × World)
      → find_config lib host ca.configs ≡ none
      → IsLater ca (mint lib now host ca r).1
  unfolding mint sign_leaf
  mint-IsLater now host ca (none, w) new = same-IsLater ca
  mint-IsLater now host ca (some leaf_key, w) new = elim (Bool-cases (is_subject_name host)) [
    | inl subject ↦ rw subject (configure-IsLater host ca now leaf_key w _ _ new subject refl)
    | inr other ↦ rw other (same-IsLater ca)
  ]

  server_config_new :
      (now : ℕ) (host : Bytes) (ca : Ca lib) (w : World)
      → find_config lib host ca.configs ≡ none
      → server_config lib now host ca w ≡ mint lib now host ca (generate_key w)
  unfolding server_config
  server_config_new now host ca w new = ground (arith, new)

  server_config_known :
      (now : ℕ) (host : Bytes) (ca : Ca lib) (w : World) (c : ServerConfig)
      → find_config lib host ca.configs ≡ some c
      → server_config lib now host ca w ≡ (ok c, ca, w)
  unfolding server_config
  server_config_known now host ca w c known = ground (arith, known)

  server_config-IsLater :
      (now : ℕ) (host : Bytes) (ca : Ca lib) (w : World)
      → IsLater ca (server_config lib now host ca w).1
  server_config-IsLater now host ca w = elim (Option-cases (find_config lib host ca.configs)) [
    | inl new ↦
        rw (server_config_new now host ca w new) (mint-IsLater now host ca (generate_key w) new)
    | inr (config, held) ↦ rw (server_config_known now host ca w config held) (same-IsLater ca)
  ]

  run-kept :
      (calls : List (ℕ × Bytes)) (ca : Ca lib) (w : World) (k : Bytes) (c : ServerConfig)
      → find_config lib k ca.configs ≡ some c
      → find_config lib k (run calls ca w).0.configs ≡ some c
  unfolding run
  run-kept [] ca w k c h = h
  run-kept ((now, host) ∷ calls) ca w k c h =
      run-kept calls _ _ k c ((server_config-IsLater now host ca w).kept k c h)

  keep_config-held :
      (host : Bytes) (ca : Ca lib) (o : Option ServerConfig) (c : ServerConfig)
      → (keep_config lib host ca o).0 ≡ ok c
      → find_config lib host (keep_config lib host ca o).1.configs ≡ some c
  unfolding keep_config find_config
  keep_config-held host ca none c h = cc
  keep_config-held host ca (some config) c h = rw (same_refl host) (cc h)

  mint-held :
      (now : ℕ) (host : Bytes) (ca : Ca lib) (r : Option Key × World) (c : ServerConfig)
      → (mint lib now host ca r).0 ≡ ok c
      → find_config lib host (mint lib now host ca r).1.configs ≡ some c
  unfolding mint sign_leaf configure
  mint-held now host ca (none, w) c h = cc
  mint-held now host ca (some leaf_key, w) c h = elim (Bool-cases (is_subject_name host)) [
    | inr other ↦ cc
    | inl subject ↦ rw subject (signed _ (rw subject at h))
  ]
    where
      signed :
          (o : Option Certificate)
          → (configure lib host ca leaf_key o).0 ≡ ok c
          → find_config lib host (configure lib host ca leaf_key o).1.configs ≡ some c
      signed none h = cc
      signed (some leaf) h = keep_config-held host ca _ c h

  -- A configuration that was given is kept.
  server_config-held :
      (now : ℕ) (host : Bytes) (ca : Ca lib) (w : World) (c : ServerConfig)
      → (server_config lib now host ca w).0 ≡ ok c
      → find_config lib host (server_config lib now host ca w).1.configs ≡ some c
  server_config-held now host ca w c h = elim (Option-cases (find_config lib host ca.configs)) [
    | inl new ↦
        rw (server_config_new now host ca w new)
          (mint-held now host ca (generate_key w) c (rw (server_config_new now host ca w new) at h))
    | inr (config, held) ↦
        rw (server_config_known now host ca w config held)
          (held ∙ cc (rw (server_config_known now host ca w config held) at h))
  ]

  -- Once a host has a configuration, every later handshake for it in the run gets that one, whatever
  -- hosts come between, and mints nothing: no key is generated and nothing is signed.
  pub server_config_again :
      (now now' : ℕ) (host : Bytes) (ca : Ca lib) (w : World) (c : ServerConfig)
      (calls : List (ℕ × Bytes))
      → (server_config lib now host ca w).0 ≡ ok c
      → let (config, ca₁, w₁) = server_config lib now host ca w in
        let (ca₂, w₂) = run calls ca₁ w₁ in server_config lib now' host ca₂ w₂ ≡ (ok c, ca₂, w₂)
  server_config_again now now' host ca w c calls h =
      server_config_known now' host _ _ c
        (run-kept calls _ _ host c (server_config-held now host ca w c h))

  -- Every configuration that a run leaves was there before, or presents a leaf for its host that was
  -- made with that host's parameters and signed by the authority, followed by the authority itself.
  pub run-IsMinted :
      (calls : List (ℕ × Bytes)) (ca : Ca lib) (w : World) (k : Bytes) (c : ServerConfig)
      → find_config lib k (run calls ca w).0.configs ≡ some c
      → (find_config lib k ca.configs ≡ some c) ⊎ IsMinted ca k c
  unfolding run
  run-IsMinted [] ca w k c h = inl h
  run-IsMinted ((now, host) ∷ calls) ca w k c h = elim (run-IsMinted calls _ _ k c h) [
    | inl held ↦ later.minted k c held
    | inr m ↦ inr (record {
      now = m.now;
      leaf_key = m.leaf_key;
      leaf = m.leaf;
      before = m.before;
      after = m.after;
      subject = m.subject;
      signed = rw (later.cert, later.key) at m.signed;
      built = rw later.cert at m.built;
    })
  ]
    where
      later : IsLater ca (server_config lib now host ca w).1
      later = server_config-IsLater now host ca w
