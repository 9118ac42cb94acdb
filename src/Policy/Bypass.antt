-- ===== src/Policy/Bypass.antt =====
-- src/policy.rs: the hosts that are bypassed.
use cicache.Prelude.{
  ◌≡◌, ◌↔◌, ◌⊎◌, inl, inr, true, false, List, [], ◌∷◌, ◌++◌, arith, any, Bool-cases,
}
use cicache.Text.Utf8.{Bytes}
use cicache.Text.Peel.{IsPeeled, trims-IsPeeled}
use mathlib.Core.Path.{subst}
use cicache.Policy.Hosts.{always_bypass, host_matches, host_matches_iff}
use cicache.Policy.{Policy, bare_host, is_bypassed}

-- The host is a pattern of the list, or a subdomain of one.
pub data Covers (host : Bytes) : List Bytes → Type 0 where
  here :
      {pattern : Bytes} {patterns : List Bytes}
      → (host ≡ pattern) ⊎ ((pre : Bytes) × (host ≡ pre ++ (b'.' ∷ pattern)))
      → Covers host (pattern ∷ patterns)
  there :
      {pattern : Bytes} {patterns : List Bytes}
      → Covers host patterns
      → Covers host (pattern ∷ patterns)

Covers-any :
    (host : Bytes) (patterns : List Bytes)
    → any (host_matches host) patterns ≡ true
    → Covers host patterns
unfolding any
Covers-any host [] h = cc
Covers-any host (x ∷ xs) h = elim (Bool-cases (host_matches host x)) [
  | inl now ↦ here ((host_matches_iff host x).0 now)
  | inr later ↦ there (Covers-any host xs (ground (arith, later)))
]

any-Covers :
    (host : Bytes) (patterns : List Bytes)
    → Covers host patterns
    → any (host_matches host) patterns ≡ true
unfolding any
any-Covers host [] c = elim c [ ]
any-Covers host (x ∷ xs) (here e) = rw ((host_matches_iff host x).1 e)
any-Covers host (x ∷ xs) (there c) = ground (arith, any-Covers host xs c)

-- A host is bypassed exactly if, without brackets, it is or is below a fixed or a configured host.
pub is_bypassed_iff :
    (p : Policy) (host : Bytes)
    → (is_bypassed p host ≡ true) ↔ Covers (bare_host host) (always_bypass ++ p.extra_bypass)
unfolding is_bypassed
is_bypassed_iff p host = (
  Covers-any (bare_host host) (always_bypass ++ p.extra_bypass),
  any-Covers (bare_host host) (always_bypass ++ p.extra_bypass),
)

not_bypassed_iff :
    (p : Policy) (host : Bytes)
    → (is_bypassed p host ≡ false) ↔ (¬ Covers (bare_host host) (always_bypass ++ p.extra_bypass))
not_bypassed_iff p host =
    let (to, from) = is_bypassed_iff p host in
    (
      λ h c. cc (h, from c),
      λ h. elim (Bool-cases (is_bypassed p host)) [ inl t ↦ absurd (h (to t)) | inr f ↦ f ],
    )

pub not_bypassed_as :
    (p : Policy) (host bare : Bytes)
    → IsPeeled b'[' b']' host bare
    → (is_bypassed p host ≡ false) ↔ (¬ Covers bare (always_bypass ++ p.extra_bypass))
not_bypassed_as p host bare peeled =
    let same_host : bare_host host ≡ bare =
      unfold bare_host in trims-IsPeeled b'[' b']' host bare (λ e. ground (arith, e)) peeled in
    subst (λ t. (is_bypassed p host ≡ false) ↔ (¬ Covers t (always_bypass ++ p.extra_bypass)))
      same_host (not_bypassed_iff p host)
