-- ===== src/Policy/Hosts.antt =====
-- src/policy.rs: the tables of hosts, and how a host is matched against a pattern.
use cicache.Prelude.{
  ℕ, suc, ◌-◌, ◌<◌, ◌≡◌, ◌↔◌, ◌⊎◌, inl, inr, refl, sym, ap, ◌∙◌, Bool, true, false, ◌&&◌, Option,
  none, some, List, [], ◌∷◌, ◌++◌, append_assoc, arith, length, get_elem?, ltb, ◌==◌, if◌then◌else◌,
  length-append, Bool-cases, lt→ltb,
}
use mathlib.Core.Path.{subst}
use cicache.Text.Utf8.{Bytes, codes}
use cicache.Text.Compare.{same, same_iff}
use cicache.Text.Search.{ends_with, ends_with_iff}

abbrev pub always_bypass : List Bytes
always_bypass =
    codes "actions.githubusercontent.com"
    ∷ codes "blob.core.windows.net"
    ∷ codes "results-receiver.actions.githubusercontent.com"
    ∷ codes "localhost"
    ∷ codes "127.0.0.1"
    ∷ codes "::1"
    ∷ codes "169.254.169.254"
    ∷ []

abbrev pub immutable : List (Bytes × Bytes)
immutable =
    (codes "registry.npmjs.org", codes "/-/")
    ∷ (codes "registry.yarnpkg.com", codes "/-/")
    ∷ (codes "files.pythonhosted.org", [])
    ∷ (codes "static.crates.io", [])
    ∷ (codes "crates.io", codes "/download")
    ∷ (codes "index.crates.io", [])
    ∷ (codes "proxy.golang.org", codes "/@v/")
    ∷ (codes "objects.githubusercontent.com", [])
    ∷ (codes "github.com", codes "/releases/download/")
    ∷ (codes "repo1.maven.org", [])
    ∷ (codes "repo.maven.apache.org", [])
    ∷ (codes "registry-1.docker.io", codes "/blobs/")
    ∷ (codes "production.cloudflare.docker.com", [])
    ∷ (codes "ghcr.io", codes "/blobs/")
    ∷ (codes "nodejs.org", codes "/dist/")
    ∷ (codes "static.rust-lang.org", [])
    ∷ (codes "deb.debian.org", codes ".deb")
    ∷ (codes "archive.ubuntu.com", codes ".deb")
    ∷ (codes "security.ubuntu.com", codes ".deb")
    ∷ (codes "azure.archive.ubuntu.com", codes ".deb")
    ∷ []

abbrev pub is_dot : Option ℕ → Bool
is_dot none = false
is_dot (some b) = b == b'.'

-- The index is in range, since the host is the longer text.
unfoldable pub host_matches : Bytes → Bytes → Bool
host_matches host pattern =
    if same host pattern
    then true
    else (ltb (length pattern) (length host) && ends_with host pattern)
      && is_dot (get_elem? host (length host - length pattern - 1))

last_split :
    (q p : Bytes)
    → 0 < length q
    → is_dot (get_elem? (q ++ p) (length q - 1)) ≡ true
    → (pre : Bytes) × (q ≡ pre ++ b'.' ∷ [])
last_split [] p h e = absurd (omega arith)
last_split (x ∷ []) p h e = ([], ground arith)
last_split (x ∷ (y ∷ q)) p h e =
    let step : suc (suc (length q)) - 1 ≡ suc (length q) = omega arith in
    let same_index : length (y ∷ q) - 1 ≡ length q = omega arith in
    let (pre, r) = last_split (y ∷ q) p (omega arith) (rw same_index (rw step at e)) in
    (x ∷ pre, ap (λ t. x ∷ t) r)

dot_at : (pre p : Bytes) → get_elem? (pre ++ (b'.' ∷ p)) (length pre) ≡ some b'.'
dot_at [] p = refl
dot_at (x ∷ pre) p = dot_at pre p

abbrev pub IsSubdomain : Bytes → Bytes → Type 0
IsSubdomain host pattern = (pre : Bytes) × (host ≡ pre ++ (b'.' ∷ pattern))

IsSubdomain-of_suffix :
    (host pattern q : Bytes)
    → host ≡ q ++ pattern
    → length pattern < length host
    → is_dot (get_elem? host (length host - length pattern - 1)) ≡ true
    → IsSubdomain host pattern
IsSubdomain-of_suffix host pattern q e longer dot =
    let index : length host - length pattern - 1 ≡ length q - 1 =
      omega (arith, ap length e, length-append q pattern) in
    let at_end : is_dot (get_elem? (q ++ pattern) (length q - 1)) ≡ true = rw (index, e) at dot in
    let (pre, r) =
      last_split q pattern (omega (arith, ap length e, length-append q pattern)) at_end in
    (pre, e ∙ (ap (λ t. t ++ pattern) r ∙ append_assoc pre (b'.' ∷ []) pattern))

host_matches-subdomain :
    (pre pattern : Bytes) → host_matches (pre ++ (b'.' ∷ pattern)) pattern ≡ true
unfolding host_matches
host_matches-subdomain pre pattern = elim (Bool-cases (same (pre ++ (b'.' ∷ pattern)) pattern)) [
  | inl equal ↦ rw equal
  | inr other ↦ rw (other, longer, suffix, index, dot_at pre pattern)
]
  where
    host : Bytes
    host = pre ++ (b'.' ∷ pattern)

    longer : ltb (length pattern) (length host) ≡ true
    longer = lt→ltb _ _ (omega (arith, length-append pre (b'.' ∷ pattern)))

    suffix : ends_with host pattern ≡ true
    suffix =
        (ends_with_iff host pattern).1
          (pre ++ b'.' ∷ [], sym (append_assoc pre (b'.' ∷ []) pattern))

    index : length host - length pattern - 1 ≡ length pre
    index = omega (arith, length-append pre (b'.' ∷ pattern))

-- A host matches a pattern exactly if it is the pattern, or ends in a dot and the pattern.
pub host_matches_iff :
    (host pattern : Bytes)
    → (host_matches host pattern ≡ true)
      ↔ ((host ≡ pattern) ⊎ ((pre : Bytes) × (host ≡ pre ++ (b'.' ∷ pattern))))
unfolding host_matches
host_matches_iff host pattern = (to, from)
  where
    to : host_matches host pattern ≡ true → (host ≡ pattern) ⊎ IsSubdomain host pattern
    to h = elim (Bool-cases (same host pattern)) [
      | inl equal ↦ inl ((same_iff host pattern).0 equal)
      | inr other ↦
          let (q, e) = (ends_with_iff host pattern).0 (ground (arith, other)) in
          inr
            (IsSubdomain-of_suffix host pattern q e (ground (arith, other)) (ground (arith, other)))
    ]

    from : (host ≡ pattern) ⊎ IsSubdomain host pattern → host_matches host pattern ≡ true
    from (inl e) = rw ((same_iff host pattern).1 e)
    from (inr (pre, e)) =
        subst (λ t. host_matches t pattern ≡ true) (sym e) (host_matches-subdomain pre pattern)
