-- ===== src/Policy/Described.antt =====
-- src/policy.rs: what a request and a response say, described without the code's own tests.
use cicache.Prelude.{
  ℕ, ◌≡◌, ◌≢◌, ◌↔◌, ◌⊎◌, inl, inr, refl, sym, ap, ◌∙◌, Bool, true, none, some, List, [], ◌∷◌, ◌++◌,
  arith, any, Bool-cases, Option-cases,
}
use cicache.Text.Utf8.{Bytes, codes}
use cicache.Text.Compare.{same, same_iff}
use cicache.Text.Search.{contains_iff, strip_prefix, strip_prefix_iff}
use cicache.Text.Split.{split, trim, to_ascii_lowercase}
use cicache.Text.Number.{parse_u64}
use cicache.Text.Fold.{Folds, to_ascii_lowercase_iff}
use cicache.Http.{Field, HeaderLib, HeaderLaws, UrlLib, values, first}
use cicache.Policy.Hosts.{immutable, host_matches_iff, IsSubdomain}
use cicache.Policy.CacheControl.{find_max_age, max_age}
use cicache.Policy.{
  or_empty, signature_params, is_signed_url, is_immutable_artifact, cache_control_of,
}

-- Some element of the list has the property.
pub data Holds {A : Type 0} (P : A → Type 0) : List A → Type 0 where
  here : {a : A} {rest : List A} → P a → Holds P (a ∷ rest)
  there : {a : A} {rest : List A} → Holds P rest → Holds P (a ∷ rest)

any-Holds :
    {A : Type 0} (f : A → Bool) (P : A → Type 0)
    → ((a : A) → (f a ≡ true) ↔ P a)
    → (xs : List A) → (any f xs ≡ true) ↔ Holds P xs
unfolding any
any-Holds f P same_test [] = (λ e. absurd (cc e), λ h. elim h [ ])
any-Holds f P same_test (x ∷ xs) =
    let (to, from) = any-Holds f P same_test xs in
    (
      λ e. elim (Bool-cases (f x)) [
        | inl now ↦ here ((same_test x).0 now)
        | inr later ↦ there (to (ground (arith, e, later)))
      ],
      λ h. elim h [
        | here p ↦ ground (arith, (same_test x).1 p)
        | there rest ↦ ground (arith, from rest)
      ],
    )

-- The text holds the other.
abbrev pub Has : Bytes → Bytes → Type 0
Has s part = (pre : Bytes) × (post : Bytes) × (s ≡ pre ++ (part ++ post))

-- A parameter's name, in lower case, is in the table.
abbrev pub IsSigned : List Field → Type 0
IsSigned = Holds (λ (pair : Field). Holds (λ (param : Bytes). Folds pair.0 param) signature_params)

-- An entry of the table has the host, or a domain above it, and its text is empty or in the path.
abbrev pub IsArtifact : Bytes → Bytes → Type 0
IsArtifact host path =
    Holds
      (λ (entry : Bytes × Bytes).
        ((host ≡ entry.0) ⊎ IsSubdomain host entry.0) × ((entry.1 ≡ []) ⊎ Has path entry.1))
      immutable

-- The value of the first piece that is a `max-age`.
pub data FirstAge : List Bytes → Bytes → Type 0 where
  found :
      {piece : Bytes} {pieces : List Bytes} {value : Bytes}
      → trim piece ≡ codes "max-age=" ++ value
      → FirstAge (piece ∷ pieces) value
  later :
      {piece : Bytes} {pieces : List Bytes} {value : Bytes}
      → ((v : Bytes) → trim piece ≢ codes "max-age=" ++ v)
      → FirstAge pieces value
      → FirstAge (piece ∷ pieces) value

-- The value has that age.
abbrev pub Declares : Bytes → ℕ → Type 0
Declares said age =
    (value : Bytes) × FirstAge (split b',' said) value × (parse_u64 value ≡ some age)

find_max_age_iff :
    (pieces : List Bytes) (value : Bytes)
    → (find_max_age pieces ≡ some value) ↔ FirstAge pieces value
unfolding find_max_age
find_max_age_iff [] value = (λ e. absurd (cc e), λ h. elim h [ ])
find_max_age_iff (piece ∷ pieces) value =
    let (to, from) = find_max_age_iff pieces value in
    (
      λ e. elim (Option-cases (strip_prefix (codes "max-age=") (trim piece))) [
        | inl absent ↦
            later (λ v q. cc ((strip_prefix_iff (codes "max-age=") (trim piece) v).1 q, absent))
              (to (rw (find_max_age, absent) at e))
        | inr (v, present) ↦
            let same_value : v ≡ value = ground (arith, rw (find_max_age, present) at e) in
            found (
              (strip_prefix_iff (codes "max-age=") (trim piece) value).0
                (present ∙ ap some same_value))
      ],
      λ h. elim h [
        | found e ↦
            rw (find_max_age, (strip_prefix_iff (codes "max-age=") (trim piece) value).1 e) refl
        | later other rest ↦ elim (Option-cases (strip_prefix (codes "max-age=") (trim piece))) [
          | inl absent ↦ rw (find_max_age, absent) (from rest)
          | inr (v, present) ↦
              absurd (other v ((strip_prefix_iff (codes "max-age=") (trim piece) v).0 present))
        ]
      ],
    )

pub max_age_iff : (said : Bytes) (age : ℕ) → (max_age said ≡ some age) ↔ Declares said age
unfolding max_age
max_age_iff said age = (
  λ e. elim (Option-cases (find_max_age (split b',' said))) [
    | inl absent ↦ absurd (cc (rw absent at e))
    | inr (value, present) ↦
        (value, (find_max_age_iff (split b',' said) value).0 present, rw present at e)
  ],
  λ (value, finds, parses). rw ((find_max_age_iff (split b',' said) value).1 finds) parses,
)

module _ (urls : UrlLib) where
  pub is_signed_url_iff :
      (url : urls.Url) → (is_signed_url urls url ≡ true) ↔ IsSigned (urls.query_pairs url)
  unfolding is_signed_url
  is_signed_url_iff url =
      any-Holds _ _
        (λ (pair : Field).
          any-Holds _ _
            (λ (param : Bytes).
              let (to, from) = same_iff param (to_ascii_lowercase pair.0) in
              let (folds, unfolds) = to_ascii_lowercase_iff pair.0 param in
              (λ e. folds (sym (to e)), λ f. from (sym (unfolds f))))
            signature_params)
        (urls.query_pairs url)

  pub is_immutable_artifact_iff :
      (url : urls.Url)
      → (is_immutable_artifact urls url ≡ true)
        ↔ IsArtifact (or_empty (urls.host_str url)) (urls.path url)
  unfolding is_immutable_artifact
  is_immutable_artifact_iff url =
      any-Holds _ _
        (λ (entry : Bytes × Bytes).
          let (covers, covered) = host_matches_iff (or_empty (urls.host_str url)) entry.0 in
          let (empty, is_empty) = same_iff entry.1 [] in
          let (holds, held) = contains_iff (urls.path url) entry.1 in
          (
            λ e. (
              covers (ground (arith, e)),
              elim (Bool-cases (same entry.1 [])) [
                | inl none_asked ↦ inl (empty none_asked)
                | inr asked ↦ inr (holds (ground (arith, e, asked)))
              ],
            ),
            λ (h, p). elim p [
              | inl e ↦ ground (arith, covered h, is_empty e)
              | inr e ↦ ground (arith, covered h, held e)
            ],
          ))
        immutable

module _ (lib : HeaderLib) where
  -- The text of the first value; one that is no text counts as empty.
  abbrev pub text_of_first : List Bytes → Bytes
  text_of_first [] = []
  text_of_first (v ∷ vs) = or_empty (lib.to_str v)

  -- The first `Cache-Control` value, in lower case.
  abbrev pub Says : lib.HeaderMap → Bytes → Type 0
  Says headers = Folds (text_of_first (values (codes "cache-control") (lib.iter headers)))

  pub Says-cache_control_of :
      (urls : UrlLib) (laws : HeaderLaws lib) (headers : lib.HeaderMap) (said : Bytes)
      → Says headers said
      → cache_control_of urls lib headers ≡ said
  unfolding cache_control_of
  Says-cache_control_of urls laws headers said f =
      rw (laws.get_lem headers (codes "cache-control"))
        (go (values (codes "cache-control") (lib.iter headers)) f)
    where
      go :
          (vs : List Bytes)
          → Folds (text_of_first vs) said
          → to_ascii_lowercase (elim (first vs) [ none ↦ [] | some v ↦ or_empty (lib.to_str v) ])
            ≡ said
      go [] f = (to_ascii_lowercase_iff [] said).1 f
      go (v ∷ vs) f = (to_ascii_lowercase_iff (or_empty (lib.to_str v)) said).1 f
