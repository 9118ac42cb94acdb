-- ===== src/Text/Search.antt =====
-- Prefixes, suffixes and occurrences: `starts_with`, `strip_prefix`, `ends_with` and `contains`.
use cicache.Prelude.{
  ◌-◌, ◌≡◌, ◌↔◌, inl, inr, refl, sym, ap, Bool, true, false, ◌&&◌, ◌||◌, Option, none, some, [],
  ◌∷◌, ◌++◌, arith, ◌==◌, length, drop, leb, if◌then◌else◌, drop-append, length-append, Bool-cases,
  take, take-append-drop,
}
use cicache.Text.Utf8.{Bytes}
use cicache.Text.Compare.{same, same_iff, same_refl}

unfoldable pub strip_prefix : Bytes → Bytes → Option Bytes
strip_prefix [] s = some s
strip_prefix (p ∷ ps) [] = none
strip_prefix (p ∷ ps) (b ∷ s) = if p == b then strip_prefix ps s else none

abbrev pub starts_with : Bytes → Bytes → Bool
starts_with s prefix = elim (strip_prefix prefix s) [ none ↦ false | some rest ↦ true ]

unfoldable pub ends_with : Bytes → Bytes → Bool
ends_with s suffix =
    leb (length suffix) (length s) && same (drop (length s - length suffix) s) suffix

unfoldable pub contains : Bytes → Bytes → Bool
contains [] needle = starts_with [] needle
contains (b ∷ s) needle = starts_with (b ∷ s) needle || contains s needle

pub strip_prefix_iff :
    (prefix s rest : Bytes) → (strip_prefix prefix s ≡ some rest) ↔ (s ≡ prefix ++ rest)
unfolding strip_prefix
strip_prefix_iff [] s rest = ground arith
strip_prefix_iff (p ∷ ps) [] rest = ground arith
strip_prefix_iff (p ∷ ps) (b ∷ s) rest = ground (arith, strip_prefix_iff ps s rest)

abbrev found : Option Bytes → Bool
found none = false
found (some rest) = true

starts_with-found : (s prefix : Bytes) → starts_with s prefix ≡ found (strip_prefix prefix s)
starts_with-found s prefix = ground arith

pub starts_with_iff :
    (s prefix : Bytes) → (starts_with s prefix ≡ true) ↔ ((rest : Bytes) × (s ≡ prefix ++ rest))
starts_with_iff s prefix = (
  λ h. to (strip_prefix prefix s) refl (rw (starts_with-found s prefix) at h),
  λ (rest, e). rw (starts_with-found s prefix, (strip_prefix_iff prefix s rest).1 e),
)
  where
    to :
        (o : Option Bytes)
        → strip_prefix prefix s ≡ o
        → found o ≡ true
        → (rest : Bytes) × (s ≡ prefix ++ rest)
    to none e h = cc
    to (some rest) e h = (rest, (strip_prefix_iff prefix s rest).0 e)

pub ends_with_iff :
    (s suffix : Bytes) → (ends_with s suffix ≡ true) ↔ ((pre : Bytes) × (s ≡ pre ++ suffix))
unfolding ends_with
ends_with_iff s suffix = (
  λ h. (
    take (length s - length suffix) s,
    sym (
        ground (
          arith,
          take-append-drop (length s - length suffix) s,
          same_iff (drop (length s - length suffix) s) suffix,
        )),
  ),
  λ (pre, e).
      rw
        (
          e,
          drop-append pre suffix (length (pre ++ suffix) - length suffix)
              (omega (arith, length-append pre suffix)),
          same_refl suffix,
        )
        (ground (arith, length-append pre suffix)),
)

abbrev Occurs : Bytes → Bytes → Type 0
Occurs s needle = (pre : Bytes) × (post : Bytes) × (s ≡ pre ++ (needle ++ post))

contains-Occurs : (s needle : Bytes) → contains s needle ≡ true → Occurs s needle
unfolding contains
contains-Occurs [] needle h = let (post, e) = (starts_with_iff [] needle).0 h in ([], post, e)
contains-Occurs (b ∷ s) needle h = elim (Bool-cases (starts_with (b ∷ s) needle)) [
  | inl here ↦ let (post, e) = (starts_with_iff (b ∷ s) needle).0 here in ([], post, e)
  | inr later ↦
      let (pre, post, e) = contains-Occurs s needle (ground (arith, later)) in
      (b ∷ pre, post, ap (λ t. b ∷ t) e)
]

contains-append : (pre needle post : Bytes) → contains (pre ++ (needle ++ post)) needle ≡ true
unfolding contains
contains-append (b ∷ pre) needle post = ground (arith, contains-append pre needle post)
contains-append [] [] [] = unfold strip_prefix in refl
contains-append [] [] (b ∷ post) = unfold strip_prefix in refl
contains-append [] (c ∷ needle) post =
    rw ((starts_with_iff (c ∷ (needle ++ post)) (c ∷ needle)).1 (post, refl))

-- A text contains another exactly if that occurs in it.
pub contains_iff :
    (s needle : Bytes)
    → (contains s needle ≡ true) ↔ ((pre : Bytes) × (post : Bytes) × (s ≡ pre ++ (needle ++ post)))
contains_iff s needle =
    (contains-Occurs s needle, λ (pre, post, e). rw e (contains-append pre needle post))
