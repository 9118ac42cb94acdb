-- ===== src/Text/Set.antt =====
-- A set of keys (`DashSet<String>`), as the list of its elements. Its order is not relied on.
use cicache.Prelude.{
  Bool, true, false, ◌||◌, List, [], ◌∷◌, ◌≡◌, ap, arith, Bool-cases, inl, inr, if◌then◌else◌,
}
use cicache.Text.Utf8.{Bytes}
use cicache.Text.Compare.{same, same_iff, same_refl}

unfoldable pub has : List Bytes → Bytes → Bool
has [] x = false
has (y ∷ ys) x = same y x || has ys x

-- The set with the element.
unfoldable pub insert : List Bytes → Bytes → List Bytes
unfolding has
insert ys x = if has ys x then ys else x ∷ ys

pub has-insert : (ys : List Bytes) (x : Bytes) → has (insert ys x) x ≡ true
unfolding insert has
has-insert ys x = elim (Bool-cases (has ys x)) [
  | inl held ↦ rw (held, held)
  | inr new ↦ rw new (rw (same_refl x))
]

-- The elements that were there stay, and no other than the one inserted joins them.
pub insert-keeps : (ys : List Bytes) (x y : Bytes) → has ys y ≡ true → has (insert ys x) y ≡ true
unfolding insert has
insert-keeps ys x y h = elim (Bool-cases (has ys x)) [
  | inl held ↦ rw (held, h)
  | inr new ↦ rw (new, h) (ground arith)
]

pub insert-adds :
    (ys : List Bytes) (x y : Bytes) → has (insert ys x) y ≡ true → has ys y ≡ false → x ≡ y
unfolding insert has
insert-adds ys x y h new = elim (Bool-cases (has ys x)) [
  | inl held ↦ ground (arith, held, h)
  | inr fresh ↦ (same_iff x y).0 (ground (arith, fresh, h))
]

pub has-insert_or : (ys : List Bytes) (x y : Bytes) → has (insert ys x) y ≡ (has ys y || same x y)
unfolding insert has
has-insert_or ys x y = elim (Bool-cases (has ys x)) [
  | inl held ↦ elim (Bool-cases (same x y)) [
    | inl own ↦ ground (arith, held, own, ap (has ys) ((same_iff x y).0 own))
    | inr other ↦ ground (arith, held, other)
  ]
  | inr new ↦ rw new (ground arith)
]
