-- ===== src/Text/Sort/Laws.antt =====
-- Sorting and leaving out repetitions keep the elements.
use cicache.Prelude.{◌≡◌, refl, ap, ◌||◌, List, [], ◌∷◌, arith, Bool-cases, inl, inr}
use cicache.Text.Utf8.{Bytes}
use cicache.Text.Compare.{same, same_iff}
use cicache.Text.Set.{has}
use cicache.Text.Sort.{le_bytes, insert_sorted, sort, dedup}

pub has-insert_sorted :
    (k : Bytes) (keys : List Bytes) (x : Bytes)
    → has (insert_sorted k keys) x ≡ (same k x || has keys x)
unfolding has insert_sorted
has-insert_sorted k [] x = refl
has-insert_sorted k (j ∷ keys) x = elim (Bool-cases (le_bytes k j)) [
  | inl before ↦ rw before refl
  | inr later ↦ rw later (ground (arith, has-insert_sorted k keys x))
]

pub has-sort : (keys : List Bytes) (x : Bytes) → has (sort keys) x ≡ has keys x
unfolding has sort
has-sort [] x = refl
has-sort (k ∷ keys) x = rw (has-insert_sorted k (sort keys) x, has-sort keys x) refl

pub has-dedup : (keys : List Bytes) (x : Bytes) → has (dedup keys) x ≡ has keys x
unfolding has dedup
has-dedup [] x = refl
has-dedup (k ∷ []) x = refl
has-dedup (k ∷ (j ∷ keys)) x = elim (Bool-cases (same k j)) [
  | inl equal ↦
      ground (arith, equal, has-dedup (j ∷ keys) x, ap (λ t. same t x) ((same_iff k j).0 equal))
  | inr other ↦ rw other (ground (arith, has-dedup (j ∷ keys) x))
]
