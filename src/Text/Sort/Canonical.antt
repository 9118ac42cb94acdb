-- ===== src/Text/Sort/Canonical.antt =====
-- The sorted text of a set does not depend on the order in which its elements are found.
use cicache.Prelude.{
  ◌≡◌, refl, sym, ap, ◌∙◌, true, false, List, [], ◌∷◌, arith, Bool-cases, inl, inr,
}
use mathlib.Core.Path.{subst, ap₂}
use cicache.Text.Utf8.{Bytes}
use cicache.Text.Compare.{same, same_iff, same_refl}
use cicache.Text.Set.{has}
use cicache.Text.Sort.{le_bytes, insert_sorted, sort, dedup}
use cicache.Text.Sort.Laws.{has-sort, has-dedup, has-insert_sorted}

le_bytes_total : (s t : Bytes) → le_bytes s t ≡ false → le_bytes t s ≡ true
unfolding le_bytes
le_bytes_total [] t h = cc
le_bytes_total (a ∷ s) [] h = refl
le_bytes_total (a ∷ s) (b ∷ t) h = ground (arith, h, le_bytes_total s t)

le_bytes_antisym : (s t : Bytes) → le_bytes s t ≡ true → le_bytes t s ≡ true → s ≡ t
unfolding le_bytes
le_bytes_antisym [] [] h h' = refl
le_bytes_antisym [] (b ∷ t) h h' = cc
le_bytes_antisym (a ∷ s) [] h h' = cc
le_bytes_antisym (a ∷ s) (b ∷ t) h h' = ground (arith, h, h', le_bytes_antisym s t)

le_bytes_trans : (s t u : Bytes) → le_bytes s t ≡ true → le_bytes t u ≡ true → le_bytes s u ≡ true
unfolding le_bytes
le_bytes_trans [] t u h h' = refl
le_bytes_trans (a ∷ s) [] u h h' = cc
le_bytes_trans (a ∷ s) (b ∷ t) [] h h' = cc
le_bytes_trans (a ∷ s) (b ∷ t) (c ∷ u) h h' = ground (arith, h, h', le_bytes_trans s t u)

-- Every element is at least the bound.
abbrev AllAbove : Bytes → List Bytes → Type 0
AllAbove k keys = (x : Bytes) → has keys x ≡ true → le_bytes k x ≡ true

pub data IsSorted : List Bytes → Type 0 where
  sorted_nil : IsSorted []
  sorted_cons :
      {k : Bytes} {keys : List Bytes} → AllAbove k keys → IsSorted keys → IsSorted (k ∷ keys)

-- A sorted list in which nothing occurs twice.
pub data IsAscending : List Bytes → Type 0 where
  ascending_nil : IsAscending []
  ascending_cons :
      {k : Bytes} {keys : List Bytes}
      → AllAbove k keys
      → has keys k ≡ false
      → IsAscending keys
      → IsAscending (k ∷ keys)

AllAbove-cons :
    (k j : Bytes) (keys : List Bytes)
    → le_bytes k j ≡ true
    → AllAbove k keys
    → AllAbove k (j ∷ keys)
unfolding has
AllAbove-cons k j keys h all x m = elim (Bool-cases (same j x)) [
  | inl own ↦ subst (λ t. le_bytes k t ≡ true) ((same_iff j x).0 own) h
  | inr other ↦ all x (ground (arith, other, m))
]

le_bytes_refl : (s : Bytes) → le_bytes s s ≡ true
le_bytes_refl s = elim (Bool-cases (le_bytes s s)) [
  | inl at_most ↦ at_most
  | inr above ↦ le_bytes_total s s above
]

-- The head is below itself and what follows.
below_head : (k : Bytes) (keys : List Bytes) → AllAbove k keys → AllAbove k (k ∷ keys)
below_head k keys all = AllAbove-cons k k keys (le_bytes_refl k) all

AllAbove-insert_sorted :
    (j k : Bytes) (keys : List Bytes)
    → le_bytes j k ≡ true
    → AllAbove j keys
    → AllAbove j (insert_sorted k keys)
AllAbove-insert_sorted j k keys h all x m =
    AllAbove-cons j k keys h all x (unfold has in sym (has-insert_sorted k keys x) ∙ m)

insert_sorted-IsSorted :
    (k : Bytes) (keys : List Bytes) → IsSorted keys → IsSorted (insert_sorted k keys)
unfolding insert_sorted has
insert_sorted-IsSorted k [] sorted_nil = sorted_cons (λ x m. absurd (cc m)) sorted_nil
insert_sorted-IsSorted k (j ∷ keys) (sorted_cons all rest) = elim (Bool-cases (le_bytes k j)) [
  | inl before ↦ rw before (
      sorted_cons (AllAbove-cons k j keys before (λ x m. le_bytes_trans k j x before (all x m)))
        (sorted_cons all rest))
  | inr later ↦ rw later (
      sorted_cons (AllAbove-insert_sorted j k keys (le_bytes_total k j later) all)
        (insert_sorted-IsSorted k keys rest))
]

sort-IsSorted : (keys : List Bytes) → IsSorted (sort keys)
unfolding sort
sort-IsSorted [] = sorted_nil
sort-IsSorted (k ∷ keys) = insert_sorted-IsSorted k (sort keys) (sort-IsSorted keys)

-- A head that is not its neighbour does not occur again.
fresh_head :
    (k j : Bytes) (keys : List Bytes)
    → AllAbove k (j ∷ keys)
    → AllAbove j keys
    → same k j ≡ false
    → has (j ∷ keys) k ≡ false
fresh_head k j keys all above apart = elim (Bool-cases (has (j ∷ keys) k)) [
  | inr new ↦ new
  | inl held ↦
      let equal =
        le_bytes_antisym k j (all j (unfold has in rw (same_refl j) refl))
          (below_head j keys above k held) in
      absurd (cc (apart, (same_iff k j).1 equal))
]

dedup-IsAscending : (keys : List Bytes) → IsSorted keys → IsAscending (dedup keys)
unfolding dedup has
dedup-IsAscending [] sorted_nil = ascending_nil
dedup-IsAscending (k ∷ []) (sorted_cons all sorted_nil) = ascending_cons all refl ascending_nil
dedup-IsAscending (k ∷ (j ∷ keys)) (sorted_cons all (sorted_cons above rest)) =
    elim (Bool-cases (same k j)) [
      | inl equal ↦ rw equal (dedup-IsAscending (j ∷ keys) (sorted_cons above rest))
      | inr apart ↦ rw apart (
          ascending_cons (λ x m. all x (sym (has-dedup (j ∷ keys) x) ∙ m))
            (has-dedup (j ∷ keys) k ∙ fresh_head k j keys all above apart)
            (dedup-IsAscending (j ∷ keys) (sorted_cons above rest)))
    ]

ascending_eq :
    (js ks : List Bytes)
    → IsAscending js
    → IsAscending ks
    → ((x : Bytes) → has js x ≡ has ks x)
    → js ≡ ks
unfolding has
ascending_eq [] [] ascending_nil ascending_nil h = refl
ascending_eq [] (k ∷ ks) ascending_nil (ascending_cons above new rest) h =
    absurd (ground (arith, h k, same_refl k))
ascending_eq (j ∷ js) [] (ascending_cons above new rest) ascending_nil h =
    absurd (ground (arith, h j, same_refl j))
ascending_eq (j ∷ js) (k ∷ ks) (ascending_cons above new rest) (ascending_cons above' new' rest')
      h =
    let heads : j ≡ k =
      le_bytes_antisym j k (below_head j js above k (ground (arith, h k, same_refl k)))
        (below_head k ks above' j (ground (arith, h j, same_refl j))) in
    ap₂ ◌∷◌ heads (ascending_eq js ks rest rest' (λ x. tails heads x))
  where
    tails : j ≡ k → (x : Bytes) → has js x ≡ has ks x
    tails heads x = elim (Bool-cases (same j x)) [
      | inl own ↦
          subst (λ t. has js t ≡ has ks t) ((same_iff j x).0 own)
            (new ∙ sym (subst (λ t. has ks t ≡ false) (sym heads) new'))
      | inr other ↦ ground (arith, h x, other, ap (λ t. same t x) heads)
    ]

-- Two sets with the same elements are written as the same list.
pub dedup-sort_eq :
    (js ks : List Bytes) → ((x : Bytes) → has js x ≡ has ks x) → dedup (sort js) ≡ dedup (sort ks)
dedup-sort_eq js ks h =
    ascending_eq (dedup (sort js)) (dedup (sort ks)) (dedup-IsAscending _ (sort-IsSorted js))
      (dedup-IsAscending _ (sort-IsSorted ks))
      (λ x.
        has-dedup (sort js) x ∙ has-sort js x ∙ h x ∙ sym (has-dedup (sort ks) x ∙ has-sort ks x))
