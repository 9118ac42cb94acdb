-- ===== src/Text/Sort.antt =====
-- `sort` and `dedup` on texts, in the order of their bytes.
pub mod Laws
pub mod Canonical
use cicache.Prelude.{Bool, true, false, ◌&&◌, ◌||◌, List, [], ◌∷◌, ◌==◌, ltb, if◌then◌else◌}
use cicache.Text.Utf8.{Bytes}
use cicache.Text.Compare.{same}

unfoldable pub le_bytes : Bytes → Bytes → Bool
le_bytes [] t = true
le_bytes (a ∷ s) [] = false
le_bytes (a ∷ s) (b ∷ t) = ltb a b || (a == b && le_bytes s t)

unfoldable pub insert_sorted : Bytes → List Bytes → List Bytes
insert_sorted k [] = k ∷ []
insert_sorted k (j ∷ keys) =
    let rest = insert_sorted k keys in if le_bytes k j then k ∷ (j ∷ keys) else j ∷ rest

unfoldable pub sort : List Bytes → List Bytes
sort [] = []
sort (k ∷ keys) = insert_sorted k (sort keys)

-- Of equal neighbours the first is kept.
unfoldable pub dedup : List Bytes → List Bytes
dedup [] = []
dedup (k ∷ []) = k ∷ []
dedup (k ∷ (j ∷ keys)) = let rest = dedup (j ∷ keys) in if same k j then rest else k ∷ rest
