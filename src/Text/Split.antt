-- ===== src/Text/Split.antt =====
-- `split(',')`, `trim` on ASCII text and `to_ascii_lowercase`.
use cicache.Prelude.{ℕ, ◌+◌, Bool, ◌&&◌, ◌||◌, List, [], ◌∷◌, ◌==◌, leb, if◌then◌else◌, map}
use mathlib.Core.List.{reverse}
use cicache.Text.Utf8.{Bytes}

-- What stands before a byte is joined to the first piece of the rest.
abbrev pub push_first : ℕ → List Bytes → List Bytes
push_first b [] = (b ∷ []) ∷ []
push_first b (piece ∷ pieces) = (b ∷ piece) ∷ pieces

unfoldable pub split : ℕ → Bytes → List Bytes
split sep [] = [] ∷ []
split sep (b ∷ s) = let rest = split sep s in if b == sep then [] ∷ rest else push_first b rest

abbrev pub is_whitespace : ℕ → Bool
is_whitespace b = b == 32 || (leb 9 b && leb b 13)

unfoldable pub trim_start : Bytes → Bytes
trim_start [] = []
trim_start (b ∷ s) = if is_whitespace b then trim_start s else b ∷ s

unfoldable pub trim : Bytes → Bytes
unfolding trim_start
trim s = reverse (trim_start (reverse (trim_start s)))

-- `trim_start_matches` and `trim_end_matches` with one byte.
unfoldable pub trim_start_matches : ℕ → Bytes → Bytes
trim_start_matches c [] = []
trim_start_matches c (b ∷ s) = if b == c then trim_start_matches c s else b ∷ s

unfoldable pub trim_end_matches : ℕ → Bytes → Bytes
unfolding trim_start_matches
trim_end_matches c s = reverse (trim_start_matches c (reverse s))

abbrev pub lower : ℕ → ℕ
lower b = if leb b'A' b && leb b b'Z' then b + 32 else b

abbrev pub to_ascii_lowercase : Bytes → Bytes
to_ascii_lowercase = map lower
