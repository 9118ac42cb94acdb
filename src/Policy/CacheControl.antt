-- ===== src/Policy/CacheControl.antt =====
-- src/policy.rs: what a `Cache-Control` value says, once it is in lower case.
use cicache.Prelude.{ℕ, Bool, ◌||◌, Option, none, some, List, [], ◌∷◌}
use cicache.Text.Utf8.{Bytes, codes}
use cicache.Text.Search.{strip_prefix, contains}
use cicache.Text.Split.{split, trim}
use cicache.Text.Number.{parse_u64}

-- `find_map(|directive| directive.strip_prefix("max-age="))` over the trimmed pieces.
unfoldable pub find_max_age : List Bytes → Option Bytes
find_max_age [] = none
find_max_age (piece ∷ pieces) = elim (strip_prefix (codes "max-age=") (trim piece)) [
  | some value ↦ some value
  | none ↦ find_max_age pieces
]

abbrev pub parsed : Option Bytes → Option ℕ
parsed none = none
parsed (some value) = parse_u64 value

unfoldable pub max_age : Bytes → Option ℕ
max_age cache_control = parsed (find_max_age (split b',' cache_control))

abbrev pub forbids_storing : Bytes → Bool
forbids_storing cache_control =
    contains cache_control (codes "no-store")
    || contains cache_control (codes "no-cache")
    || contains cache_control (codes "private")
