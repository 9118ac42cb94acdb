-- ===== src/Ca/Bundle.antt =====
-- What stands in a trust bundle.
use cicache.Prelude.{◌≡◌, Option, none, some, List, [], ◌∷◌, ◌++◌, if◌then◌else◌}
use cicache.Text.Utf8.{Bytes}
use cicache.Text.Search.{ends_with}
use cicache.Ca.{Ca}

-- The contents of the first file of the list that can be read.
pub data FirstReadable (read : Bytes → Option Bytes) (contents : Bytes) : List Bytes → Type 0 where
  this_one :
      {path : Bytes} {paths : List Bytes}
      → read path ≡ some contents
      → FirstReadable read contents (path ∷ paths)
  later_one :
      {path : Bytes} {paths : List Bytes}
      → read path ≡ none
      → FirstReadable read contents paths
      → FirstReadable read contents (path ∷ paths)

-- The text with a line end at its end.
abbrev pub ended : Bytes → Bytes
ended contents = if ends_with contents (10 ∷ []) then contents else contents ++ 10 ∷ []
