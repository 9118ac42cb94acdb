-- ===== src/Cli/Curlrc.antt =====
-- src/main.rs: `write_curlrc` and `clear_curlrc`, as what they do to `~/.curlrc`.
use cicache.Prelude.{Bool, true, not, ◌&&◌, Option, none, some, List, [], ◌∷◌, ◌++◌, if◌then◌else◌}
use cicache.Text.Utf8.{Bytes, codes}
use cicache.Text.Search.{contains, starts_with, ends_with}
use cicache.Text.Lines.{lines, join, is_blank}

abbrev pub curlrc_marker : Bytes
curlrc_marker = codes "# added by cicache"

pub data Edit : Type 0 where
  leave remove : Edit
  write : Bytes → Edit

-- The file after an edit that succeeds.
abbrev pub after : Edit → Option Bytes → Option Bytes
after leave file = file
after remove file = none
after (write contents) file = some contents

abbrev pub or_empty : Option Bytes → Bytes
or_empty none = []
or_empty (some contents) = contents

abbrev pub cacert_line : Bytes → Bytes
cacert_line bundle = codes "cacert = " ++ bundle

unfoldable pub end_line : Bytes → Bytes
end_line [] = []
end_line (b ∷ s) = if not (ends_with (b ∷ s) (10 ∷ [])) then (b ∷ s) ++ 10 ∷ [] else b ∷ s

-- On macOS, for a user with a home, and the file's contents where it can be read.
unfoldable pub write_curlrc : Bool → Bool → Option Bytes → Bytes → Edit
write_curlrc macos home file bundle =
    if not macos
    then leave
    else if not home
    then leave
    else if contains (or_empty file) curlrc_marker
    then leave
    else write (end_line (or_empty file) ++ (curlrc_marker ++ 10 ∷ (cacert_line bundle ++ 10 ∷ [])))

-- The filter of `clear_curlrc`.
unfoldable pub kept_lines : List Bytes → List Bytes
kept_lines [] = []
kept_lines (line ∷ rest) =
    let kept = kept_lines rest in
    if not (starts_with line curlrc_marker) && not (starts_with line (codes "cacert = "))
    then line ∷ kept
    else kept

unfoldable pub all_blank : List Bytes → Bool
all_blank [] = true
all_blank (line ∷ rest) = is_blank line && all_blank rest

unfoldable pub clear_contents : Bytes → Edit
clear_contents contents =
    if not (contains contents curlrc_marker)
    then leave
    else let kept = kept_lines (lines contents) in
      if all_blank kept then remove else write (join 10 kept ++ 10 ∷ [])

unfoldable pub clear_curlrc : Bool → Option Bytes → Edit
clear_curlrc home none = leave
clear_curlrc home (some contents) = if not home then leave else clear_contents contents

-- The lines of a file to which the two lines were added.
abbrev added : Bytes → List Bytes → List Bytes
added bundle ls = (ls ++ curlrc_marker ∷ []) ++ cacert_line bundle ∷ []
