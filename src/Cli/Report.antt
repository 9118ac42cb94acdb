-- ===== src/Cli/Report.antt =====
-- src/main.rs: what `stop` prints of the summary, and `print_daemon_log`.
pub mod Silence
use cicache.Prelude.{
  take, ℕ, ◌+◌, Bool, true, false, ◌&&◌, Option, none, some, List, [], ◌∷◌, ◌++◌, ◌==◌, ltb,
  if◌then◌else◌,
}
use mathlib.Core.List.{reverse}
use cicache.Text.Utf8.{Bytes, codes}
use cicache.Text.Number.{decimal}
use cicache.Text.Lines.{lines}
use cicache.Stats.{Summary, add}

abbrev pub grouped : Bytes → List Bytes → List Bytes
grouped title ls = (codes "::group::" ++ title) ∷ (ls ++ codes "::endgroup::" ∷ [])

abbrev pub in_group : List Bytes → List Bytes
in_group [] = []
in_group (l ∷ tail) = grouped (codes "cicache daemon log") (reverse (l ∷ tail))

unfoldable pub print_daemon_log : Option Bytes → List Bytes
print_daemon_log none = []
print_daemon_log (some log) = in_group (take 20 (reverse (lines log)))

pub data Warning : Type 0 where
  none_reached some_failed no_warning : Warning

unfoldable pub warning_of : Summary → Warning
warning_of s =
    if ltb 0 s.stored && (s.entries_stored == 0 && s.packed == 0)
    then none_reached
    else if ltb 0 s.uploads_failed
    then some_failed
    else no_warning

abbrev pub warning : Bytes → Bytes
warning text = codes "::warning title=cicache::" ++ text

unfoldable pub warned : Warning → Summary → Option Bytes → List Bytes
warned none_reached s log =
    warning (
      decimal s.stored
      ++ codes
          " responses were eligible to cache but none reached the cache service; later jobs will start cold.")
    ∷ print_daemon_log log
warned some_failed s log =
    warning (
      decimal s.uploads_failed
      ++ (codes " of "
          ++ (decimal (add s.uploads_failed s.entries_stored)
              ++ codes " objects failed to reach the cache service.")))
    ∷ print_daemon_log log
warned no_warning s log = []

-- `render` is the summary's text.
unfoldable pub report : (Summary → Bytes) → Summary → Option Bytes → List Bytes
report render s log = render s ∷ warned (warning_of s) s log
