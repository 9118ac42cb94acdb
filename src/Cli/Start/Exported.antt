-- ===== src/Cli/Start/Exported.antt =====
-- src/main.rs: what `start` exports of a run that has published its state.
use cicache.Prelude.{ℕ, ◌<◌, ◌≡◌, Bool, true, ◌&&◌, List, [], ◌∷◌, leb}
use cicache.Text.Utf8.{Bytes}
use cicache.Text.Lines.Laws.{lacks}
use cicache.Cli.Launch.{State}

-- No control character is there.
abbrev printable : Bytes → Bool
printable [] = true
printable (c ∷ s) = leb 32 c && printable s

abbrev all_printable : List Bytes → Bool
all_printable [] = true
all_printable (s ∷ ss) = printable s && all_printable ss

-- The paths of a state hold no line end.
pub record IsOneLine (state : State) : Type 0 where
  pub ca : (b : ℕ) → b < 32 → lacks b state.ca_path ≡ true
  pub bundle : (b : ℕ) → b < 32 → lacks b state.bundle_path ≡ true
