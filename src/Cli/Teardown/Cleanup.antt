-- ===== src/Cli/Teardown/Cleanup.antt =====
-- src/main.rs: when `stop` ends, and when it cleans up.
use cicache.Prelude.{ℕ, ◌<◌, ◌≡◌, ◌⊎◌, Bool, true, false, not, ◌&&◌, none, some, ltb}
use cicache.Text.Utf8.{Bytes}
use cicache.Stats.{Summary}
use cicache.Cli.Teardown.{Files, Round, Host, is_some}

-- The loop goes on at a round.
abbrev pub waits : ℕ → Round → Bool
waits deadline round = ltb round.now deadline && not (is_some round.files.summary)

-- The first round at which the deadline has passed or the summary is there.
pub record IsEnd (deadline : ℕ) (rounds : ℕ → Round) (k : ℕ) : Type 0 where
  pub ends : waits deadline (rounds k) ≡ false
  pub before : (j : ℕ) → j < k → waits deadline (rounds j) ≡ true

module _ (host : Host) where
  -- There is no summary, or one that serde_json reads.
  abbrev pub IsReadable : Files → Type 0
  IsReadable files =
      (files.summary ≡ none)
      ⊎ ((contents : Bytes) × (summary : Summary) × (files.summary ≡ some contents)
          × (host.parse_summary contents ≡ some summary))
