-- ===== src/Cli/Teardown/AfterRun.antt =====
-- src/main.rs: `stop` after a `run` that got to its end.
use cicache.Prelude.{◌≡◌, some}
use cicache.Text.Utf8.{Bytes}
use cicache.Gha
use cicache.Stats.{Summary}
use cicache.Proxy.Serving.{Proxy}
use cicache.Cli.Launch.{State}
use cicache.Cli.Run.Process.{System}
use cicache.Cli.Teardown.{Host}

-- What is written as JSON is read back.
pub record ReadsBack (sys : System) (host : Host) : Type 0 where
  pub state :
      (state : State) (json : Bytes)
      → sys.state_json state ≡ some json
      → host.parse_state json ≡ some state
  pub summary :
      (c : Summary) (json : Bytes)
      → sys.summary_json c ≡ some json
      → host.parse_summary json ≡ some c
