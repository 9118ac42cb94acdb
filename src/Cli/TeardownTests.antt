-- ===== src/Cli/TeardownTests.antt =====
-- Runs of `stop` and of its report on concrete values.
use cicache.Prelude.{ℕ, zero, suc, ◌+◌, ◌≡◌, ◌≢◌, refl, true, false, Option, none, some, [], ◌∷◌}
use cicache.Cli.Launch.{export_environment}
use cicache.Cli.Waiting.{Wait, found}
use cicache.Cli.Curlrc.{write_curlrc, end_line}
use cicache.Cli.Keychain.{install_system_trust}
use cicache.Cli.Start.{Machine, Left, listens, found_state, export_to}
use cicache.Text.Search.{contains, strip_prefix}
use cicache.Text.Utf8.{Bytes, codes}
use cicache.Text.Compare.{same}
use cicache.Text.Sort.{sort, insert_sorted, le_bytes}
use cicache.Stats.{Summary, zero_summary}
use cicache.Gha.Instance.{site, client}
use cicache.Store.{Store, new, save_pack, read_objects}
use cicache.Store.Instance.{files, look_up, config}
use cicache.Cli.Waiting.{killed}
use cicache.Cli.Launch.{State}
use cicache.Cli.Report.{none_reached, warning_of}
use cicache.Cli.Report.Silence.{save_pack-silences}
use cicache.Cli.Teardown.{Files, Round, Host, Stopped, bad_summary, stop}

abbrev parse_state : Bytes → Option State
parse_state contents =
    some (record { pid = 7; port = 80; ca_path = []; bundle_path = []; log_path = codes "l" })

-- A summary is written as one `{}`.
unfoldable parse_summary : Bytes → Option Summary
parse_summary [] = none
parse_summary (b ∷ s) = some zero_summary

abbrev dir : Option Bytes → Files
dir summary = record {
  state = some (codes "{}");
  summary = summary;
  daemon_log = none;
  curlrc = none;
  has_objects = true;
  read = λ path. none;
}

-- The file is there in the second round, and has its contents two rounds later.
unfoldable rounds : ℕ → Round
rounds zero = record { now = 1; files = dir none }
rounds (suc zero) = record { now = 2; files = dir (some []) }
rounds (suc (suc zero)) = record { now = 3; files = dir (some []) }
rounds (suc (suc (suc i))) = record { now = i + 4; files = dir (some (codes "{}")) }

abbrev host : Host
host = record {
  built = true;
  post = λ url. rounds;
  home = true;
  may_touch = false;
  deleting = killed;
  curlrc_written = true;
  objects_removed = true;
  state_removed = true;
  parse_state = parse_state;
  parse_summary = parse_summary;
  render = λ summary. codes "nothing";
}

-- A summary of which nothing is written yet ends `stop` before it cleans up.
stop_too_early : stop host 6 false 5 0 (some (codes "{}")) ≡ bad_summary (dir (some [])) []
unfolding stop cicache.Cli.Teardown.stop_parsed cicache.Cli.Teardown.stop_waited
    cicache.Cli.Teardown.wait_for_summary cicache.Cli.Teardown.read_summary
    cicache.Cli.Teardown.read_parsed parse_summary rounds
stop_too_early = refl

abbrev gone : Store site files
gone =
    record (new site files ((codes "k", codes "abc") ∷ [])
      (record { world = record { status = 200; calls = 0; held = none }; exhausted = true })) {
        packed = codes "k" ∷ [];
        pack_dirty = true;
      }

save_pack-silences_example :
    let s' = save_pack site files config 1 (codes "run") gone in
    (s'.remote ≡ gone.remote) × (warning_of s'.counts ≢ none_reached)
unfolding new
save_pack-silences_example =
    save_pack-silences site files config client gone 1 (codes "run")
      (record { key = codes "k"; body = codes "abc" }) [] refl refl refl
      (unfold sort insert_sorted le_bytes read_objects look_up same in refl)

-- On macOS outside a runner `start` names the bundle in `.curlrc`, and leaves the keychain alone.
abbrev machine : Machine
machine = record {
  var = λ name. none;
  macos = true;
  home = true;
  curlrc = none;
  write_error = none;
  adding = killed;
  export_error = none;
}

abbrev begun : Wait parse_state
begun = found (record {
  pid = 7;
  port = 80;
  ca_path = codes "ca";
  bundle_path = codes "b";
  log_path = codes "l";
})

start_edits :
    (left : Left) × (found_state machine false begun ≡ listens left)
    × (left.curlrc ≡ some (codes "# added by cicache\ncacert = b\n"))
    × (left.command ≡ none)
unfolding found_state export_to write_curlrc contains end_line install_system_trust strip_prefix
    export_environment
start_edits = (_, refl, refl, refl)
