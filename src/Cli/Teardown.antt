-- ===== src/Cli/Teardown.antt =====
-- src/main.rs: `stop`, as what it makes of the files of the state directory and prints.
-- A `Round` is the clock and the files at one moment: the proxy writes them while `stop` waits.
pub mod Cleanup
pub mod AfterRun
use cicache.Prelude.{
  ℕ, zero, suc, ◌+◌, Bool, true, false, not, ◌&&◌, Option, none, some, List, [], ◌∷◌, ◌++◌, ltb,
  if◌then◌else◌,
}
use cicache.Text.Utf8.{Bytes, codes}
use cicache.Stats.{Summary}
use cicache.Text.Number.{decimal}
use cicache.Text.Lines.{push_lines}
use cicache.Cli.Curlrc.{after, clear_curlrc}
use cicache.Cli.Keychain.{Ran, remove_system_trust}
use cicache.Cli.Waiting.{End, later}
use cicache.Cli.Launch.{State}
use cicache.Cli.Report.{grouped, report, print_daemon_log}

pub record Files : Type 0 where
  pub state : Option Bytes
  pub summary : Option Bytes
  pub daemon_log : Option Bytes
  pub curlrc : Option Bytes
  pub has_objects : Bool
  pub read : Bytes → Option Bytes

pub record Round : Type 0 where
  pub now : ℕ
  pub files : Files

abbrev pub is_some : Option Bytes → Bool
is_some none = false
is_some (some contents) = true

-- The round in which the loop ends.
unfoldable pub wait_for_summary : ℕ → ℕ → (ℕ → Round) → Option ℕ
wait_for_summary zero deadline rounds = none
wait_for_summary (suc fuel) deadline rounds =
    let rest = wait_for_summary fuel deadline (later rounds) in
    if ltb (rounds 0).now deadline && not (is_some (rounds 0).files.summary)
    then elim rest [ none ↦ none | some k ↦ some (suc k) ]
    else some 0

-- The machine and the calls: whether the client is built, what there is to see in each round after a
-- request is posted to a URL, whether there is a home, whether the keychain may be touched and how
-- the command ends, what serde_json reads, and the summary's text.
-- Whether `.curlrc` can be written and the objects and `state.json` be removed is the last; `remove_dir_all`
-- may fail with a part of the objects gone.
pub record Host : Type 0 where
  pub built : Bool
  pub post : Bytes → ℕ → Round
  pub home : Bool
  pub may_touch : Bool
  pub deleting : End
  pub curlrc_written : Bool
  pub objects_removed : Bool
  pub state_removed : Bool
  pub parse_state : Bytes → Option State
  pub parse_summary : Bytes → Option Summary
  pub render : Summary → Bytes

pub data Stopped : Type 0 where
  nothing_to_stop bad_state no_client out_of_fuel : Stopped
  bad_summary : Files → Bytes → Stopped
  cleaned : Files → Bytes → Stopped

module _ (host : Host) where
  -- Calls that fail leave what was there, and none of them is looked at.
  unfoldable pub clean_up : Files → Files
  clean_up files =
      let cleared = after (clear_curlrc host.home files.curlrc) files.curlrc in
      record files {
        state = if host.state_removed then none else files.state;
        curlrc = if host.curlrc_written then cleared else files.curlrc;
        has_objects = files.has_objects && not host.objects_removed;
      }

  abbrev pub request_log : Bool → State → Files → Bytes
  request_log true state files = []
  request_log false state files = elim (files.read state.log_path) [
    | none ↦ []
    | some log ↦ codes "::group::cicache requests\n" ++ (log ++ codes "::endgroup::\n")
  ]

  abbrev pub finish : Files → Bytes → Stopped
  finish files printed =
      cleaned (clean_up files)
        (printed ++ push_lines (remove_system_trust host.may_touch host.deleting).printed)

  unfoldable pub read_parsed : Bytes → Files → Option Summary → Stopped
  read_parsed printed files none = bad_summary files printed
  read_parsed printed files (some summary) =
      finish files (printed ++ push_lines (report host.render summary files.daemon_log))

  unfoldable pub read_summary : Bytes → Files → Option Bytes → Stopped
  read_summary printed files none = finish files (
      printed
      ++ push_lines (
          codes "cicache: proxy did not report a summary before the timeout"
          ∷ print_daemon_log files.daemon_log))
  read_summary printed files (some contents) =
      read_parsed printed files (host.parse_summary contents)

  -- The files are read in the round after the one in which the loop ends.
  unfoldable pub stop_waited : Bool → State → (ℕ → Round) → Option ℕ → Stopped
  stop_waited quiet state rounds none = out_of_fuel
  stop_waited quiet state rounds (some k) =
      let files = (rounds (suc k)).files in
      read_summary (request_log quiet state files) files files.summary

  abbrev pub shutdown_url : State → Bytes
  shutdown_url state =
      codes "http://127.0.0.1:" ++ (decimal state.port ++ codes "/__cicache/shutdown")

  unfoldable pub stop_parsed : ℕ → Bool → ℕ → ℕ → Option State → Stopped
  stop_parsed fuel quiet timeout start none = bad_state
  stop_parsed fuel quiet timeout start (some state) =
      if not host.built
      then no_client
      else (let rounds = host.post (shutdown_url state) in
          stop_waited quiet state rounds (wait_for_summary fuel (start + timeout) rounds))

  -- `contents` is what `state.json` reads as, and `start` the clock after the request.
  unfoldable pub stop : ℕ → Bool → ℕ → ℕ → Option Bytes → Stopped
  stop fuel quiet timeout start none = nothing_to_stop
  stop fuel quiet timeout start (some contents) =
      stop_parsed fuel quiet timeout start (host.parse_state contents)
