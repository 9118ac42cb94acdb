-- ===== src/Cli/Start.antt =====
-- src/main.rs: `start`, as what it makes of `~/.curlrc` and of the environment, and prints.
pub mod Exported
use cicache.Prelude.{
  ℕ, ◌+◌, Bool, true, false, not, Option, none, some, List, [], ◌∷◌, ◌++◌, if◌then◌else◌,
}
use cicache.Text.Utf8.{Bytes, codes}
use cicache.Text.Number.{decimal}
use cicache.Text.Lines.{push_lines}
use cicache.Cli.Curlrc.{Edit, write, after, write_curlrc}
use cicache.Cli.Keychain.{may_touch_system_trust, install_system_trust}
use cicache.Cli.Waiting.{End, Look, Wait, found, timed_out, exhausted, wait_from}
use cicache.Cli.Launch.{ProxyArgs, to_run_args, State, Export, append_to, print, export_environment}

-- The system's answers: the environment, whether the platform is macOS, the user's home and
-- `.curlrc`, whether it can be written, how the keychain's command ends, and whether the file of
-- `GITHUB_ENV` is opened and written. A failure
-- is its text.
pub record Machine : Type 0 where
  pub var : Bytes → Option Bytes
  pub macos : Bool
  pub home : Bool
  pub curlrc : Option Bytes
  pub write_error : Option Bytes
  pub adding : End
  pub export_error : Option Bytes

-- What is left when `start` ends.
pub record Left : Type 0 where
  pub curlrc : Option Bytes
  pub exported : Option Export
  pub command : Option (List Bytes)
  pub printed : Bytes

pub data Started : Type 0 where
  already_running no_directory not_spawned not_found out_of_fuel : Started
  not_exported : Left → Started
  listens : Left → Started

-- `.curlrc` after the edit, and the line for an edit that fails.
abbrev pub edited : Option Bytes → Edit → Option Bytes → Option Bytes × List Bytes
edited (some error) (write contents) file =
    (file, (codes "cicache: could not configure curl for Homebrew: " ++ error) ∷ [])
edited error edit file = (after edit file, [])

abbrev pub said : Export → Bytes
said (append_to path text) = []
said (print text) = text

abbrev pub is_set : Option Bytes → Bool
is_set none = false
is_set (some value) = true

-- Printing does not fail.
abbrev pub failed : Export → Option Bytes → Bool
failed (append_to path text) error = is_set error
failed (print text) error = false

abbrev pub no_service : Bool → Option Bytes → List Bytes
no_service true results = []
no_service false (some github_actions) =
    codes
      "::warning title=cicache::ACTIONS_RESULTS_URL is not set, so nothing will be stored beyond this job. Export the cache-service variables before starting the proxy, or use the composite action, which does it for you."
    ∷ []
no_service false none =
    codes "cicache: no Actions cache service in the environment; local cache only" ∷ []

unfoldable pub announce : Machine → State → List Bytes
announce m state =
    (codes "cicache listening on 127.0.0.1:"
      ++ (decimal state.port ++ (codes " (CA at " ++ (state.ca_path ++ codes ")"))))
    ∷ no_service (is_set (m.var (codes "ACTIONS_RESULTS_URL"))) (m.var (codes "GITHUB_ACTIONS"))

unfoldable pub export_to : Machine → State → Bool → Option Bytes × List Bytes → Started
export_to m state no_github_env (curlrc, lines) =
    let trust =
      install_system_trust (may_touch_system_trust m.macos (m.var (codes "GITHUB_ACTIONS")))
        state.ca_path m.adding in
    let exports = export_environment m.var m.macos state no_github_env in
    let before = push_lines (lines ++ trust.printed) in
    if failed exports m.export_error
    then not_exported
        (record { curlrc = curlrc; exported = none; command = trust.command; printed = before })
    else listens (record {
      curlrc = curlrc;
      exported = some exports;
      command = trust.command;
      printed = before ++ (said exports ++ push_lines (announce m state));
    })

unfoldable pub found_state :
    {from_str : Bytes → Option State} → Machine → Bool → Wait from_str → Started
found_state m no_github_env timed_out = not_found
found_state m no_github_env exhausted = out_of_fuel
found_state m no_github_env (found state) =
    export_to m state no_github_env
      (edited m.write_error (write_curlrc m.macos m.home m.curlrc state.bundle_path) m.curlrc)

-- Whether the state is there, whether the directory and the log are made, and what there is to see
-- once a process is started with its arguments, where it can be; the file of the state is waited for
-- until twenty seconds later, in milliseconds. `dir` is the state directory.
unfoldable pub start :
    ℕ
    → (Bytes → Option State)
    → Machine
    → ProxyArgs
    → Bytes
    → Bool
    → Bool
    → (List Bytes → Option (ℕ → Look))
    → ℕ
    → Started
start fuel from_str m a dir exists made spawn now =
    if exists
    then already_running
    else if not made
    then no_directory
    else elim (spawn (codes "run" ∷ to_run_args m.var a dir)) [
      | none ↦ not_spawned
      | some looks ↦ found_state m a.no_github_env (wait_from from_str fuel (now + 20000) looks)
    ]
