-- ===== src/Cli/StartTests.antt =====
-- `start` with a run that publishes its state after the first look.
use cicache.Prelude.{ℕ, zero, suc, ◌+◌, true, false, none, some}
use cicache.Cli.LaunchTests.{path_var}
use cicache.Cli.Waiting.{Look, killed}
use cicache.Cli.Start.{Machine}
use cicache.Cli.Run.Process.{state_of}
use cicache.Cli.ProcessTests.{sys, p, state_text}

abbrev machine : Machine
machine = record {
  var = path_var;
  macos = false;
  home = true;
  curlrc = none;
  write_error = none;
  adding = killed;
  export_error = none;
}

-- The file is there from the second look on.
abbrev looks : ℕ → Look
looks zero = record { now = 0; contents = none }
looks (suc i) = record { now = i + 50; contents = some (state_text (state_of sys p)) }
