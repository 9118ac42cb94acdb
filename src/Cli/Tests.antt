-- ===== src/Cli/Tests.antt =====
-- Runs of the command line's parts on concrete values.
use cicache.Prelude.{◌+◌, ℕ, zero, suc, ◌≡◌, ◌≢◌, ◌↔◌, refl, true, none, some, List, [], ◌∷◌, arith}
use cicache.Text.Utf8.{Bytes, codes}
use cicache.Text.Search.{strip_prefix}
use cicache.Cli.Curlrc.{kept_lines}
use cicache.Cli.Waiting.{
  exited, running, Poll, killed, returned, run_bounded, run_from, out_of_fuel, Look, found,
  exhausted, wait_from,
}
use cicache.Cli.Waiting.States.{IsFirst, wait_for_state_iff}
use cicache.Cli.Waiting.Commands.{IsExit, run_bounded_iff}

abbrev curlrc : List Bytes
curlrc = codes "--silent" ∷ codes "cacert = own.pem" ∷ []

abbrev bundle : Bytes
bundle = codes "/tmp/b.pem"

own_line_is_lost : kept_lines curlrc ≡ codes "--silent" ∷ []
unfolding kept_lines strip_prefix
own_line_is_lost = refl

-- A command that runs for two polls and then exits.
unfoldable polls : ℕ → Poll
polls zero = record { status = running; now = 1 }
polls (suc zero) = record { status = running; now = 3 }
polls (suc (suc i)) = record { status = exited 0; now = 9 }

run_bounded_iff_example :
    (run_bounded 4 true 0 5 polls ≢ out_of_fuel)
    × ((status : ℕ)
        → ((run_bounded 4 true 0 5 polls ≡ returned status)
            ↔ ((true ≡ true) × (k : ℕ) × IsExit 5 polls k status)))
unfolding polls
run_bounded_iff_example = run_bounded_iff 3 0 5 true polls (omega arith)

too_late : run_bounded 4 true 0 2 polls ≡ killed
unfolding run_bounded run_from polls
too_late = refl

-- The file is written after the first round.
unfoldable looks : ℕ → Look
looks zero = record { now = 1; contents = none }
looks (suc i) = record { now = i + 2; contents = some (codes "7") }

wait_for_state_iff_example :
    (wait_from some 4 4 looks ≢ exhausted)
    × ((state : Bytes)
        → ((wait_from some 4 4 looks ≡ found state) ↔ ((k : ℕ) × IsFirst some 4 looks k state)))
unfolding looks
wait_for_state_iff_example = wait_for_state_iff some 3 4 looks (omega arith)

state_is_read : wait_from some 4 4 looks ≡ found (codes "7")
unfolding wait_from looks
state_is_read = refl
