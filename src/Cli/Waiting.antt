-- ===== src/Cli/Waiting.antt =====
-- src/main.rs: the loops that wait: `run_bounded` for a command, `wait_for_state` for the proxy, and
-- the one in `stop` for the summary. A loop sees one poll per round: the clock and what it asks for.
pub mod States
pub mod Commands
use cicache.Prelude.{
  ℕ, zero, suc, ◌+◌, ◌≤◌, ◌<◌, ◌≡◌, ◌≢◌, ◌↔◌, inl, inr, refl, Bool, true, false, Option, none, some,
  arith, leb, ltb, Bool-cases, ltb→lt, lt→ltb, le→ltb, le→leb, lt→leb, leb→lt, if◌then◌else◌,
}
use cicache.Text.Utf8.{Bytes}

-- `try_wait`, and the clock after it.
pub data Status : Type 0 where
  exited : ℕ → Status
  running failed : Status

pub record Poll : Type 0 where
  pub status : Status
  pub now : ℕ

-- How `run_bounded` ends: with the status, with the command killed and waited for, or without an
-- answer, since the system gave none.
pub data End : Type 0 where
  returned : ℕ → End
  killed lost out_of_fuel : End

abbrev pub later {ℓ} : {A : Type ℓ} → (ℕ → A) → ℕ → A
later polls i = polls (suc i)

unfoldable pub run_from : ℕ → ℕ → (ℕ → Poll) → End
run_from zero deadline polls = out_of_fuel
run_from (suc fuel) deadline polls = elim (polls 0).status [
  | exited status ↦ returned status
  | running ↦ if leb deadline (polls 0).now then killed else run_from fuel deadline (later polls)
  | failed ↦ lost
]

-- The command may not start; `start` is the clock after that.
unfoldable pub run_bounded : ℕ → Bool → ℕ → ℕ → (ℕ → Poll) → End
run_bounded fuel spawned start limit polls =
    if spawned then run_from fuel (start + limit) polls else lost

-- The clock at a round, and what the file reads as then.
pub record Look : Type 0 where
  pub now : ℕ
  pub contents : Option Bytes

module _ {ℓ} {State : Type ℓ} (from_str : Bytes → Option State) where
  abbrev pub seen : Look → Option State
  seen look = elim look.contents [ none ↦ none | some contents ↦ from_str contents ]

  pub data Wait : Type ℓ where
    found : State → Wait
    timed_out exhausted : Wait

  unfoldable pub wait_from : ℕ → ℕ → (ℕ → Look) → Wait
  wait_from zero deadline looks = exhausted
  wait_from (suc fuel) deadline looks =
      if ltb (looks 0).now deadline
      then (elim (seen (looks 0)) [
        | some state ↦ found state
        | none ↦ wait_from fuel deadline (later looks)
      ])
      else timed_out
