-- ===== src/Cli/Waiting/Commands.antt =====
-- src/main.rs: when `run_bounded` ends, and which status it gives.
use cicache.Prelude.{
  ℕ, zero, suc, ◌+◌, ◌≤◌, ◌<◌, ◌≡◌, ◌≢◌, ◌↔◌, inl, inr, refl, Bool, true, false, arith, leb, ltb,
  Bool-cases, ltb→lt, le→leb, lt→leb, leb→lt,
}
use cicache.Cli.Waiting.{
  Status, exited, running, failed, Poll, returned, out_of_fuel, later, run_from, run_bounded,
}

-- The round in which the command has exited: at every one before it, it runs and has time.
pub record IsExit (deadline : ℕ) (polls : ℕ → Poll) (k status : ℕ) : Type 0 where
  pub done : (polls k).status ≡ exited status
  pub before : (j : ℕ) → j < k → ((polls j).status ≡ running) × ((polls j).now < deadline)

IsExit-later :
    (deadline : ℕ) (polls : ℕ → Poll) (k status : ℕ)
    → ((polls 0).status ≡ running) × ((polls 0).now < deadline)
    → IsExit deadline (later polls) k status
    → IsExit deadline polls (suc k) status
IsExit-later deadline polls k status start h = record { done = h.done; before = λ j. λ p. go j p }
  where
    go : (j : ℕ) → j < suc k → ((polls j).status ≡ running) × ((polls j).now < deadline)
    go zero p = start
    go (suc j) p = h.before j (omega arith)

run_from-IsExit :
    (fuel deadline : ℕ) (polls : ℕ → Poll) (status : ℕ)
    → run_from fuel deadline polls ≡ returned status
    → (k : ℕ) × IsExit deadline polls k status
unfolding run_from
run_from-IsExit zero deadline polls status h = cc
run_from-IsExit (suc fuel) deadline polls status h =
    go (run_from-IsExit fuel deadline (later polls) status) (polls 0).status
      (leb deadline (polls 0).now) refl refl
  where
    go :
        (run_from fuel deadline (later polls) ≡ returned status
          → (k : ℕ) × IsExit deadline (later polls) k status)
        → (now : Status) (late : Bool) → (polls 0).status ≡ now
        → leb deadline (polls 0).now ≡ late
        → (k : ℕ) × IsExit deadline polls k status
    go rest (exited other) late e l =
        (0, record { done = cc (rw (run_from, e) at h); before = λ j. λ p. absurd (omega arith) })
    go rest running true e l = cc (rw (run_from, e, l) at h)
    go rest running false e l =
        let (k, exit) = rest (rw (run_from, e, l) at h) in
        (suc k, IsExit-later deadline polls k status (e, leb→lt _ _ l) exit)
    go rest failed late e l = cc (rw (run_from, e) at h)

IsExit-run_from :
    (fuel deadline : ℕ) (polls : ℕ → Poll) (k status : ℕ)
    → k < fuel
    → IsExit deadline polls k status
    → run_from fuel deadline polls ≡ returned status
unfolding run_from
IsExit-run_from zero deadline polls k status enough exit = absurd (omega arith)
IsExit-run_from (suc fuel) deadline polls zero status enough exit = rw (run_from, exit.done) refl
IsExit-run_from (suc fuel) deadline polls (suc k) status enough exit =
    let (runs, early) = exit.before 0 (omega arith) in
    rw (run_from, runs, lt→leb _ _ early)
      (IsExit-run_from fuel deadline (later polls) k status (omega arith)
        (record { done = exit.done; before = λ j. λ p. exit.before (suc j) (omega arith) }))

run_from-ends :
    (n deadline : ℕ) (polls : ℕ → Poll)
    → deadline ≤ (polls n).now
    → run_from (suc n) deadline polls ≢ out_of_fuel
unfolding run_from
run_from-ends zero deadline polls past = go (polls 0).status refl
  where
    go : (now : Status) → (polls 0).status ≡ now → run_from 1 deadline polls ≢ out_of_fuel
    go (exited status) e = rw (run_from, e) (λ e. cc)
    go running e = rw (run_from, e, le→leb _ _ past) (λ e. cc)
    go failed e = rw (run_from, e) (λ e. cc)
run_from-ends (suc n) deadline polls past =
    go (run_from-ends n deadline (later polls) past) (polls 0).status (leb deadline (polls 0).now)
      refl refl
  where
    go :
        run_from (suc n) deadline (later polls) ≢ out_of_fuel
        → (now : Status) (late : Bool) → (polls 0).status ≡ now
        → leb deadline (polls 0).now ≡ late
        → run_from (suc (suc n)) deadline polls ≢ out_of_fuel
    go rest (exited status) late e l = rw (run_from, e) (λ e. cc)
    go rest running true e l = rw (run_from, e, l) (λ e. cc)
    go rest running false e l = rw (run_from, e, l) rest
    go rest failed late e l = rw (run_from, e) (λ e. cc)

-- Where the clock passes the deadline at some poll, the loop ends there or before it: it gives a
-- status exactly where the command starts and exits with it at some poll, with the command running and the
-- clock before the deadline at every poll until then.
pub run_bounded_iff :
    (n start limit : ℕ) (spawned : Bool) (polls : ℕ → Poll)
    → start + limit ≤ (polls n).now
    → (run_bounded (suc n) spawned start limit polls ≢ out_of_fuel)
      × ((status : ℕ)
          → ((run_bounded (suc n) spawned start limit polls ≡ returned status)
              ↔ ((spawned ≡ true) × (k : ℕ) × IsExit (start + limit) polls k status)))
unfolding run_bounded
run_bounded_iff n start limit false polls past = (λ e. cc, λ status. (λ h. cc, λ h. cc))
run_bounded_iff n start limit true polls past = (
  run_from-ends n _ polls past,
  λ status. (
    (λ h. let (k, exit) = run_from-IsExit (suc n) _ polls status h in (refl, k, exit)),
    λ (_, k, exit). IsExit-run_from (suc n) _ polls k status (in_reach k status exit) exit,
  ),
)
  where
    in_reach : (k status : ℕ) → IsExit (start + limit) polls k status → k < suc n
    in_reach k status exit = elim (Bool-cases (ltb n k)) [
      | inl less ↦ absurd (let early = (exit.before n (ltb→lt _ _ less)).1 in omega arith)
      | inr more ↦ ground arith
    ]
