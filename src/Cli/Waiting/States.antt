-- ===== src/Cli/Waiting/States.antt =====
-- src/main.rs: when `wait_for_state` ends, and which state it gives.
use cicache.Prelude.{
  ℕ, zero, suc, ◌≤◌, ◌<◌, ◌≡◌, ◌≢◌, ◌↔◌, inl, inr, refl, Bool, true, false, Option, none, some,
  arith, ltb, Bool-cases, ltb→lt, lt→ltb, le→ltb,
}
use cicache.Text.Utf8.{Bytes}
use cicache.Cli.Waiting.{later, Look, seen, found, exhausted, wait_from}

module _ {ℓ} {State : Type ℓ} (from_str : Bytes → Option State) where
  -- The round in which the state is read: before the deadline, and the first to read one.
  pub record IsFirst (deadline : ℕ) (looks : ℕ → Look) (k : ℕ) (state : State) : Type ℓ where
    pub in_time : (looks k).now < deadline
    pub read : seen from_str (looks k) ≡ some state
    pub before : (j : ℕ) → j < k → ((looks j).now < deadline) × (seen from_str (looks j) ≡ none)

  IsFirst-later :
      (deadline : ℕ) (looks : ℕ → Look) (k : ℕ) (state : State)
      → ((looks 0).now < deadline) × (seen from_str (looks 0) ≡ none)
      → IsFirst deadline (later looks) k state
      → IsFirst deadline looks (suc k) state
  IsFirst-later deadline looks k state start h = record {
    in_time = h.in_time;
    read = h.read;
    before = λ j. λ p. go j p;
  }
    where
      go : (j : ℕ) → j < suc k → ((looks j).now < deadline) × (seen from_str (looks j) ≡ none)
      go zero p = start
      go (suc j) p = h.before j (omega arith)

  wait_from-IsFirst :
      (fuel deadline : ℕ) (looks : ℕ → Look) (state : State)
      → wait_from from_str fuel deadline looks ≡ found state
      → (k : ℕ) × IsFirst deadline looks k state
  unfolding wait_from
  wait_from-IsFirst zero deadline looks state h = cc
  wait_from-IsFirst (suc fuel) deadline looks state h =
      go (wait_from-IsFirst fuel deadline (later looks) state) (ltb (looks 0).now deadline)
        (seen from_str (looks 0)) refl refl
    where
      go :
          (wait_from from_str fuel deadline (later looks) ≡ found state
            → (k : ℕ) × IsFirst deadline (later looks) k state)
          → (early : Bool) (read : Option State) → ltb (looks 0).now deadline ≡ early
          → seen from_str (looks 0) ≡ read
          → (k : ℕ) × IsFirst deadline looks k state
      go rest false read late e = cc (rw late at h)
      go rest true (some s) early e = (
        0,
        record {
          in_time = ltb→lt _ _ early;
          read = cc (rw (early, e) at h);
          before = λ j. λ p. absurd (omega arith);
        },
      )
      go rest true none early e =
          let (k, first) = rest (rw (early, e) at h) in
          (suc k, IsFirst-later deadline looks k state (ltb→lt _ _ early, e) first)

  pub IsFirst-wait_from :
      (fuel deadline : ℕ) (looks : ℕ → Look) (k : ℕ) (state : State)
      → k < fuel
      → IsFirst deadline looks k state
      → wait_from from_str fuel deadline looks ≡ found state
  unfolding wait_from
  IsFirst-wait_from zero deadline looks k state enough first = absurd (omega arith)
  IsFirst-wait_from (suc fuel) deadline looks zero state enough first =
      rw (lt→ltb _ _ first.in_time, first.read) refl
  IsFirst-wait_from (suc fuel) deadline looks (suc k) state enough first =
      let (early, nothing) = first.before 0 (omega arith) in
      rw (lt→ltb _ _ early, nothing)
        (IsFirst-wait_from fuel deadline (later looks) k state (omega arith) (record {
          in_time = first.in_time;
          read = first.read;
          before = λ j. λ p. first.before (suc j) (omega arith);
        }))

  wait_from-ends :
      (n deadline : ℕ) (looks : ℕ → Look)
      → deadline ≤ (looks n).now
      → wait_from from_str (suc n) deadline looks ≢ exhausted
  unfolding wait_from
  wait_from-ends zero deadline looks past = rw (le→ltb _ _ past) (λ e. cc)
  wait_from-ends (suc n) deadline looks past =
      go (wait_from-ends n deadline (later looks) past) (ltb (looks 0).now deadline)
        (seen from_str (looks 0)) refl refl
    where
      go :
          wait_from from_str (suc n) deadline (later looks) ≢ exhausted
          → (early : Bool) (read : Option State) → ltb (looks 0).now deadline ≡ early
          → seen from_str (looks 0) ≡ read
          → wait_from from_str (suc (suc n)) deadline looks ≢ exhausted
      go rest false read late e = rw late (λ e. cc)
      go rest true (some s) early e = rw (early, e) (λ e. cc)
      go rest true none early e = rw (early, e) rest

  -- Where the clock passes the deadline at some round, the loop ends there or before it: it gives a
  -- state exactly where that is the first one read, with the clock before the deadline until then.
  pub wait_for_state_iff :
      (n deadline : ℕ) (looks : ℕ → Look)
      → deadline ≤ (looks n).now
      → (wait_from from_str (suc n) deadline looks ≢ exhausted)
        × ((state : State)
            → ((wait_from from_str (suc n) deadline looks ≡ found state)
                ↔ ((k : ℕ) × IsFirst deadline looks k state)))
  wait_for_state_iff n deadline looks past = (
    wait_from-ends n deadline looks past,
    λ state. (
      wait_from-IsFirst (suc n) deadline looks state,
      λ (k, first). IsFirst-wait_from (suc n) deadline looks k state (in_reach k state first) first,
    ),
  )
    where
      in_reach : (k : ℕ) (state : State) → IsFirst deadline looks k state → k < suc n
      in_reach k state first = elim (Bool-cases (ltb n k)) [
        | inl less ↦ absurd (let early = (first.before n (ltb→lt _ _ less)).0 in omega arith)
        | inr more ↦ ground arith
      ]
