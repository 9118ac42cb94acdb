-- ===== src/Stats/Laws.antt =====
-- What the counters and the log say of the calls that were made.
use cicache.Prelude.{
  ℕ, ◌+◌, ◌%◌, ◌^◌, ◌≤◌, ◌<◌, ◌≡◌, Bool, true, false, List, [], ◌∷◌, arith, length,
}
use cicache.Text.Utf8.{Bytes}
use cicache.Stats.{Outcome, Summary, Stats, count, record_request, record_upload, record_packed}

-- A call of one of the methods that change the counters.
pub data Call : Type 0 where
  requested : Outcome → Bytes → Bytes → ℕ → ℕ → Call
  uploaded : ℕ → Bool → Call
  packs : ℕ → ℕ → Call

unfoldable pub step : Stats → Call → Stats
step s (requested outcome method url bytes millis) =
    record_request s outcome method url bytes millis
step s (uploaded bytes ok) = record s { counts = record_upload s.counts bytes ok }
step s (packs objects bytes) = record s { counts = record_packed s.counts objects bytes }

unfoldable pub run : Stats → List Call → Stats
run s [] = s
run s (c ∷ cs) = run (step s c) cs

-- Every request is counted under one of the four heads, up to the width of the counters.
pub record IsBalanced (c : Summary) : Type 0 where
  pub heads : c.requests ≡ (c.hits + c.misses + c.passthrough + c.errors) % 2 ^ 64

-- With as many calls as the counters can hold, the sums are exact.
pub record IsExact (n : ℕ) (c : Summary) : Type 0 where
  pub heads : c.requests ≡ c.hits + c.misses + c.passthrough + c.errors
  pub within : c.stored ≤ c.misses
  pub bounded : c.requests ≤ n

count-IsBalanced :
    (c : Summary) (o : Outcome) (bytes millis : ℕ)
    → IsBalanced c
    → IsBalanced (count c o bytes millis)
unfolding count
count-IsBalanced c o bytes millis b = record { heads = ground arith }

step-IsBalanced : (s : Stats) (c : Call) → IsBalanced s.counts → IsBalanced (step s c).counts
unfolding step record_upload record_packed
step-IsBalanced s (requested o method url bytes millis) b =
    unfold record_request in count-IsBalanced s.counts o bytes millis b
step-IsBalanced s (uploaded bytes true) b = record { heads = b.heads }
step-IsBalanced s (uploaded bytes false) b = record { heads = b.heads }
step-IsBalanced s (packs objects bytes) b = record { heads = b.heads }

-- After any calls, the requests are the hits, misses, forwarded requests and errors together,
-- modulo the width of the counters.
pub run-IsBalanced :
    (s : Stats) (cs : List Call) → IsBalanced s.counts → IsBalanced (run s cs).counts
unfolding run
run-IsBalanced s [] b = b
run-IsBalanced s (c ∷ cs) b = run-IsBalanced (step s c) cs (step-IsBalanced s c b)

count-IsExact :
    (n : ℕ) (c : Summary) (o : Outcome) (bytes millis : ℕ)
    → n + 1 < 2 ^ 64
    → IsExact n c
    → IsExact (n + 1) (count c o bytes millis)
unfolding count
count-IsExact n c o bytes millis h e = ground arith

step-IsExact :
    (n : ℕ) (s : Stats) (c : Call)
    → n + 1 < 2 ^ 64
    → IsExact n s.counts
    → IsExact (n + 1) (step s c).counts
unfolding step record_upload record_packed
step-IsExact n s (requested o method url bytes millis) h e =
    unfold record_request in count-IsExact n s.counts o bytes millis h e
step-IsExact n s (uploaded bytes ok) h e = ground arith
step-IsExact n s (packs objects bytes) h e = ground arith

-- From counters that are exact for `n` requests, fewer calls than the counters can hold leave them
-- exact: no more responses are stored than missed, and the four heads add up to the requests.
pub run-IsExact :
    (n m : ℕ) (s : Stats) (cs : List Call)
    → m ≡ n + length cs
    → m < 2 ^ 64
    → IsExact n s.counts
    → IsExact m (run s cs).counts
unfolding run
run-IsExact n m s [] same h e = record { heads = e.heads; within = e.within; bounded = omega arith }
run-IsExact n m s (c ∷ cs) same h e =
    run-IsExact (n + 1) m (step s c) cs (omega arith) h (step-IsExact n s c (omega arith) e)
