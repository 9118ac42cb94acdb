-- ===== src/Stats.antt =====
-- src/stats.rs: the counters of a run. Each is an `AtomicU64`, whose `fetch_add` wraps.
-- A write to the log may fail, at once or after a part of the line, and `record` goes on; Stats/Render
-- has the text of a line.
pub mod Laws
pub mod Render
mod Tests
use cicache.Prelude.{
  ℕ, suc, ◌+◌, ◌%◌, ◌^◌, Bool, true, false, Option, none, some, List, [], ◌∷◌, ◌++◌,
}
use cicache.Text.Utf8.{Bytes, codes}

pub data Outcome : Type 0 where
  hit stored : Outcome
  miss pass error : Bytes → Outcome

-- One line of the request log.
pub record Line : Type 0 where
  pub label : Bytes
  pub bytes : ℕ
  pub millis : ℕ
  pub method : Bytes
  pub url : Bytes
  pub was_stored : Bool

-- What a call of `write_all` leaves in the file: the line, or its first bytes where the call fails.
pub data Piece : Type 0 where
  whole : Line → Piece
  cut : Line → ℕ → Piece

-- The log file. Of the writes to come, `results` says which fail and after how many bytes.
pub record LogFile : Type 0 where
  pub pieces : List Piece
  pub results : ℕ → Option ℕ

pub record Summary : Type 0 where
  pub requests : ℕ
  pub hits : ℕ
  pub misses : ℕ
  pub stored : ℕ
  pub passthrough : ℕ
  pub errors : ℕ
  pub bytes_from_cache : ℕ
  pub bytes_from_network : ℕ
  pub bytes_uploaded : ℕ
  pub entries_stored : ℕ
  pub packed : ℕ
  pub packed_bytes : ℕ
  pub uploads_failed : ℕ
  pub upstream_millis : ℕ

-- The counters, and the log once it is open.
pub record Stats : Type 0 where
  pub counts : Summary
  pub log : Option LogFile

abbrev pub zero_summary : Summary
zero_summary = record {
  requests = 0;
  hits = 0;
  misses = 0;
  stored = 0;
  passthrough = 0;
  errors = 0;
  bytes_from_cache = 0;
  bytes_from_network = 0;
  bytes_uploaded = 0;
  entries_stored = 0;
  packed = 0;
  packed_bytes = 0;
  uploads_failed = 0;
  upstream_millis = 0;
}

abbrev pub default : Stats
default = record { counts = zero_summary; log = none }

-- `fetch_add`.
abbrev pub add : ℕ → ℕ → ℕ
add a b = (a + b) % 2 ^ 64

-- The file is opened for appending; `before` is what it holds.
unfoldable pub open_log : Stats → LogFile → Stats
open_log s before = record s { log = some before }

unfoldable pub count : Summary → Outcome → ℕ → ℕ → Summary
count c hit bytes millis = record c {
  requests = add c.requests 1;
  hits = add c.hits 1;
  bytes_from_cache = add c.bytes_from_cache bytes;
}
count c stored bytes millis = record c {
  requests = add c.requests 1;
  misses = add c.misses 1;
  stored = add c.stored 1;
  bytes_from_network = add c.bytes_from_network bytes;
  upstream_millis = add c.upstream_millis millis;
}
count c (miss reason) bytes millis = record c {
  requests = add c.requests 1;
  misses = add c.misses 1;
  bytes_from_network = add c.bytes_from_network bytes;
  upstream_millis = add c.upstream_millis millis;
}
count c (pass reason) bytes millis = record c {
  requests = add c.requests 1;
  passthrough = add c.passthrough 1;
  bytes_from_network = add c.bytes_from_network bytes;
}
count c (error reason) bytes millis = record c {
  requests = add c.requests 1;
  errors = add c.errors 1;
}

abbrev pub in_brackets : Bytes → Bytes → Bytes
in_brackets word reason = word ++ (codes " (" ++ (reason ++ codes ")"))

abbrev pub label_of : Outcome → Bytes
label_of hit = codes "HIT  "
label_of stored = codes "MISS "
label_of (miss reason) = in_brackets (codes "MISS") reason
label_of (pass reason) = in_brackets (codes "PASS") reason
label_of (error reason) = in_brackets (codes "ERROR") reason

abbrev pub is_stored : Outcome → Bool
is_stored stored = true
is_stored _ = false

abbrev pub piece_of : Line → Option ℕ → Piece
piece_of line none = whole line
piece_of line (some n) = cut line n

-- `write_all`, whose result is dropped.
abbrev pub write_line : Option LogFile → Line → Option LogFile
write_line none line = none
write_line (some file) line = some (record {
  pieces = file.pieces ++ piece_of line (file.results 0) ∷ [];
  results = λ i. file.results (suc i);
})

unfoldable pub record_request : Stats → Outcome → Bytes → Bytes → ℕ → ℕ → Stats
unfolding count
record_request s outcome method url bytes millis = record {
  counts = count s.counts outcome bytes millis;
  log = write_line s.log (record {
    label = label_of outcome;
    bytes = bytes;
    millis = millis;
    method = method;
    url = url;
    was_stored = is_stored outcome;
  });
}

unfoldable pub record_upload : Summary → ℕ → Bool → Summary
record_upload c bytes true = record c {
  entries_stored = add c.entries_stored 1;
  bytes_uploaded = add c.bytes_uploaded bytes;
}
record_upload c bytes false = record c { uploads_failed = add c.uploads_failed 1 }

unfoldable pub record_packed : Summary → ℕ → ℕ → Summary
record_packed c objects bytes = record c { packed = objects; packed_bytes = bytes }

abbrev pub summary : Stats → Summary
summary s = s.counts
