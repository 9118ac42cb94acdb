-- ===== src/Stats/Render.antt =====
-- src/stats.rs: the text of a line of the request log, `human_bytes` and `Summary::render`.
pub mod Units
pub mod Log
pub mod Instance
mod Tests
use cicache.Prelude.{
  ℕ, zero, suc, ◌+◌, ◌-◌, ◌*◌, ◌^◌, ◌≤◌, ◌<◌, ◌≡◌, Bool, true, false, ◌&&◌, List, map, [], ◌∷◌,
  ◌++◌, ◌==◌, leb, if◌then◌else◌,
}
use cicache.Text.Utf8.{Bytes, codes}
use cicache.Text.Number.{decimal}
use cicache.Text.Lines.{concat, push_lines}
use cicache.Text.Lines.Laws.{lacks}
use cicache.Stats.{Line, Summary, add}

-- `f64`: the conversion of an integer, the operators, `>=`, and the text of `{:.1}`.
pub record FloatLib : Type 1 where
  pub Float : Type 0
  pub of_u64 : ℕ → Float
  pub mul : Float → Float → Float
  pub div : Float → Float → Float
  pub at_least : Float → Float → Bool
  pub one_decimal : Float → Bytes

-- What IEEE 754 says here of `f64`: integers up to 2 ^ 53 are exact and rounding keeps the order,
-- and a division by 1024 only changes the exponent.
pub record FloatLaws (lib : FloatLib) : Type 0 where
  pub ordered : (n k : ℕ) → k ≤ 2 ^ 53 → lib.at_least (lib.of_u64 n) (lib.of_u64 k) ≡ leb k n
  pub scaled :
      (x : lib.Float) (k : ℕ)
      → 0 < k
      → k * 1024 ≤ 2 ^ 53
      → lib.at_least (lib.div x (lib.of_u64 1024)) (lib.of_u64 k)
        ≡ lib.at_least x (lib.of_u64 (k * 1024))

-- The text of `{:.1}` is a sign, digits, a point or a word: no control character.
abbrev pub IsPlainText : FloatLib → Type 0
IsPlainText lib = (x : lib.Float) (b : ℕ) → b < 32 → lacks b (lib.one_decimal x) ≡ true

-- The characters of a text are its bytes but for those that continue one.
abbrev pub chars : Bytes → ℕ
chars [] = 0
chars (b ∷ s) = if leb 0x80 b && leb b 0xbf then chars s else suc (chars s)

abbrev pub spaces : ℕ → Bytes
spaces zero = []
spaces (suc n) = 32 ∷ spaces n

-- `{:<n}` and `{:>n}`: a text that is longer already is left as it is.
abbrev pub pad_right : ℕ → Bytes → Bytes
pad_right width s = s ++ spaces (width - chars s)

abbrev pub pad_left : ℕ → Bytes → Bytes
pad_left width s = spaces (width - chars s) ++ s

abbrev pub units : List Bytes
units = codes "B" ∷ codes "KiB" ∷ codes "MiB" ∷ codes "GiB" ∷ []

-- `UNITS[unit]`; the loop does not leave the array.
abbrev pub unit_name : ℕ → List Bytes → Bytes
unit_name unit [] = []
unit_name zero (name ∷ names) = name
unit_name (suc unit) (name ∷ names) = unit_name unit names

module _ (lib : FloatLib) where
  open lib use {Float, of_u64, mul, div, at_least, one_decimal}

  -- The loop of `human_bytes`; `left` is `UNITS.len() - 1 - unit`.
  unfoldable pub scale : ℕ → Float → ℕ → Float × ℕ
  scale zero value unit = (value, unit)
  scale (suc left) value unit =
      let more = scale left (div value (of_u64 1024)) (unit + 1) in
      if at_least value (of_u64 1024) then more else (value, unit)

  abbrev pub with_unit : ℕ → Float × ℕ → Bytes
  with_unit bytes (value, unit) =
      if unit == 0
      then decimal bytes ++ codes " B"
      else one_decimal value ++ (codes " " ++ unit_name unit units)

  unfoldable pub human_bytes : ℕ → Bytes
  unfolding scale
  human_bytes bytes = with_unit bytes (scale 3 (of_u64 bytes) 0)

  abbrev pub stored_mark : Bool → Bytes
  stored_mark true = codes "  -> stored"
  stored_mark false = []

  -- The pieces of a line, but for its end.
  abbrev pub pieces_of : Line → List Bytes
  pieces_of line =
      pad_right 32 line.label
      ∷ codes " "
      ∷ pad_left 10 (human_bytes line.bytes)
      ∷ codes " "
      ∷ pad_left 8 (decimal line.millis ++ codes "ms")
      ∷ codes "  "
      ∷ line.method
      ∷ codes " "
      ∷ line.url
      ∷ stored_mark line.was_stored
      ∷ []

  unfoldable pub line_text : Line → Bytes
  unfolding human_bytes concat
  line_text line = concat (pieces_of line)

  -- The bytes of these lines in the log file, where no write fails.
  unfoldable pub log_text : List Line → Bytes
  unfolding line_text push_lines
  log_text lines = push_lines (map line_text lines)

  abbrev pub hit_rate : Summary → Float
  hit_rate s =
      let cacheable = add s.hits s.misses in
      if cacheable == 0 then of_u64 0 else div (mul (of_u64 100) (of_u64 s.hits)) (of_u64 cacheable)

  unfoldable pub render : Summary → Bytes
  unfolding human_bytes concat
  render s = concat (
      codes "cicache summary\n"
      ∷ codes "  requests           "
      ∷ decimal s.requests
      ∷ codes "\n"
      ∷ codes "  cache hits         "
      ∷ decimal s.hits
      ∷ codes " ("
      ∷ one_decimal (hit_rate s)
      ∷ codes "% of cacheable)\n"
      ∷ codes "  cache misses       "
      ∷ decimal s.misses
      ∷ codes " ("
      ∷ decimal s.stored
      ∷ codes " stored for later runs)\n"
      ∷ codes "  passed through     "
      ∷ decimal s.passthrough
      ∷ codes "\n"
      ∷ codes "  errors             "
      ∷ decimal s.errors
      ∷ codes "\n"
      ∷ codes "  served from cache  "
      ∷ human_bytes s.bytes_from_cache
      ∷ codes "\n"
      ∷ codes "  fetched upstream   "
      ∷ human_bytes s.bytes_from_network
      ∷ codes "  in "
      ∷ one_decimal (div (of_u64 s.upstream_millis) (of_u64 1000))
      ∷ codes "s\n"
      ∷ codes "  uploaded to cache  "
      ∷ human_bytes s.bytes_uploaded
      ∷ codes " across "
      ∷ decimal s.entries_stored
      ∷ codes " entries ("
      ∷ decimal s.uploads_failed
      ∷ codes " failed)\n"
      ∷ codes "  packed together    "
      ∷ human_bytes s.packed_bytes
      ∷ codes " across "
      ∷ decimal s.packed
      ∷ codes " objects\n"
      ∷ [])
