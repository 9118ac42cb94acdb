-- ===== src/Stats/Render/Units.antt =====
-- The unit that `human_bytes` chooses.
use cicache.Prelude.{ℕ, ◌^◌, ◌≡◌, ◌∙◌, ◌++◌, ltb, leb, if◌then◌else◌, arith}
use cicache.Text.Utf8.{Bytes, codes}
use cicache.Text.Number.{decimal}
use cicache.Stats.Render.{FloatLib, FloatLaws, scale, human_bytes}

module _ (lib : FloatLib) where
  open lib use {Float, of_u64, div, at_least, one_decimal}

  -- A number of bytes divided by 1024 once, twice and three times.
  abbrev pub kib : ℕ → Float
  kib n = div (of_u64 n) (of_u64 1024)

  abbrev pub mib : ℕ → Float
  mib n = div (kib n) (of_u64 1024)

  abbrev pub gib : ℕ → Float
  gib n = div (mib n) (of_u64 1024)

  -- The text, from the integer alone.
  abbrev pub spelled : ℕ → Bytes
  spelled n =
      if ltb n (2 ^ 10)
      then decimal n ++ codes " B"
      else if ltb n (2 ^ 20)
      then one_decimal (kib n) ++ codes " KiB"
      else if ltb n (2 ^ 30)
      then one_decimal (mib n) ++ codes " MiB"
      else one_decimal (gib n) ++ codes " GiB"

  module _ (laws : FloatLaws lib) where
    from_kib : (n : ℕ) → at_least (of_u64 n) (of_u64 1024) ≡ leb (2 ^ 10) n
    from_kib n = laws.ordered n 1024 (omega arith)

    from_mib : (n : ℕ) → at_least (kib n) (of_u64 1024) ≡ leb (2 ^ 20) n
    from_mib n =
        laws.scaled (of_u64 n) 1024 (omega arith) (omega arith)
        ∙ laws.ordered n (2 ^ 20) (omega arith)

    from_gib : (n : ℕ) → at_least (mib n) (of_u64 1024) ≡ leb (2 ^ 30) n
    from_gib n =
        laws.scaled (kib n) 1024 (omega arith) (omega arith)
        ∙ laws.scaled (of_u64 n) (2 ^ 20) (omega arith) (omega arith)
        ∙ laws.ordered n (2 ^ 30) (omega arith)

    -- A number of bytes is written in the largest of the four units that it reaches: in B as the integer
    -- that it is, and in KiB, MiB and GiB divided by 1024 once, twice and three times, with one decimal.
    -- The conversion of integers keeps their order, as IEEE 754 says.
    pub human_bytes-spelled : (n : ℕ) → human_bytes lib n ≡ spelled n
    unfolding human_bytes scale
    human_bytes-spelled n = rw (from_kib n, from_mib n, from_gib n) (ground arith)
