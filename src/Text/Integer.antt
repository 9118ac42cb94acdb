-- ===== src/Text/Integer.antt =====
-- `to_le_bytes` and `from_le_bytes`, and slices with Rust's bounds.
use native.Mathlib.Nat.{pow-suc}
use cicache.Prelude.{
  ℕ, zero, suc, ◌+◌, ◌-◌, ◌*◌, ◌/◌, ◌%◌, ◌^◌, ◌<◌, ◌≡◌, refl, [], ◌∷◌, ◌++◌, arith, length, take,
  drop, drop-append, take-append,
}
use cicache.Text.Utf8.{Bytes}

-- The lowest `w` bytes of a number, lowest first.
unfoldable pub to_le_bytes : ℕ → ℕ → Bytes
to_le_bytes zero n = []
to_le_bytes (suc w) n = (n % 256) ∷ to_le_bytes w (n / 256)

unfoldable pub from_le_bytes : Bytes → ℕ
from_le_bytes [] = 0
from_le_bytes (b ∷ bs) = b + 256 * from_le_bytes bs

pub from_le_bytes-to_le_bytes : (w n : ℕ) → n < 256 ^ w → from_le_bytes (to_le_bytes w n) ≡ n
unfolding to_le_bytes from_le_bytes
from_le_bytes-to_le_bytes zero n h = omega arith
from_le_bytes-to_le_bytes (suc w) n h =
    omega (arith, from_le_bytes-to_le_bytes w (n / 256) (omega (arith, pow-suc 256 w)))

pub length-to_le_bytes : (w n : ℕ) → length (to_le_bytes w n) ≡ w
unfolding to_le_bytes
length-to_le_bytes zero n = refl
length-to_le_bytes (suc w) n = omega (arith, length-to_le_bytes w (n / 256))

-- `raw[a..b]` where the code has checked that the range lies inside.
abbrev pub slice : Bytes → ℕ → ℕ → Bytes
slice raw a b = take (b - a) (drop a raw)

pub slice_middle :
    (pre mid post : Bytes) (a b : ℕ)
    → a ≡ length pre
    → b ≡ length pre + length mid
    → slice (pre ++ (mid ++ post)) a b ≡ mid
slice_middle pre mid post a b ea eb =
    rw (drop-append pre (mid ++ post) a ea) (take-append mid post (b - a) (omega arith))
