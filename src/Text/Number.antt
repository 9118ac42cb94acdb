-- ===== src/Text/Number.antt =====
-- `parse::<u64>()` and the decimal text of a number.
pub mod Laws
use cicache.Prelude.{
  ℕ, zero, suc, ◌+◌, ◌-◌, ◌*◌, ◌/◌, ◌%◌, ◌^◌, Bool, ◌&&◌, Option, none, some, [], ◌∷◌, ◌==◌, leb,
  ltb, if◌then◌else◌,
}
use cicache.Text.Utf8.{Bytes}

abbrev pub is_digit : ℕ → Bool
is_digit b = leb 48 b && leb b 57

-- Each digit is added with checked arithmetic: `none` at another byte, or past the width.
unfoldable pub digits_from : ℕ → Bytes → Option ℕ
digits_from acc [] = some acc
digits_from acc (b ∷ s) =
    let next = acc * 10 + (b - 48) in
    let rest = digits_from next s in if is_digit b && ltb next (2 ^ 64) then rest else none

-- A leading `+` is accepted; an empty text is not.
unfoldable pub parse_u64 : Bytes → Option ℕ
unfolding digits_from
parse_u64 [] = none
parse_u64 (b ∷ []) = digits_from 0 (b ∷ [])
parse_u64 (b ∷ c ∷ s) = if b == b'+' then digits_from 0 (c ∷ s) else digits_from 0 (b ∷ c ∷ s)

-- The decimal digits of a number, most significant first; the number is fuel enough.
unfoldable pub decimal_from : ℕ → ℕ → Bytes → Bytes
decimal_from zero n after = after
decimal_from (suc fuel) n after =
    let more = decimal_from fuel (n / 10) ((n % 10 + 48) ∷ after) in
    if ltb n 10 then (n + 48) ∷ after else more

unfoldable pub decimal : ℕ → Bytes
unfolding decimal_from
decimal n = decimal_from (suc n) n []
